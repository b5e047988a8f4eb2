-- ===== src/Prelude/Text/Defs.antt =====
-- Package strings over lists of bytes.
use Prim.Native.Nat.{ℕ, zero, suc, ◌+◌}
use Prim.Native.Char.{code}
use Prim.Native.String.{String}
use mathlib.Core.Path.{◌≡◌, refl}
use mathlib.Core.Logic.{inl, inr}
use native.Mathlib.Omega.{arith}
use mathlib.Core.Bool.{Bool, true, false, ◌&&◌, ◌||◌}
use mathlib.Core.List.{List, [], ◌∷◌, ◌++◌, map, reverse}
use relaymesh.Prelude.Tests.{Bool-cases, and-eq-true, leb, ◌==◌, if◌then◌else◌}

abbrev pub Text : Type 0
Text = List ℕ

-- The bytes of an ASCII literal.
abbrev pub text : String → Text
text String.[] = []
text (String.◌∷◌ c s) = code c ∷ text s

-- The comparison of two strings.
unfoldable pub same : Text → Text → Bool
same [] [] = true
same (x ∷ xs) (y ∷ ys) = x == y && same xs ys
same _ _ = false

unfoldable pub is_ascii_space : ℕ → Bool
is_ascii_space c = (leb 9 c && leb c 13) || c == 32

-- U+0085 and U+00A0
unfoldable pub is_two_byte_space : ℕ → ℕ → Bool
is_two_byte_space a b = a == 0xc2 && (b == 0x85 || b == 0xa0)

-- U+1680, U+2000 to U+200A, U+2028, U+2029, U+202F, U+205F and U+3000
unfoldable pub is_three_byte_space : ℕ → ℕ → ℕ → Bool
is_three_byte_space a b c =
    (a == 0xe1 && b == 0x9a && c == 0x80)
    || (a == 0xe2
        && b == 0x80
        && ((leb 0x80 c && leb c 0x8a) || c == 0xa8 || c == 0xa9 || c == 0xaf))
    || (a == 0xe2 && b == 0x81 && c == 0x9f)
    || (a == 0xe3 && b == 0x80 && c == 0x80)

-- The width of the space that a text begins with, 0 if it begins with none.
unfoldable pub leading_space : Text → ℕ
unfolding is_ascii_space is_two_byte_space is_three_byte_space
leading_space [] = 0
leading_space (a ∷ []) = if is_ascii_space a then 1 else 0
leading_space (a ∷ b ∷ []) = if is_ascii_space a then 1 else if is_two_byte_space a b then 2 else 0
leading_space (a ∷ b ∷ c ∷ r) =
    if is_ascii_space a
    then 1
    else if is_two_byte_space a b
    then 2
    else if is_three_byte_space a b c
    then 3
    else 0

-- The same at the end of a text that is given from its last byte on.
unfoldable pub trailing_space : Text → ℕ
unfolding is_ascii_space is_two_byte_space is_three_byte_space
trailing_space [] = 0
trailing_space (a ∷ []) = if is_ascii_space a then 1 else 0
trailing_space (a ∷ b ∷ []) = if is_ascii_space a then 1 else if is_two_byte_space b a then 2 else 0
trailing_space (a ∷ b ∷ c ∷ r) =
    if is_ascii_space a
    then 1
    else if is_two_byte_space b a
    then 2
    else if is_three_byte_space c b a
    then 3
    else 0

-- Drops `k` bytes, and then spaces while `width` finds one.
unfoldable pub strip : (Text → ℕ) → ℕ → Text → Text
strip width k [] = []
strip width zero (c ∷ r) = elim (width (c ∷ r)) [ zero ↦ c ∷ r | suc k ↦ strip width k r ]
strip width (suc k) (c ∷ r) = strip width k r

unfoldable pub trim_left : Text → Text
unfolding strip leading_space
trim_left s = strip leading_space 0 s

unfoldable pub trim_right : Text → Text
unfolding strip trailing_space
trim_right s = reverse (strip trailing_space 0 (reverse s))

-- strings.TrimSpace
unfoldable pub trim_space : Text → Text
unfolding trim_left trim_right
trim_space s = trim_right (trim_left s)

-- strings.TrimSpace(s) == ""
abbrev pub is_blank : Text → Bool
is_blank s = same (trim_space s) []

-- strings.HasPrefix
unfoldable pub has_prefix : Text → Text → Bool
has_prefix s [] = true
has_prefix [] (p ∷ ps) = false
has_prefix (c ∷ cs) (p ∷ ps) = c == p && has_prefix cs ps

cut : Text → Text → Text
cut s [] = s
cut [] (p ∷ ps) = []
cut (c ∷ cs) (p ∷ ps) = cut cs ps

-- strings.TrimPrefix
unfoldable pub trim_prefix : Text → Text → Text
unfolding has_prefix cut
trim_prefix s p = if has_prefix s p then cut s p else s

-- strings.Join
unfoldable pub join : List Text → Text → Text
join [] sep = []
join (x ∷ []) sep = x
join (x ∷ y ∷ r) sep = x ++ (sep ++ join (y ∷ r) sep)

lower_byte : ℕ → ℕ
lower_byte c = if leb b'A' c && leb c b'Z' then c + 32 else c

unfoldable pub is_ascii : Text → Bool
is_ascii [] = true
is_ascii (c ∷ r) = leb c 127 && is_ascii r

-- strings.ToLower
unfoldable pub to_lower : (Text → Text) → Text → Text
unfolding lower_byte is_ascii
to_lower wide s = if is_ascii s then map lower_byte s else wide s

lower_ascii :
    (s : Text)
    → is_ascii s ≡ true
    → (is_ascii (map lower_byte s) ≡ true) × (map lower_byte (map lower_byte s) ≡ map lower_byte s)
unfolding is_ascii lower_byte
lower_ascii [] h = (refl, refl)
lower_ascii (c ∷ r) h =
    let (c_ascii, r_ascii) = and-eq-true (leb c 127) (is_ascii r) h in
    let (again, idem) = lower_ascii r r_ascii in
    let low : leb (lower_byte c) 127 ≡ true = ground (arith, c_ascii) in
    let once : lower_byte (lower_byte c) ≡ lower_byte c = ground arith in
    (rw (low, again) refl, rw (once, idem) refl)

-- strings.ToLower is the same applied again, where it is so beyond ASCII.
pub to_lower_idem :
    (wide : Text → Text)
    → ((s : Text) → is_ascii s ≡ false → to_lower wide (wide s) ≡ wide s)
    → (s : Text) → to_lower wide (to_lower wide s) ≡ to_lower wide s
unfolding to_lower
to_lower_idem wide h s = elim (Bool-cases (is_ascii s)) [
  | inl y ↦ let (again, idem) = lower_ascii s y in rw (y, to_lower) (rw (again, to_lower) idem)
  | inr n ↦ rw (n, to_lower) (h s n)
]
