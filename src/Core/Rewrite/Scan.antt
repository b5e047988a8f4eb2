-- ===== src/Core/Rewrite/Scan.antt =====
-- The scanners of pkg/core/rules_rewrite.go and the bytes they take.
use relaymesh.Prelude.{
  ℕ, ◌≤◌, ◌≡◌, refl, ap, sym, true, ◌||◌, Option, none, some, [], ◌∷◌, ◌++◌, arith, ◌==◌, length,
  length-append, Bool-cases, inl, inr,
}
use relaymesh.Prelude.Text.{Text}
use relaymesh.Core.Rewrite.{
  Scanner, start, is_ident_start, is_ident_byte, parse_identifier, scan_byte, scan,
  parse_json_path_token,
}

pub parse_identifier-append : (t : Text) → (parse_identifier t).0 ++ (parse_identifier t).1 ≡ t
unfolding parse_identifier
parse_identifier-append [] = refl
parse_identifier-append (ch ∷ r) = elim (Bool-cases (is_ident_byte ch)) [
  | inl y ↦ rw y (ap (◌∷◌ ch) (parse_identifier-append r))
  | inr n ↦ rw n
]

pub scan-append : (s : Scanner) (t : Text) → (scan s t).0 ++ (scan s t).1 ≡ t
unfolding scan
scan-append s [] = refl
scan-append s (ch ∷ r) = go (scan_byte s ch) refl (λ s'. scan-append s' r)
  where
    go :
        (o : Option Scanner)
        → scan_byte s ch ≡ o
        → ((s' : Scanner) → (scan s' r).0 ++ (scan s' r).1 ≡ r)
        → (scan s (ch ∷ r)).0 ++ (scan s (ch ∷ r)).1 ≡ ch ∷ r
    go none e rest = rw (e, scan)
    go (some s') e rest = rw (e, scan) (ap (◌∷◌ ch) (rest s'))

-- An identifier is a byte at least, where its first byte may start one.
pub parse_identifier_start :
    (ch : ℕ) (r : Text) → is_ident_start ch ≡ true → length (parse_identifier (ch ∷ r)).1 ≤ length r
unfolding parse_identifier is_ident_byte
parse_identifier_start ch r h = rw h (
    omega (
      arith,
      ap length (sym (parse_identifier-append r)),
      length-append {0} (parse_identifier r).0 (parse_identifier r).1,
    ))

-- So is a path, at `$` too: neither is a terminator.
scan_byte-start :
    (ch : ℕ) → (ch == b'$' || is_ident_start ch) ≡ true → scan_byte start ch ≡ some start
unfolding scan_byte is_ident_start
scan_byte-start ch h = ground arith

pub parse_json_path_token_start :
    (ch : ℕ) (r : Text)
    → (ch == b'$' || is_ident_start ch) ≡ true
    → (tok : Text) × ((parse_json_path_token (ch ∷ r)).0 ≡ ch ∷ tok)
      × (length (parse_json_path_token (ch ∷ r)).1 ≤ length r)
unfolding parse_json_path_token scan
parse_json_path_token_start ch r h =
    rw (scan_byte-start ch h, scan)
      (
        (scan start r).0,
        refl,
        omega (
          arith,
          ap length (sym (scan-append start r)),
          length-append {0} (scan start r).0 (scan start r).1,
        ),
      )
