-- ===== src/Prelude/Text/Same.antt =====
-- The comparison of strings decides equality.
use mathlib.Core.Path.{◌≡◌, refl}
use mathlib.Core.Logic.{◌↔◌, ◌≢◌}
use mathlib.Core.Bool.{true, false}
use mathlib.Core.List.{◌∷◌}
use native.Mathlib.Omega.{arith}
use relaymesh.Prelude.Text.Defs.{Text, same}

pub same_iff : (a b : Text) → (same a b ≡ true) ↔ (a ≡ b)
unfolding same
same_iff (x ∷ a) (y ∷ b) = ground (arith, same_iff a b)
same_iff _ _ = ground arith

pub same_refl : (a : Text) → same a a ≡ true
same_refl a = (same_iff a a).1 refl

pub same_ne : (a b : Text) → a ≢ b → same a b ≡ false
same_ne a b h = ground (arith, same_iff a b)
