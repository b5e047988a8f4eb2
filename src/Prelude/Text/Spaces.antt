-- ===== src/Prelude/Text/Spaces.antt =====
-- strings.TrimSpace, applied again.
use Prim.Native.Nat.{ℕ, zero, suc}
use mathlib.Core.Path.{◌≡◌, refl, sym, ap, ◌∙◌}
use mathlib.Core.Logic.{◌⊎◌, inl, inr}
use mathlib.Core.List.{[], ◌∷◌, ◌++◌, reverse, reverse-append, reverse-reverse}
use native.Mathlib.Omega.{arith}
use relaymesh.Prelude.Text.Defs.{
  Text, leading_space, trailing_space, strip, trim_left, trim_right, trim_space,
}

module _ (width : Text → ℕ) where
  -- The loop ends at a text with no space in front, or at the end.
  strip_stops : (k : ℕ) (s : Text) → (strip width k s ≡ []) ⊎ (width (strip width k s) ≡ 0)
  unfolding strip
  strip_stops k [] = inl refl
  strip_stops zero (c ∷ r) = go (width (c ∷ r)) refl (λ k. strip_stops k r)
    where
      go :
          (w : ℕ)
          → width (c ∷ r) ≡ w
          → ((k : ℕ) → (strip width k r ≡ []) ⊎ (width (strip width k r) ≡ 0))
          → (strip width 0 (c ∷ r) ≡ []) ⊎ (width (strip width 0 (c ∷ r)) ≡ 0)
      go zero e rest = inr (rw (e, strip) e)
      go (suc k) e rest = rw (e, strip) (rest k)
  strip_stops (suc k) (c ∷ r) = strip_stops k r

  strip_stopped : (s : Text) → width s ≡ 0 → strip width 0 s ≡ s
  unfolding strip
  strip_stopped [] h = refl
  strip_stopped (c ∷ r) h = ground arith

  strip-suffix : (k : ℕ) (s : Text) → (p : Text) × (s ≡ p ++ strip width k s)
  unfolding strip
  strip-suffix k [] = ([], refl)
  strip-suffix zero (c ∷ r) = go (width (c ∷ r)) refl (λ k. strip-suffix k r)
    where
      go :
          (w : ℕ)
          → width (c ∷ r) ≡ w
          → ((k : ℕ) → (p : Text) × (r ≡ p ++ strip width k r))
          → (p : Text) × (c ∷ r ≡ p ++ strip width 0 (c ∷ r))
      go zero e rest = ([], rw (e, strip))
      go (suc k) e rest = let (p, h) = rest k in (c ∷ p, rw (e, strip) (ap (◌∷◌ c) h))
  strip-suffix (suc k) (c ∷ r) = let (p, e) = strip-suffix k r in (c ∷ p, ap (◌∷◌ c) e)

-- A text with no space in front has no beginning with a space in front.
leading_space_prefix : (p q : Text) → leading_space (p ++ q) ≡ 0 → leading_space p ≡ 0
unfolding leading_space
leading_space_prefix [] q h = refl
leading_space_prefix (a ∷ []) [] h = h
leading_space_prefix (a ∷ []) (b ∷ []) h = ground arith
leading_space_prefix (a ∷ []) (b ∷ c ∷ q) h = ground arith
leading_space_prefix (a ∷ b ∷ []) [] h = h
leading_space_prefix (a ∷ b ∷ []) (c ∷ q) h = ground arith
leading_space_prefix (a ∷ b ∷ c ∷ p) q h = h

strip_again : (width : Text → ℕ) (s : Text) → strip width 0 (strip width 0 s) ≡ strip width 0 s
strip_again width s = elim (strip_stops width 0 s) [
  | inl e ↦ rw e (unfold strip in refl)
  | inr e ↦ strip_stopped width (strip width 0 s) e
]

trim_left_idem : (s : Text) → trim_left (trim_left s) ≡ trim_left s
unfolding trim_left
trim_left_idem s = strip_again leading_space s

trim_right_idem : (s : Text) → trim_right (trim_right s) ≡ trim_right s
unfolding trim_right
trim_right_idem s = rw reverse-reverse (rw strip_again)

trim_right-prefix : (s : Text) → (q : Text) × (s ≡ trim_right s ++ q)
unfolding trim_right
trim_right-prefix s =
    let (p, e) = strip-suffix trailing_space 0 (reverse s) in
    (reverse p, sym (reverse-reverse s) ∙ ap reverse e ∙ reverse-append p _)

-- Cutting spaces at the end leaves a text alone that has none in front.
trim_left-trim_right : (s : Text) → trim_left s ≡ s → trim_left (trim_right s) ≡ trim_right s
unfolding trim_left
trim_left-trim_right s h =
    let (q, e) = trim_right-prefix s in
    elim (strip_stops leading_space 0 s) [
      | inl none_left ↦ rw (sym h ∙ none_left) (unfold trim_right in refl)
      | inr stopped ↦ strip_stopped leading_space (trim_right s) (
          leading_space_prefix (trim_right s) q
            (ap leading_space (sym e) ∙ ap leading_space (sym h) ∙ stopped))
    ]

pub trim_space_idem : (s : Text) → trim_space (trim_space s) ≡ trim_space s
unfolding trim_space
trim_space_idem s =
    rw (trim_left-trim_right (trim_left s) (trim_left_idem s)) (trim_right_idem (trim_left s))
