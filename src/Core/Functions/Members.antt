-- ===== src/Core/Functions/Members.antt =====
-- containsFunc of pkg/core/rules_functions.go: what it finds.
use relaymesh.Prelude.{
  ◌≡◌, refl, ap, ◌↔◌, inl, inr, true, false≢true, [], ◌∷◌, ◌++◌, Bool-cases, arith,
}
use relaymesh.Prelude.Text.{Text, has_prefix}
use relaymesh.Prelude.Outcome.{ok}
use relaymesh.Core.Value.{str}
use relaymesh.Core.Resolve.{is_nil}
use relaymesh.Core.Functions.{has_text, contains_func, contains_pair}

has_prefix-append : (p r : Text) → has_prefix (p ++ r) p ≡ true
unfolding has_prefix
has_prefix-append [] [] = refl
has_prefix-append [] (c ∷ r) = refl
has_prefix-append (c ∷ p) r = ground (arith, has_prefix-append p r)

has_prefix_rest : (s p : Text) → has_prefix s p ≡ true → (r : Text) × (s ≡ p ++ r)
unfolding has_prefix
has_prefix_rest s [] h = (s, refl)
has_prefix_rest [] (c ∷ p) h = absurd (false≢true h)
has_prefix_rest (d ∷ s) (c ∷ p) h =
    let both : (d ≡ c) × (has_prefix s p ≡ true) = ground (arith, h) in
    let (r, e) = has_prefix_rest s p both.1 in (r, cc (both.0, e))

-- A text has another in it.
abbrev pub Within : Text → Text → Type 0
Within needle hay = (before : Text) × (after : Text) × (hay ≡ before ++ (needle ++ after))

has_text-has_prefix : (s p : Text) → has_prefix s p ≡ true → has_text s p ≡ true
unfolding has_text
has_text-has_prefix [] p h = h
has_text-has_prefix (c ∷ cs) p h = rw h refl

has_text-append :
    (before needle after : Text) → has_text (before ++ (needle ++ after)) needle ≡ true
unfolding has_text
has_text-append [] needle after =
    has_text-has_prefix (needle ++ after) needle (has_prefix-append needle after)
has_text-append (c ∷ before) needle after = ground (arith, has_text-append before needle after)

has_text-Within : (hay needle : Text) → has_text hay needle ≡ true → Within needle hay
unfolding has_text
has_text-Within [] needle h = let (r, e) = has_prefix_rest [] needle h in ([], r, e)
has_text-Within (c ∷ cs) needle h = elim (Bool-cases (has_prefix (c ∷ cs) needle)) [
  | inl y ↦ let (r, e) = has_prefix_rest (c ∷ cs) needle y in ([], r, e)
  | inr n ↦
      let (before, after, e) = has_text-Within cs needle (rw (n, has_text) at h) in
      (c ∷ before, after, ap (λ x. c ∷ x) e)
]

-- On two texts, `contains` is true exactly if the first has the second in it, at any place.
pub contains_func_iff :
    (hay needle : Text) → (contains_func (str hay ∷ str needle ∷ []) ≡ ok true) ↔ Within needle hay
unfolding contains_func contains_pair is_nil
contains_func_iff hay needle =
    (λ h. has_text-Within hay needle (cc h), λ w. ap ok (rw w.2 (has_text-append w.0 needle w.1)))
