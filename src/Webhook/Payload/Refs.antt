-- ===== src/Webhook/Payload/Refs.antt =====
-- annotatePayload of pkg/webhook/payload_helpers.go: the reference that a payload is given.
use relaymesh.Prelude.{
  ◌≡◌, refl, subst, true, Option, none, some, List, [], ◌∷◌, Bool-cases, inl, inr,
}
use relaymesh.Prelude.Text.{Text, text, same, trim_space, has_prefix}
use relaymesh.Core.Value.{Value, Fields, str, obj, get_field, get_field-set_field}
use relaymesh.Core.Resolve.{is_nil}
use relaymesh.Webhook.Payload.{
  Formatting, normalize_git_ref, candidate_ref, first_ref, own_ref, derive_git_ref, put_ref,
  annotate_flat, flat_ref, annotate_object, annotate_payload, derive_fields,
}

-- A reference that is there begins with "refs/".
abbrev pub IsRef : Option Text → Type 0
IsRef none = Unit
IsRef (some ref) = has_prefix ref (text "refs/") ≡ true

module _ (fmt : Formatting) where
  normalize_git_ref-IsRef : (value : Text) → IsRef (normalize_git_ref fmt value)
  unfolding normalize_git_ref has_prefix
  normalize_git_ref-IsRef value = elim (Bool-cases (same (trim_space value) [])) [
    | inl y ↦ rw (y, normalize_git_ref) tt
    | inr n ↦ elim (Bool-cases (has_prefix (trim_space value) (text "refs/"))) [
      | inl y ↦ rw (n, y, normalize_git_ref) y
      | inr m ↦ rw (n, m, normalize_git_ref) refl
    ]
  ]

  candidate_ref-IsRef : (o : Option Value) → IsRef (candidate_ref fmt o)
  unfolding candidate_ref
  candidate_ref-IsRef none = tt
  candidate_ref-IsRef (some value) = elim (Bool-cases (is_nil value)) [
    | inl y ↦ rw (y, candidate_ref) tt
    | inr n ↦ rw (n, candidate_ref) (normalize_git_ref-IsRef (fmt.format_value value))
  ]

  or_else :
      (o p : Option Text)
      → IsRef o
      → IsRef p
      → IsRef (elim o as (λ x. Option Text) [ some ref ↦ some ref | none ↦ p ])
  or_else none p h k = k
  or_else (some ref) p h k = h

  first_ref-IsRef : (fields : Fields) (keys : List Text) → IsRef (first_ref fmt fields keys)
  unfolding first_ref
  first_ref-IsRef fields [] = tt
  first_ref-IsRef fields (key ∷ keys) =
      or_else _ _ (candidate_ref-IsRef (get_field key fields)) (first_ref-IsRef fields keys)

  own_ref-IsRef : (o : Option Value) → IsRef (own_ref fmt o)
  unfolding own_ref
  own_ref-IsRef none = tt
  own_ref-IsRef (some value) = normalize_git_ref-IsRef (fmt.format_value value)

  derive_git_ref-IsRef : (fields : Option Fields) → IsRef (derive_git_ref fmt fields)
  unfolding derive_git_ref
  derive_git_ref-IsRef none = tt
  derive_git_ref-IsRef (some fields) =
      or_else _ _ (own_ref-IsRef (get_field (text "ref") fields)) (first_ref-IsRef fields _)

get_field-put_ref :
    (ref : Text) (m : Fields) → get_field (text "ref") (put_ref (some ref) m) ≡ some (str ref)
unfolding put_ref same
get_field-put_ref ref m = get_field-set_field (text "ref") (text "ref") (str ref) m

-- Where a reference can be derived from the annotated map of a payload, it begins with "refs/", and
-- both the flat map and the object have it under "ref".
pub annotate_payload-IsRef :
    (fmt : Formatting) (object flat : Fields) (provider event ref : Text)
    → flat_ref fmt
        (trim_space provider)
        (trim_space event)
        (derive_fields fmt (trim_space provider) (trim_space event) (some flat))
        (some flat)
      ≡ some ref
    → (has_prefix ref (text "refs/") ≡ true)
      × ((m : Fields) × ((annotate_payload fmt (obj object) (some flat) provider event).flat
            ≡ some m)
          × (get_field (text "ref") m ≡ some (str ref)))
      × ((m : Fields) × ((annotate_payload fmt (obj object) (some flat) provider event).raw_object
            ≡ obj m)
          × (get_field (text "ref") m ≡ some (str ref)))
unfolding annotate_payload flat_ref annotate_flat annotate_object
annotate_payload-IsRef fmt object flat provider event ref h = (
  subst IsRef h (derive_git_ref-IsRef fmt _),
  (_, refl, rw h (get_field-put_ref ref _)),
  (_, refl, rw h (get_field-put_ref ref _)),
)
