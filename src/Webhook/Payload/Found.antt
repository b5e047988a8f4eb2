-- ===== src/Webhook/Payload/Found.antt =====
-- dataString of pkg/webhook/event_normalize.go: the value that a list of keys gives.
use relaymesh.Prelude.{
  ◌≡◌, refl, ap, false, ◌||◌, Option, none, some, List, [], ◌∷◌, ◌++◌, All, Bool-cases, inl, inr,
}
use relaymesh.Prelude.Text.{Text, text, same, same_iff, trim_space, trim_space_idem}
use relaymesh.Core.Value.{Value, Fields, get_field}
use relaymesh.Core.Resolve.{is_nil}
use relaymesh.Webhook.Payload.{Formatting, value_text, first_text, data_string}

-- The keys that come before the one that gives a value give none.
pub data First (fmt : Formatting) (fields : Fields) (keys : List Text) : Text → Type 0 where
  nothing : All (λ k. value_text fmt (get_field k fields) ≡ []) keys → First fmt fields keys []
  found :
      (before after : List Text) (key : Text)
      → keys ≡ before ++ key ∷ after
      → All (λ k. value_text fmt (get_field k fields) ≡ []) before
      → same (value_text fmt (get_field key fields)) [] ≡ false
      → First fmt fields keys (value_text fmt (get_field key fields))

module _ (fmt : Formatting) where
  trim_space-value_text : (o : Option Value) → trim_space (value_text fmt o) ≡ value_text fmt o
  unfolding value_text trim_space
  trim_space-value_text none = refl
  trim_space-value_text (some value) =
      elim (Bool-cases
        (is_nil value || same (trim_space (fmt.format_value value)) (text "<nil>"))) [
          | inl y ↦ rw (y, value_text) refl
          | inr n ↦ rw (n, value_text) (trim_space_idem (fmt.format_value value))
        ]

  module _ (fields : Fields) where
    skipped :
        (key : Text) (keys : List Text) (v : Text)
        → value_text fmt (get_field key fields) ≡ []
        → First fmt fields keys v
        → First fmt fields (key ∷ keys) v
    skipped key keys v h (nothing all) = nothing (h, all)
    skipped key keys v h (found before after k e all full) =
        found (key ∷ before) after k (ap (λ ks. key ∷ ks) e) (h, all) full

    first_text-First : (keys : List Text) → First fmt fields keys (first_text fmt fields keys)
    unfolding first_text
    first_text-First [] = nothing tt
    first_text-First (key ∷ keys) =
        elim (Bool-cases (same (value_text fmt (get_field key fields)) [])) [
          | inl y ↦
              rw (y, first_text) (skipped key keys _ ((same_iff _ []).0 y) (first_text-First keys))
          | inr n ↦ rw (n, first_text) (found [] keys key refl tt n)
        ]

First-trimmed :
    (fmt : Formatting) (fields : Fields) (keys : List Text) (v : Text)
    → First fmt fields keys v
    → trim_space v ≡ v
unfolding trim_space
First-trimmed fmt fields keys v (nothing all) = refl
First-trimmed fmt fields keys v (found before after key e all full) =
    trim_space-value_text fmt (get_field key fields)

-- A field of an event that is looked up under several keys has the value of the first key that gives
-- any text, without the spaces around it, or no text if none does.
pub data_string-First :
    (fmt : Formatting) (fields : Fields) (keys : List Text)
    → First fmt fields keys (data_string fmt (some fields) keys)
      × (trim_space (data_string fmt (some fields) keys) ≡ data_string fmt (some fields) keys)
unfolding data_string
data_string-First fmt fields keys = (
  first_text-First fmt fields keys,
  First-trimmed fmt fields keys _ (first_text-First fmt fields keys),
)
