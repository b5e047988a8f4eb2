-- ===== src/Core/Flatten/Entries.antt =====
-- Flatten of pkg/core/flatten.go: the entries of the map.
use relaymesh.Prelude.{ℕ, ◌≡◌, refl, ◌⊎◌, inl, inr, true, Option, none, some}
use relaymesh.Prelude.Text.{Text}
use relaymesh.Core.Value.{Value, Fields, end, field, get_field}
use relaymesh.Core.Flatten.{flatten_top, flatten}
use relaymesh.Core.Flatten.Paths.{PayloadHas, is_some, into_sound, into_keeps, into_there}

module _ (decimal : ℕ → Text) (key : Text) (x : Value) where
  top_sound :
      (m out : Fields)
      → get_field key (flatten_top decimal m out) ≡ some x
      → PayloadHas decimal key x m ⊎ (get_field key out ≡ some x)
  unfolding flatten_top PayloadHas
  top_sound end out h = inr h
  top_sound (field name value rest) out h = elim (top_sound rest _ h) [
    | inl found ↦ inl (inr found)
    | inr before ↦ elim (into_sound decimal key x name value out before) [
      | inl found ↦ inl (inl found)
      | inr earlier ↦ inr earlier
    ]
  ]

  top_keeps :
      (m out : Fields)
      → is_some (get_field key out) ≡ true
      → is_some (get_field key (flatten_top decimal m out)) ≡ true
  unfolding flatten_top
  top_keeps end out h = h
  top_keeps (field name value rest) out h =
      top_keeps rest _ (into_keeps decimal key x name value out h)

  top_there :
      (m out : Fields)
      → PayloadHas decimal key x m
      → is_some (get_field key (flatten_top decimal m out)) ≡ true
  unfolding flatten_top PayloadHas
  top_there end out h = absurd h
  top_there (field name value rest) out (inl found) =
      top_keeps rest _ (into_there decimal key x name value out found)
  top_there (field name value rest) out (inr found) = top_there rest _ found

  nothing_before :
      (m : Fields)
      → PayloadHas decimal key x m ⊎ (get_field key end ≡ some x)
      → PayloadHas decimal key x m
  unfolding get_field
  nothing_before m (inl found) = found
  nothing_before m (inr h) = absurd (cc h)

  pub entry_sound :
      (data_ : Fields)
      → get_field key (flatten decimal data_) ≡ some x
      → PayloadHas decimal key x data_
  unfolding flatten
  entry_sound data_ h = nothing_before data_ (top_sound data_ end h)

  entry_there :
      (data_ : Fields)
      → PayloadHas decimal key x data_
      → (y : Value) × (get_field key (flatten decimal data_) ≡ some y)
  unfolding flatten
  entry_there data_ h = go (get_field key (flatten decimal data_)) refl (top_there data_ end h)
    where
      go :
          (o : Option Value)
          → get_field key (flatten decimal data_) ≡ o
          → is_some o ≡ true
          → (y : Value) × (get_field key (flatten decimal data_) ≡ some y)
      go none e h' = absurd (cc h')
      go (some y) e h' = (y, e)

-- Each entry of a flattened payload is a value of the payload under its path; and for each value of
-- the payload, there is an entry under its path: the value itself, or another value of the payload
-- that has the same path.
pub flatten-PayloadHas :
    (decimal : ℕ → Text) (data_ : Fields) (key : Text) (x : Value)
    → (get_field key (flatten decimal data_) ≡ some x → PayloadHas decimal key x data_)
      × (PayloadHas decimal key x data_
          → (y : Value) × (get_field key (flatten decimal data_) ≡ some y)
            × PayloadHas decimal key y data_)
flatten-PayloadHas decimal data_ key x = (
  entry_sound decimal key x data_,
  λ h. let (y, e) = entry_there decimal key x data_ h in (y, e, entry_sound decimal key y data_ e),
)
