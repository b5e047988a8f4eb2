-- ===== src/Core/Flatten/Paths.antt =====
-- flattenInto of pkg/core/flatten.go: what one value of a payload adds to the map.
use relaymesh.Prelude.{
  ℕ, suc, ◌≡◌, ◌⊎◌, inl, inr, Bool, true, false, Option, none, some, ◌++◌, arith,
}
use relaymesh.Prelude.Text.{Text, text, same_iff}
use relaymesh.Core.Value.{
  Value, Items, Fields, null, bool, num, str, arr, obj, nil, cons, end, field, get_field, set_field,
  get_field-set_field,
}
use relaymesh.Core.Flatten.{dotted, indexed, flatten_into, flatten_fields, flatten_items}

module _ (decimal : ℕ → Text) (key : Text) (x : Value) where
  unfoldable mutual
    -- The value `x` stands in `v` at the path `key`, where `v` itself stands at `path`: a map has
    -- what its fields have, a list has itself, under its path with and without brackets, and what
    -- its items have, and any other value has itself.
    pub Has : Text → Value → Type 0
    Has path (obj m) = FieldsHave path m
    Has path (arr items) =
        (((key ≡ path) ⊎ (key ≡ path ++ text "[]")) × (x ≡ arr items)) ⊎ ItemsHave path 0 items
    Has path v = (key ≡ path) × (x ≡ v)

    pub FieldsHave : Text → Fields → Type 0
    FieldsHave path end = ⊥
    FieldsHave path (field name child rest) = Has (dotted path name) child ⊎ FieldsHave path rest

    pub ItemsHave : Text → ℕ → Items → Type 0
    ItemsHave path i nil = ⊥
    ItemsHave path i (cons child rest) =
        Has (indexed decimal path i) child ⊎ ItemsHave path (suc i) rest

  -- The payload has `x` at the path `key`.
  unfoldable pub PayloadHas : Fields → Type 0
  PayloadHas end = ⊥
  PayloadHas (field name value rest) = Has name value ⊎ PayloadHas rest

abbrev pub is_some : Option Value → Bool
is_some none = false
is_some (some v) = true

-- A field that is set, or else one that was there.
put_sound :
    (path key : Text) (v x : Value) (out : Fields)
    → get_field key (set_field path v out) ≡ some x
    → ((key ≡ path) × (x ≡ v)) ⊎ (get_field key out ≡ some x)
put_sound path key v x out h = ground (arith, get_field-set_field path key v out, same_iff path key)

put_keeps :
    (path key : Text) (v : Value) (out : Fields)
    → is_some (get_field key out) ≡ true
    → is_some (get_field key (set_field path v out)) ≡ true
put_keeps path key v out h = rw (get_field-set_field path key v out) (ground arith)

put_there :
    (path key : Text) (v : Value) (out : Fields)
    → key ≡ path
    → is_some (get_field key (set_field path v out)) ≡ true
put_there path key v out h =
    rw (get_field-set_field path key v out) (ground (arith, same_iff path key))

module _ (decimal : ℕ → Text) (key : Text) (x : Value) where
  mutual
    unfolding flatten_into flatten_fields flatten_items Has FieldsHave ItemsHave

    pub into_sound :
        (path : Text) (v : Value) (out : Fields)
        → get_field key (flatten_into decimal path v out) ≡ some x
        → Has decimal key x path v ⊎ (get_field key out ≡ some x)
    into_sound path null out h = put_sound path key null x out h
    into_sound path (bool b) out h = put_sound path key (bool b) x out h
    into_sound path (num n) out h = put_sound path key (num n) x out h
    into_sound path (str s) out h = put_sound path key (str s) x out h
    into_sound path (arr items) out h = elim (items_sound path 0 items _ h) [
      | inl found ↦ inl (inr found)
      | inr marked ↦ elim (put_sound (path ++ text "[]") key (arr items) x _ marked) [
        | inl (at, eq) ↦ inl (inl (inr at, eq))
        | inr whole ↦ elim (put_sound path key (arr items) x out whole) [
          | inl (at, eq) ↦ inl (inl (inl at, eq))
          | inr before ↦ inr before
        ]
      ]
    ]
    into_sound path (obj m) out h = fields_sound path m out h

    fields_sound :
        (path : Text) (m out : Fields)
        → get_field key (flatten_fields decimal path m out) ≡ some x
        → FieldsHave decimal key x path m ⊎ (get_field key out ≡ some x)
    fields_sound path end out h = inr h
    fields_sound path (field name child rest) out h = elim (fields_sound path rest _ h) [
      | inl found ↦ inl (inr found)
      | inr before ↦ elim (into_sound (dotted path name) child out before) [
        | inl found ↦ inl (inl found)
        | inr earlier ↦ inr earlier
      ]
    ]

    items_sound :
        (path : Text) (i : ℕ) (items : Items) (out : Fields)
        → get_field key (flatten_items decimal path i items out) ≡ some x
        → ItemsHave decimal key x path i items ⊎ (get_field key out ≡ some x)
    items_sound path i nil out h = inr h
    items_sound path i (cons child rest) out h = elim (items_sound path (suc i) rest _ h) [
      | inl found ↦ inl (inr found)
      | inr before ↦ elim (into_sound (indexed decimal path i) child out before) [
        | inl found ↦ inl (inl found)
        | inr earlier ↦ inr earlier
      ]
    ]

  mutual
    unfolding flatten_into flatten_fields flatten_items

    -- Flattening more never drops a key.
    pub into_keeps :
        (path : Text) (v : Value) (out : Fields)
        → is_some (get_field key out) ≡ true
        → is_some (get_field key (flatten_into decimal path v out)) ≡ true
    into_keeps path null out h = put_keeps path key null out h
    into_keeps path (bool b) out h = put_keeps path key (bool b) out h
    into_keeps path (num n) out h = put_keeps path key (num n) out h
    into_keeps path (str s) out h = put_keeps path key (str s) out h
    into_keeps path (arr items) out h =
        items_keep path 0 items _
          (put_keeps (path ++ text "[]") key (arr items) _ (put_keeps path key (arr items) out h))
    into_keeps path (obj m) out h = fields_keep path m out h

    fields_keep :
        (path : Text) (m out : Fields)
        → is_some (get_field key out) ≡ true
        → is_some (get_field key (flatten_fields decimal path m out)) ≡ true
    fields_keep path end out h = h
    fields_keep path (field name child rest) out h =
        fields_keep path rest _ (into_keeps (dotted path name) child out h)

    items_keep :
        (path : Text) (i : ℕ) (items : Items) (out : Fields)
        → is_some (get_field key out) ≡ true
        → is_some (get_field key (flatten_items decimal path i items out)) ≡ true
    items_keep path i nil out h = h
    items_keep path i (cons child rest) out h =
        items_keep path (suc i) rest _ (into_keeps (indexed decimal path i) child out h)

  mutual
    unfolding flatten_into flatten_fields flatten_items Has FieldsHave ItemsHave

    pub into_there :
        (path : Text) (v : Value) (out : Fields)
        → Has decimal key x path v
        → is_some (get_field key (flatten_into decimal path v out)) ≡ true
    into_there path null out h = put_there path key null out h.0
    into_there path (bool b) out h = put_there path key (bool b) out h.0
    into_there path (num n) out h = put_there path key (num n) out h.0
    into_there path (str s) out h = put_there path key (str s) out h.0
    into_there path (arr items) out (inl (inl at, eq)) =
        items_keep path 0 items _
          (put_keeps (path ++ text "[]") key (arr items) _ (put_there path key (arr items) out at))
    into_there path (arr items) out (inl (inr at, eq)) =
        items_keep path 0 items _ (put_there (path ++ text "[]") key (arr items) _ at)
    into_there path (arr items) out (inr found) = items_there path 0 items _ found
    into_there path (obj m) out h = fields_there path m out h

    fields_there :
        (path : Text) (m out : Fields)
        → FieldsHave decimal key x path m
        → is_some (get_field key (flatten_fields decimal path m out)) ≡ true
    fields_there path end out h = absurd h
    fields_there path (field name child rest) out (inl found) =
        fields_keep path rest _ (into_there (dotted path name) child out found)
    fields_there path (field name child rest) out (inr found) = fields_there path rest _ found

    items_there :
        (path : Text) (i : ℕ) (items : Items) (out : Fields)
        → ItemsHave decimal key x path i items
        → is_some (get_field key (flatten_items decimal path i items out)) ≡ true
    items_there path i nil out h = absurd h
    items_there path i (cons child rest) out (inl found) =
        items_keep path (suc i) rest _ (into_there (indexed decimal path i) child out found)
    items_there path i (cons child rest) out (inr found) = items_there path (suc i) rest _ found
