-- ===== src/Storage/Memory/Keyed.antt =====
-- Maps of records by a key of theirs, pkg/storage, mocks_*.go.
use relaymesh.Prelude.{
  ◌≡◌, refl, ap, ◌∙◌, ◌↔◌, ◌⊎◌, inl, inr, Bool, true, false, Option, none, some, List, [], ◌∷◌,
  if◌then◌else◌, Bool-cases, arith,
}
use relaymesh.Prelude.Text.{Text, same, same_iff}
use relaymesh.Prelude.Table.{Table, lookup, insert, remove}
use relaymesh.Storage.Memory.{select, delete_where, only}

-- An element of a list.
abbrev pub Has : {V : Type 0} → V → List V → Type 0
Has v [] = ⊥
Has v (x ∷ xs) = (x ≡ v) ⊎ Has v xs

-- Whether a map has a key.
abbrev pub has : {V : Type 0} → Text → Table V → Bool
has k [] = false
has k ((j, v) ∷ m) = let rest = has k m in if same j k then true else rest

module _ {V : Type 0} (key : V → Text) where
  -- Each record stands once, under its own key.
  abbrev pub IsKeyed : Table V → Type 0
  IsKeyed [] = Unit
  IsKeyed ((j, v) ∷ m) = (j ≡ key v) × (has j m ≡ false) × IsKeyed m

  has-insert :
      (k j : Text) (v : V) (m : Table V)
      → has j (insert k v m) ≡ (if same k j then true else has j m)
  unfolding insert
  has-insert k j v [] = refl
  has-insert k j v ((i, w) ∷ m) =
      ground (arith, same_iff k j, same_iff i k, same_iff i j, has-insert k j v m)

  pub insert-IsKeyed : (v : V) (m : Table V) → IsKeyed m → IsKeyed (insert (key v) v m)
  unfolding insert
  insert-IsKeyed v [] h = (refl, refl, tt)
  insert-IsKeyed v ((i, w) ∷ m) h = elim (Bool-cases (same i (key v))) [
    | inl y ↦ rw (y, insert) (refl, rw⁻¹ ((same_iff i (key v)).0 y) h.1, h.2)
    | inr n ↦
        rw (n, insert)
          (
            h.0,
            ground
                (arith, n, h.1, has-insert (key v) i v m, same_iff i (key v), same_iff (key v) i),
            insert-IsKeyed v m h.2,
          )
  ]

  has-delete_where :
      (test : V → Bool) (k : Text) (m : Table V)
      → has k m ≡ false
      → has k (delete_where test m) ≡ false
  unfolding delete_where
  has-delete_where test k [] h = refl
  has-delete_where test k ((j, v) ∷ m) h = ground (arith, has-delete_where test k m)

  pub delete_where-IsKeyed :
      (test : V → Bool) (m : Table V) → IsKeyed m → IsKeyed (delete_where test m)
  unfolding delete_where
  delete_where-IsKeyed test [] h = tt
  delete_where-IsKeyed test ((j, v) ∷ m) h = elim (Bool-cases (test v)) [
    | inl y ↦ rw (y, delete_where) (delete_where-IsKeyed test m h.2)
    | inr n ↦
        rw (n, delete_where) (h.0, has-delete_where test j m h.1, delete_where-IsKeyed test m h.2)
  ]

  has-remove : (k j : Text) (m : Table V) → has j m ≡ false → has j (remove k m) ≡ false
  unfolding remove
  has-remove k j [] h = refl
  has-remove k j ((i, w) ∷ m) h = ground (arith, has-remove k j m)

  pub remove-IsKeyed : (k : Text) (m : Table V) → IsKeyed m → IsKeyed (remove k m)
  unfolding remove
  remove-IsKeyed k [] h = tt
  remove-IsKeyed k ((j, v) ∷ m) h = elim (Bool-cases (same j k)) [
    | inl y ↦ rw (y, remove) (remove-IsKeyed k m h.2)
    | inr n ↦ rw (n, remove) (h.0, has-remove k j m h.1, remove-IsKeyed k m h.2)
  ]

  lookup-has : (k : Text) (m : Table V) → has k m ≡ false → lookup k m ≡ none
  unfolding lookup
  lookup-has k [] h = refl
  lookup-has k ((j, v) ∷ m) h = ground (arith, lookup-has k m)

  only-none : (test : V → Bool) (o : Option V) (v : V) → o ≡ none → only test o ≡ some v → ⊥
  unfolding only
  only-none test none v e f = cc f
  only-none test (some a) v e f = cc e

  -- One entry more.
  module _ (test : V → Bool) (j : Text) (w v : V) (m : Table V) (own : j ≡ key w)
      (new_key : has j m ≡ false)
      (rest : Has v (select test m) ↔ (only test (lookup (key v) m) ≡ some v)) where
    gone : same j (key v) ≡ true → Has v (select test m) → ⊥
    gone y x =
        only-none test (lookup (key v) m) v
          (lookup-has (key v) m (rw⁻¹ ((same_iff j (key v)).0 y) new_key)) (rest.0 x)

    entry_iff :
        Has v (select test ((j, w) ∷ m)) ↔ (only test (lookup (key v) ((j, w) ∷ m)) ≡ some v)
    unfolding select lookup only
    entry_iff = elim (Bool-cases (same j (key v))) [
      | inl y ↦ elim (Bool-cases (test w)) [
        | inl t ↦ rw (y, t, select, only) (here_or (gone y), λ e. inl (cc e))
        | inr f ↦ rw (y, f, select, only) (λ x. absurd (gone y x), λ e. absurd (cc e))
      ]
      | inr n ↦ elim (Bool-cases (test w)) [
        | inl t ↦ rw (n, t, select) (there n, λ e. inr (rest.1 e))
        | inr f ↦ rw (n, f, select) rest
      ]
    ]
      where
        here_or : (Has v (select test m) → ⊥) → (w ≡ v) ⊎ Has v (select test m) → some w ≡ some v
        here_or no_more (inl e) = ap some e
        here_or no_more (inr x) = absurd (no_more x)

        there :
            same j (key v) ≡ false
            → (w ≡ v) ⊎ Has v (select test m)
            → only test (lookup (key v) m) ≡ some v
        there n (inl e) = absurd (ground (arith, n, same_iff j (key v), own ∙ ap key e))
        there n (inr x) = rest.0 x

  -- The values that pass a test are those that the map has under their keys and that pass it.
  pub Has-select :
      (test : V → Bool) (m : Table V) (v : V)
      → IsKeyed m
      → Has v (select test m) ↔ (only test (lookup (key v) m) ≡ some v)
  unfolding select lookup only
  Has-select test [] v h = (λ x. absurd x, λ x. absurd (cc x))
  Has-select test ((j, w) ∷ m) v h = entry_iff test j w v m h.0 h.1 (Has-select test m v h.2)
