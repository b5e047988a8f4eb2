-- ===== src/Prelude/Outcome.antt =====
-- Go's `error`, and a function's result beside an error.
use mathlib.Core.Path.{◌≡◌, refl}
use mathlib.Core.List.{List}
use relaymesh.Prelude.Text.{Text}

-- The messages of an error, in the order in which errors.Join gives them; `nil` has none, and
-- errors.Join of two errors is `++`.
abbrev pub Errors : Type 0
Errors = List Text

-- `(value, nil)` or `(zero value, err)`
pub data Outcome {ℓ} (A : Type ℓ) : Type ℓ where
  ok : A → Outcome A
  fail : Errors → Outcome A

infixl 5 ◌>>=◌
abbrev pub ◌>>=◌ {ℓ κ} : {A : Type ℓ} {B : Type κ} → Outcome A → (A → Outcome B) → Outcome B
fail messages >>= next = fail messages
ok value >>= next = next value

-- A chain that returns a value returned one at each step.
pub >>=-eq-ok {ℓ κ} :
    {A : Type ℓ} {B : Type κ} (first : Outcome A) (next : A → Outcome B) {last : B}
    → (first >>= next) ≡ ok last
    → (value : A) × (first ≡ ok value) × (next value ≡ ok last)
>>=-eq-ok (fail messages) next returned = cc
>>=-eq-ok (ok value) next returned = (value, refl, returned)
