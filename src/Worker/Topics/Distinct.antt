-- ===== src/Worker/Topics/Distinct.antt =====
-- unique of sdk/go/worker/worker.go.
use relaymesh.Prelude.{◌≡◌, refl, ◌∙◌, false, not, ◌&&◌, List, [], ◌∷◌, Bool-cases, inl, inr, arith}
use relaymesh.Prelude.Text.{Text, same_iff}
use relaymesh.Worker.Topics.{contains, unique_loop, unique}

-- No text stands twice.
abbrev pub IsDistinct : List Text → Type 0
IsDistinct [] = Unit
IsDistinct (v ∷ vs) = (contains v vs ≡ false) × IsDistinct vs

contains-unique_loop :
    (v : Text) (seen vs : List Text)
    → contains v (unique_loop seen vs) ≡ (contains v vs && not (contains v seen))
unfolding contains unique_loop
contains-unique_loop v seen [] = refl
contains-unique_loop v seen (x ∷ xs) =
    ground
      (arith, same_iff x v, contains-unique_loop v seen xs, contains-unique_loop v (x ∷ seen) xs)

unique_loop-IsDistinct : (seen vs : List Text) → IsDistinct (unique_loop seen vs)
unfolding unique_loop contains
unique_loop-IsDistinct seen [] = tt
unique_loop-IsDistinct seen (x ∷ xs) = elim (Bool-cases (contains x seen)) [
  | inl y ↦ rw y (unique_loop-IsDistinct seen xs)
  | inr n ↦ rw n (
    ground (arith, same_iff x x, contains-unique_loop x (x ∷ seen) xs),
    unique_loop-IsDistinct (x ∷ seen) xs,
  )
]

-- The topics that a worker subscribes to are distinct, and they are those it was given.
pub unique-IsDistinct :
    (values : List Text)
    → IsDistinct (unique values) × ((v : Text) → contains v (unique values) ≡ contains v values)
unfolding unique contains
unique-IsDistinct values = (
  unique_loop-IsDistinct [] values,
  λ v. contains-unique_loop v [] values ∙ ground (arith, contains),
)
