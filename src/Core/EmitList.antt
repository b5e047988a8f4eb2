-- ===== src/Core/EmitList.antt =====
-- EmitList of pkg/core/rules.go: the topics that a rule emits to.
use relaymesh.Prelude.{
  ◌≡◌, refl, ap, false, List, [], ◌∷◌, if◌then◌else◌, Bool-cases, inl, inr, All,
}
use relaymesh.Prelude.Text.{Text, same, trim_space, trim_space_idem}

-- Values: each topic trimmed, and the empty ones dropped.
unfoldable pub clean : List Text → List Text
clean [] = []
clean (value ∷ values) =
    let trimmed = trim_space value in
    let rest = clean values in if same trimmed [] then rest else trimmed ∷ rest

-- A topic that is trimmed and not empty.
abbrev pub IsClean : Text → Type 0
IsClean t = (trim_space t ≡ t) × (same t [] ≡ false)

pub clean-IsClean : (values : List Text) → All IsClean (clean values)
unfolding clean
clean-IsClean [] = tt
clean-IsClean (value ∷ values) = elim (Bool-cases (same (trim_space value) [])) [
  | inl y ↦ rw y (clean-IsClean values)
  | inr n ↦ rw n ((trim_space_idem value, n), clean-IsClean values)
]

-- Clean topics come back as they are.
pub clean_fixed : (values : List Text) → All IsClean values → clean values ≡ values
unfolding clean
clean_fixed [] h = refl
clean_fixed (value ∷ values) ((trimmed, full), h) =
    rw (trimmed, full) (ap (◌∷◌ value) (clean_fixed values h))

pub clean_idem : (values : List Text) → clean (clean values) ≡ clean values
clean_idem values = clean_fixed (clean values) (clean-IsClean values)
