-- ===== src/Core/Resolve/Params.antt =====
-- resolveRuleParams of pkg/core/rules_resolve.go: the parameters of an expression.
use relaymesh.Prelude.{
  ◌≡◌, refl, sym, ◌∙◌, ◌↔◌, Bool, true, false, ◌||◌, Option, none, some, List, [], ◌∷◌, ◌++◌,
  append-nil, append_assoc, arith, if◌then◌else◌, is_empty, is_empty-append, and-eq-true, All,
}
use relaymesh.Prelude.Text.{Text, same, same_iff}
use relaymesh.Prelude.Table.{Table, lookup}
use relaymesh.Prelude.Outcome.{Outcome, ok, fail}
use relaymesh.Core.Value.{Value, Fields, end, get_field, set_field, get_field-set_field}
use relaymesh.Core.Event.{Event}
use relaymesh.Core.Libraries.{Libraries}
use relaymesh.Core.Resolve.{
  Binding, is_nil, data_field, resolve_json_path, bind_path, bind_data, bind_var, resolve_vars,
  resolve_rule_params,
}

-- `contains names name`
abbrev pub listed : Text → List Text → Bool
listed name [] = false
listed name (x ∷ xs) = same x name || listed name xs

module _ (lib : Libraries) (event : Event) (var_map : Table Text) where
  abbrev bound : Text → Binding
  bound = bind_var lib event var_map

  -- A variable reads the value that its own round bound; any other key reads what was there.
  get_field-resolve_vars :
      (vars : List Text) (params : Fields) (missing : List Text) (name : Text)
      → get_field name (resolve_vars lib event var_map vars params missing).0
        ≡ (if listed name vars then some (bound name).value else get_field name params)
  unfolding resolve_vars
  get_field-resolve_vars [] params missing name = refl
  get_field-resolve_vars (x ∷ vars) params missing name =
      get_field-resolve_vars vars (set_field x (bound x).value params)
        (missing ++ (bound x).missing) name
      ∙ ground (arith, get_field-set_field x name (bound x).value params, same_iff x name)

  -- What the rounds report, in order.
  abbrev reported : List Text → List Text
  reported [] = []
  reported (x ∷ xs) = (bound x).missing ++ reported xs

  missing-resolve_vars :
      (vars : List Text) (params : Fields) (missing : List Text)
      → (resolve_vars lib event var_map vars params missing).1 ≡ missing ++ reported vars
  unfolding resolve_vars
  missing-resolve_vars [] params missing = sym (append-nil missing)
  missing-resolve_vars (x ∷ vars) params missing =
      missing-resolve_vars vars (set_field x (bound x).value params) (missing ++ (bound x).missing)
      ∙ append_assoc missing (bound x).missing (reported vars)

  -- The path of a variable leads to a value that is not nil; a variable with no path is a key of
  -- the event's flattened payload.
  abbrev FoundAt : Text → Option Text → Type 0
  FoundAt name (some path) =
      (v : Value) × (resolve_json_path lib event path ≡ ok v) × (is_nil v ≡ false)
  FoundAt name none = (v : Value) × (data_field event name ≡ some v)

  abbrev pub IsFound : Text → Type 0
  IsFound name = FoundAt name (lookup name var_map)

  missing_path :
      (path : Text) (r : Outcome Value)
      → (is_empty (bind_path path r).missing ≡ true)
        ↔ ((v : Value) × (r ≡ ok v) × (is_nil v ≡ false))
  unfolding bind_path
  missing_path path (ok v) =
      ((λ h. (v, refl, ground arith)), (λ f. let e : v ≡ f.0 = cc in rw e (rw f.2)))
  missing_path path (fail e) = ((λ h. absurd (cc h)), (λ f. absurd (cc f.1)))

  missing_data :
      (name : Text) (r : Option Value)
      → (is_empty (bind_data name r).missing ≡ true) ↔ ((v : Value) × (r ≡ some v))
  unfolding bind_data
  missing_data name (some v) = ((λ h. (v, refl)), (λ f. refl))
  missing_data name none = ((λ h. absurd (cc h)), (λ f. absurd (cc f.1)))

  missing_at :
      (name : Text) (o : Option Text)
      → (is_empty (
            let b : Binding = elim o [
              | some path ↦ bind_path path (resolve_json_path lib event path)
              | none ↦ bind_data name (data_field event name)
            ] in
            b.missing)
          ≡ true)
        ↔ FoundAt name o
  missing_at name none = missing_data name (data_field event name)
  missing_at name (some path) = missing_path path (resolve_json_path lib event path)

  missing-bind_var : (name : Text) → (is_empty (bound name).missing ≡ true) ↔ IsFound name
  unfolding bind_var
  missing-bind_var name = missing_at name (lookup name var_map)

  reported_nothing : (vars : List Text) → (is_empty (reported vars) ≡ true) ↔ All IsFound vars
  reported_nothing [] = ((λ h. tt), (λ h. refl))
  reported_nothing (x ∷ vars) = (
    (λ h.
        let (now, later) =
          and-eq-true _ _ (sym (is_empty-append (bound x).missing (reported vars)) ∙ h) in
        ((missing-bind_var x).0 now, (reported_nothing vars).0 later)),
    (λ h.
        rw (is_empty-append (bound x).missing, (missing-bind_var x).1 h.0)
          ((reported_nothing vars).1 h.1)),
  )

  -- Nothing is missing exactly if every variable is found: its path leads to a value that is not
  -- nil, or, where it has no path, the flattened payload has its key.
  pub missing-resolve_rule_params :
      (vars : List Text)
      → (is_empty (resolve_rule_params lib event vars var_map).1 ≡ true) ↔ All IsFound vars
  unfolding resolve_rule_params
  missing-resolve_rule_params [] = ((λ h. tt), (λ h. refl))
  missing-resolve_rule_params (x ∷ vars) =
      rw (missing-resolve_vars (x ∷ vars) end []) (reported_nothing (x ∷ vars))

  -- With a variable at least, the parameters are a map that has every variable, with the value
  -- that its own round binds, and no other key.
  pub params-resolve_rule_params :
      (first : Text) (vars : List Text)
      → (m : Fields) × ((resolve_rule_params lib event (first ∷ vars) var_map).0 ≡ some m)
        × ((name : Text)
            → get_field name m
              ≡ (if listed name (first ∷ vars) then some (bound name).value else none))
  unfolding resolve_rule_params
  params-resolve_rule_params first vars = (
    _,
    refl,
    λ name. get_field-resolve_vars (first ∷ vars) end [] name ∙ (unfold get_field in refl),
  )
