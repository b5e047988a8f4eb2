-- ===== src/Core/Value.antt =====
-- The values of Go's `interface{}` that json.Unmarshal and jsonpath.Get give: nil, bool, float64,
-- string, []interface{} and map[string]interface{}. A float64 is its 64 bits, which the program
-- never looks into.
use relaymesh.Prelude.{ℕ, Bool, Option, none, some, ◌≡◌, refl, arith, if◌then◌else◌}
use relaymesh.Prelude.Text.{Text, same, same_iff}

mutual
  pub data Value : Type 0 where
    null : Value
    bool : Bool → Value
    num : ℕ → Value
    str : Text → Value
    arr : Items → Value
    obj : Fields → Value

  pub data Items : Type 0 where
    nil : Items
    cons : Value → Items → Items

  pub data Fields : Type 0 where
    end : Fields
    field : Text → Value → Fields → Fields

-- `m[key]`, as a value and whether it is there.
unfoldable pub get_field : Text → Fields → Option Value
get_field key end = none
get_field key (field name value rest) = if same name key then some value else get_field key rest

-- `m[key] = value`
unfoldable pub set_field : Text → Value → Fields → Fields
set_field key value end = field key value end
set_field key value (field name old rest) =
    if same name key then field key value rest else field name old (set_field key value rest)

pub get_field-set_field :
    (key k : Text) (value : Value) (m : Fields)
    → get_field k (set_field key value m) ≡ (if same key k then some value else get_field k m)
unfolding get_field set_field
get_field-set_field key k value end = refl
get_field-set_field key k value (field name old rest) = ground (
  arith,
  same_iff key k,
  same_iff name key,
  same_iff name k,
  get_field-set_field key k value rest,
)
