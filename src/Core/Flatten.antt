-- ===== src/Core/Flatten.antt =====
-- pkg/core/flatten.go: a payload as a map of one level. A map of the payload is the list of its
-- fields in the order in which Go ranges over them.
pub mod Paths
pub mod Entries
use relaymesh.Prelude.{ℕ, suc, List, [], ◌∷◌, ◌++◌}
use relaymesh.Prelude.Text.{Text, text}
use relaymesh.Core.Value.{
  Value, Items, Fields, null, bool, num, str, arr, obj, nil, cons, end, field, set_field,
}

-- fmt.Sprintf("%s.%s", path, key)
abbrev pub dotted : Text → Text → Text
dotted path key = path ++ (text "." ++ key)

-- `decimal` is the verb `%d` of package fmt.
module _ (decimal : ℕ → Text) where
  -- fmt.Sprintf("%s[%d]", path, i)
  abbrev pub indexed : Text → ℕ → Text
  indexed path i = path ++ (text "[" ++ (decimal i ++ text "]"))

  unfoldable mutual
    -- flattenInto, and its two loops
    pub flatten_into : Text → Value → Fields → Fields
    flatten_into path (obj m) out = flatten_fields path m out
    flatten_into path (arr items) out =
        flatten_items path 0 items
          (set_field (path ++ text "[]") (arr items) (set_field path (arr items) out))
    flatten_into path v out = set_field path v out

    pub flatten_fields : Text → Fields → Fields → Fields
    flatten_fields path end out = out
    flatten_fields path (field key child rest) out =
        flatten_fields path rest (flatten_into (dotted path key) child out)

    pub flatten_items : Text → ℕ → Items → Fields → Fields
    flatten_items path i nil out = out
    flatten_items path i (cons child rest) out =
        flatten_items path (suc i) rest (flatten_into (indexed path i) child out)

  -- The loop of Flatten.
  unfoldable pub flatten_top : Fields → Fields → Fields
  flatten_top end out = out
  flatten_top (field key value rest) out = flatten_top rest (flatten_into key value out)

  -- Flatten
  unfoldable pub flatten : Fields → Fields
  flatten data_ = flatten_top data_ end
