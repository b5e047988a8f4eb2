-- ===== src/Core/Functions.antt =====
-- pkg/core/rules_functions.go: the functions of expressions, on the values that the parameters of a
-- rule have. regexp.QuoteMeta and regexp.MatchString are parameters. A panic is an error whose text
-- says so.
pub mod Members
use Prim.Native.Nat.{◌^◌}
use relaymesh.Prelude.{
  ℕ, zero, suc, ◌+◌, Bool, true, false, not, ◌&&◌, ◌||◌, Option, none, some, List, [], ◌∷◌, ◌++◌,
  length, ◌==◌, if◌then◌else◌,
}
use relaymesh.Prelude.Text.{Text, text, same, has_prefix}
use relaymesh.Prelude.Outcome.{Errors, Outcome, ok, fail, ◌>>=◌}
use relaymesh.Core.Value.{
  Value, Items, Fields, null, bool, num, str, arr, obj, nil, cons, end, field, get_field,
}
use relaymesh.Core.Resolve.{is_nil}

unfoldable pub same_bool : Bool → Bool → Bool
same_bool true b = b
same_bool false b = not b

-- `==` on the bits of two float64, none of them NaN, which JSON has not: the two zeros are equal.
unfoldable pub same_number : ℕ → ℕ → Bool
same_number a b = a == b || ((a == 0 || a == 2 ^ 63) && (b == 0 || b == 2 ^ 63))

unfoldable pub count_fields : Fields → ℕ
count_fields end = 0
count_fields (field name value rest) = count_fields rest + 1

-- reflect.DeepEqual
unfoldable mutual
  unfolding same_bool same_number count_fields get_field

  pub deep_equal : Value → Value → Bool
  deep_equal null null = true
  deep_equal (bool a) (bool b) = same_bool a b
  deep_equal (num a) (num b) = same_number a b
  deep_equal (str a) (str b) = same a b
  deep_equal (arr a) (arr b) = equal_items a b
  deep_equal (obj a) (obj b) = count_fields a == count_fields b && fields_within a b
  deep_equal _ _ = false

  pub equal_items : Items → Items → Bool
  equal_items nil nil = true
  equal_items (cons a as_) (cons b bs) = deep_equal a b && equal_items as_ bs
  equal_items _ _ = false

  pub fields_within : Fields → Fields → Bool
  fields_within end b = true
  fields_within (field name value rest) b =
      elim (get_field name b) [ none ↦ false | some other ↦ deep_equal value other ]
      && fields_within rest b

-- strings.Contains
unfoldable pub has_text : Text → Text → Bool
has_text [] needle = has_prefix [] needle
has_text (c ∷ cs) needle = has_prefix (c ∷ cs) needle || has_text cs needle

-- sliceContains
unfoldable pub slice_contains : List Value → Value → Bool
slice_contains [] needle = false
slice_contains (item ∷ items) needle = deep_equal item needle || slice_contains items needle

unfoldable pub items_of : Items → List Value
items_of nil = []
items_of (cons v vs) = v ∷ items_of vs

-- One argument that is a list of two or more stands for its elements.
unfoldable pub unpacked : List Value → List Value
unfolding items_of
unpacked (arr (cons a (cons b rest)) ∷ []) = a ∷ b ∷ items_of rest
unpacked args = args

-- `args[:len(args)-1]` and `args[len(args)-1]`, with `last` the last argument so far.
unfoldable pub split_last : Value → List Value → List Value × Value
split_last last [] = ([], last)
split_last last (v ∷ vs) = let (before, end_) = split_last v vs in (last ∷ before, end_)

-- reflectContains on the values that are left: a map is asked for a key, and reflect panics if the
-- key is no string.
unfoldable pub reflect_contains : Value → Value → Outcome Bool
reflect_contains (obj m) (str key) = ok (elim (get_field key m) [ some v ↦ true | none ↦ false ])
reflect_contains (obj m) needle =
    fail (text "panic: reflect.Value.MapIndex: value is not assignable to type string" ∷ [])
reflect_contains hay needle = ok false

-- containsFunc on two arguments, neither of them nil
unfoldable pub contains_pair : Value → Value → Outcome Bool
unfolding items_of
contains_pair (str hay) (str needle) = ok (has_text hay needle)
contains_pair (str hay) needle = ok false
contains_pair (arr items) needle = ok (slice_contains (items_of items) needle)
contains_pair hay needle = reflect_contains hay needle

-- containsFunc behind the unpacking
unfoldable pub contains_args : List Value → Outcome Bool
contains_args [] = fail (text "contains expects 2 args, got 0" ∷ [])
contains_args (a ∷ []) = fail (text "contains expects 2 args, got 1" ∷ [])
contains_args (a ∷ b ∷ []) = if is_nil a || is_nil b then ok false else contains_pair a b
contains_args (a ∷ b ∷ c ∷ rest) =
    let (haystack, needle) = split_last a (b ∷ c ∷ rest) in ok (slice_contains haystack needle)

-- containsFunc
unfoldable pub contains_func : List Value → Outcome Bool
unfolding contains_args unpacked
contains_func args = contains_args (unpacked args)

-- strings.ReplaceAll of one byte
unfoldable pub replace_byte : ℕ → Text → Text → Text
replace_byte old new [] = []
replace_byte old new (c ∷ cs) =
    let rest = replace_byte old new cs in if c == old then new ++ rest else c ∷ rest

module _ (quote_meta : Text → Text) (match_string : Text → Text → Outcome Bool) where
  -- likePatternToRegex
  unfoldable pub like_pattern_to_regex : Text → Text
  like_pattern_to_regex pattern_ =
      text "^"
      ++ (replace_byte b'_' (text ".") (replace_byte b'%' (text ".*") (quote_meta pattern_))
          ++ text "$")

  -- likeFunc
  unfoldable pub like_func : List Value → Outcome Bool
  like_func (str left ∷ str pattern_ ∷ []) = match_string (like_pattern_to_regex pattern_) left
  like_func (a ∷ b ∷ []) = ok false
  like_func args = fail (text "like expects 2 args" ∷ [])
