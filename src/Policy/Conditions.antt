-- ===== src/Policy/Conditions.antt =====
-- The conditions of a policy: `conditionNode`, `evaluateConditions`, `evaluateLeaf` and the
-- comparisons of core/internal/policy/engine.go. The recursion is on fuel.
pub mod Fuel
use oiaf.Base.{
  ℕ, zero, suc, ◌+◌, Bool, true, false, not, ◌&&◌, String, ◌==◌, Option, none, some, List, [], ◌∷◌,
  codes, bytes_eq, map, exists_in, if◌then◌else◌,
}
use oiaf.Base.Action.{Result, ok, err}
use oiaf.Json.{
  Number, Json, Items, Fields, null, bool, number, string, array, object, nil, cons, end, field,
  to_list,
}
use oiaf.Policy.Values.{GoLib, sprint, decodes, contains, lower}
use oiaf.Policy.Request.{resolve_path}

pub data ConditionError : Type 0 where
  type_mismatch nested_too_deep : ConditionError
  unknown_operator : String → ConditionError

-- `conditionNode`; a slice that is nil, a pointer that is nil and an `interface{}` that is nil are
-- absent.
pub record ConditionNode : Type 0 where
  pub all : Option (List Json)
  pub any : Option (List Json)
  pub negated : Option Json
  pub path : String
  pub op : String
  pub value : Json

abbrev pub empty_node : ConditionNode
empty_node = record { all = none; any = none; negated = none; path = ""; op = ""; value = null }

abbrev map_ok : {A B : Type 0} → (A → B) → Result ConditionError A → Result ConditionError B
map_ok f (ok a) = ok (f a)
map_ok f (err e) = err e

-- How the values of the fields are decoded, `null` and other types included.
abbrev raw_messages : Json → Result ConditionError (Option (List Json))
raw_messages null = ok none
raw_messages (array r) = ok (some (to_list r))
raw_messages _ = err type_mismatch

abbrev raw_message : Json → Option Json
raw_message null = none
raw_message j = some j

abbrev text_or : String → Json → Result ConditionError String
text_or old null = ok old
text_or old (string s) = ok s
text_or old _ = err type_mismatch

abbrev any_value : GoLib → Json → Result ConditionError Json
any_value lib j = if decodes lib j then ok j else err type_mismatch

-- Keys match the tags up to the case of their letters.
unfoldable pub is_key : String → String → Bool
is_key k tag = bytes_eq (map lower (codes k)) (codes tag)

-- One key and its value.
unfoldable pub decode_field :
    GoLib → String → Json → ConditionNode → Result ConditionError ConditionNode
decode_field lib k j node =
    if is_key k "all"
    then map_ok (λ v. record node { all = v }) (raw_messages j)
    else if is_key k "any"
    then map_ok (λ v. record node { any = v }) (raw_messages j)
    else if is_key k "not"
    then ok (record node { negated = raw_message j })
    else if is_key k "path"
    then map_ok (λ v. record node { path = v }) (text_or node.path j)
    else if is_key k "op"
    then map_ok (λ v. record node { op = v }) (text_or node.op j)
    else if is_key k "value"
    then map_ok (λ v. record node { value = v }) (any_value lib j)
    else ok node

unfoldable pub decode_fields : GoLib → Fields → ConditionNode → Result ConditionError ConditionNode
decode_fields lib end node = ok node
decode_fields lib (field k j r) node = elim (decode_field lib k j node) [
  | ok next ↦ decode_fields lib r next
  | err e ↦ err e
]

-- `json.Unmarshal(raw, &node)`
unfoldable pub unmarshal : GoLib → Json → Result ConditionError ConditionNode
unmarshal lib null = ok empty_node
unmarshal lib (object r) = decode_fields lib r empty_node
unmarshal lib _ = err type_mismatch

unfoldable pub compare_eq : GoLib → Json → Json → Bool
compare_eq lib actual expected = bytes_eq (codes (sprint lib actual)) (codes (sprint lib expected))

unfoldable pub compare_in : GoLib → Json → Json → Bool
unfolding compare_eq
compare_in lib actual (array r) = exists_in (λ item. compare_eq lib item actual) (to_list r)
compare_in lib actual _ = false

unfoldable pub compare_contains : GoLib → Json → Json → Bool
unfolding compare_eq
compare_contains lib (array r) expected =
    exists_in (λ item. compare_eq lib item expected) (to_list r)
compare_contains lib (string s) expected = contains (codes s) (codes (sprint lib expected))
compare_contains lib _ expected = false

-- `compareNumeric` and `toFloat64`: a decoded value is a number only as a float64.
unfoldable pub compare_numeric : Json → Json → (Number → Number → Bool) → Bool
compare_numeric (number a) (number b) cmp = cmp a b
compare_numeric _ _ cmp = false

abbrev matched_or_false : Option Bool → Bool
matched_or_false none = false
matched_or_false (some b) = b

unfoldable pub compare_regex : GoLib → Json → Json → Bool
compare_regex lib actual (string pattern) = matched_or_false (lib.match pattern (sprint lib actual))
compare_regex lib actual _ = false

abbrev is_some : Option Json → Bool
is_some none = false
is_some (some j) = true

-- The second `switch op`, on a value that exists.
unfoldable pub apply_operator : GoLib → String → Json → Json → Result ConditionError Bool
apply_operator lib op actual value =
    if op == "eq"
    then ok (compare_eq lib actual value)
    else if op == "neq"
    then ok (not (compare_eq lib actual value))
    else if op == "in"
    then ok (compare_in lib actual value)
    else if op == "not_in"
    then ok (not (compare_in lib actual value))
    else if op == "contains"
    then ok (compare_contains lib actual value)
    else if op == "not_contains"
    then ok (not (compare_contains lib actual value))
    else if op == "gt"
    then ok (compare_numeric actual value (λ a b. lib.less b a))
    else if op == "gte"
    then ok (compare_numeric actual value (λ a b. not (lib.less a b)))
    else if op == "lt"
    then ok (compare_numeric actual value (λ a b. lib.less a b))
    else if op == "lte"
    then ok (compare_numeric actual value (λ a b. not (lib.less b a)))
    else if op == "regex"
    then ok (compare_regex lib actual value)
    else err (unknown_operator op)

abbrev apply_existing : GoLib → String → Option Json → Json → Result ConditionError Bool
apply_existing lib op none value = ok false
apply_existing lib op (some actual) value = apply_operator lib op actual value

unfoldable pub evaluate_leaf : GoLib → String → String → Json → Json → Result ConditionError Bool
evaluate_leaf lib path op value m =
    let actual = resolve_path m path in
    if op == "exists"
    then ok (is_some actual)
    else if op == "not_exists"
    then ok (not (is_some actual))
    else apply_existing lib op actual value

-- The loops over the sub-conditions stop at an error and at the first one that decides.
unfoldable pub all_of : (Json → Result ConditionError Bool) → List Json → Result ConditionError Bool
all_of eval [] = ok true
all_of eval (sub ∷ r) = elim (eval sub) [
  | err e ↦ err e
  | ok false ↦ ok false
  | ok true ↦ all_of eval r
]

unfoldable pub any_of : (Json → Result ConditionError Bool) → List Json → Result ConditionError Bool
any_of eval [] = ok false
any_of eval (sub ∷ r) = elim (eval sub) [
  | err e ↦ err e
  | ok true ↦ ok true
  | ok false ↦ any_of eval r
]

-- What a decoded node means, given how its sub-conditions are evaluated.
unfoldable pub evaluate_node :
    GoLib → (Json → Result ConditionError Bool) → ConditionNode → Json → Result ConditionError Bool
evaluate_node lib eval node m = elim node.all [
  | some subs ↦ all_of eval subs
  | none ↦ elim node.any [
    | some subs ↦ any_of eval subs
    | none ↦ elim node.negated [
      | some sub ↦ map_ok not (eval sub)
      | none ↦
          if not (node.path == "") && not (node.op == "")
          then evaluate_leaf lib node.path node.op node.value m
          else ok false
    ]
  ]
]

unfoldable pub evaluate_conditions : GoLib → ℕ → Json → Json → Result ConditionError Bool
evaluate_conditions lib zero raw m = err nested_too_deep
evaluate_conditions lib (suc fuel) raw m = elim (unmarshal lib raw) [
  | err e ↦ err e
  | ok node ↦ evaluate_node lib (λ sub. evaluate_conditions lib fuel sub m) node m
]
