-- ===== src/Policy/Conditions/Fuel.antt =====
-- The fuel of `evaluate_conditions`: the size of the condition is enough.
use mathlib.Core.Path.{subst}
use oiaf.Base.{
  ◌≤◌, suc, zero, ◌≢◌, refl, Bool, Option-cases, inl, inr, ℕ, ◌<◌, String, ◌≡◌, Option, none, some,
  List, [], ◌∷◌, arith, Bool-cases,
}
use oiaf.Base.Action.{Result, err, Result-cases, ok}
use oiaf.Json.{
  Json, Items, Fields, null, bool, number, string, array, object, nil, cons, end, field, to_list,
  size, size_items, size_fields,
}
use oiaf.Policy.Values.{decodes, GoLib}
use oiaf.Policy.Request.{resolve_path}
use oiaf.Policy.Conditions.{
  ConditionError, nested_too_deep, empty_node, unmarshal, evaluate_leaf, apply_operator, all_of,
  any_of, evaluate_node, evaluate_conditions, ConditionNode, decode_field, decode_fields,
}

-- Every text of a list is below a size.
abbrev Below : ℕ → List Json → Type 0
Below n [] = Unit
Below n (j ∷ r) = (size j < n) × Below n r

abbrev BelowList : ℕ → Option (List Json) → Type 0
BelowList n none = Unit
BelowList n (some js) = Below n js

abbrev BelowOne : ℕ → Option Json → Type 0
BelowOne n none = Unit
BelowOne n (some j) = size j < n

-- Every part of a node is below a size.
record Fits (n : ℕ) (node : ConditionNode) : Type 0 where
  all : BelowList n node.all
  any : BelowList n node.any
  negated : BelowOne n node.negated

Below-to_list : (n : ℕ) (r : Items) → size_items r < n → Below n (to_list r)
unfolding size
Below-to_list n nil h = tt
Below-to_list n (cons j r) h = (omega arith, Below-to_list n r (omega arith))

decode_field-Fits :
    (lib : GoLib) (n : ℕ) (k : String) (j : Json) (node next : ConditionNode)
    → size j < n
    → Fits n node
    → decode_field lib k j node ≡ ok next
    → Fits n next
unfolding decode_field size
decode_field-Fits lib n k null node next h f e = record {
  all = ground arith;
  any = ground arith;
  negated = ground arith;
}
decode_field-Fits lib n k (bool b) node next h f e = record {
  all = ground arith;
  any = ground arith;
  negated = ground arith;
}
decode_field-Fits lib n k (number b) node next h f e = record {
  all = ground arith;
  any = ground arith;
  negated = ground arith;
}
decode_field-Fits lib n k (string b) node next h f e = record {
  all = ground arith;
  any = ground arith;
  negated = ground arith;
}
decode_field-Fits lib n k (array r) node next h f e =
    let below = Below-to_list n r (omega arith) in
    elim (Bool-cases (decodes lib (array r))) [
      | inl p ↦
          let e' = rw p at e in
          record { all = ground arith; any = ground arith; negated = ground arith }
      | inr p ↦
          let e' = rw p at e in
          record { all = ground arith; any = ground arith; negated = ground arith }
    ]
decode_field-Fits lib n k (object r) node next h f e = record {
  all = ground arith;
  any = ground arith;
  negated = ground arith;
}

decode_fields-Fits :
    (lib : GoLib) (n : ℕ) (r : Fields) (node next : ConditionNode)
    → size_fields r < n
    → Fits n node
    → decode_fields lib r node ≡ ok next
    → Fits n next
unfolding decode_fields size
decode_fields-Fits lib n end node next h f e = subst (Fits n) (ground arith) f
decode_fields-Fits lib n (field k j r) node next h f e =
    elim (Result-cases (decode_field lib k j node)) [
      | inl (mid, p) ↦
          decode_fields-Fits lib n r mid next (omega arith)
            (decode_field-Fits lib n k j node mid (omega arith) f p) (rw (decode_fields, p) at e)
      | inr (x, p) ↦ cc (rw (decode_fields, p) at e)
    ]

unmarshal-Fits :
    (lib : GoLib) (n : ℕ) (j : Json) (node : ConditionNode)
    → size j ≤ n
    → unmarshal lib j ≡ ok node
    → Fits n node
unfolding unmarshal size
unmarshal-Fits lib n null node h e =
    subst (Fits n) {x = empty_node} (cc e) (record { all = tt; any = tt; negated = tt })
unmarshal-Fits lib n (bool b) node h e = cc e
unmarshal-Fits lib n (number b) node h e = cc e
unmarshal-Fits lib n (string b) node h e = cc e
unmarshal-Fits lib n (array r) node h e = cc e
unmarshal-Fits lib n (object r) node h e =
    decode_fields-Fits lib n r empty_node node (omega arith)
      (record { all = tt; any = tt; negated = tt }) e

decode_field-deep :
    (lib : GoLib) (k : String) (j : Json) (node : ConditionNode)
    → decode_field lib k j node ≢ err nested_too_deep
unfolding decode_field
decode_field-deep lib k null node e = ground arith
decode_field-deep lib k (bool b) node e = ground arith
decode_field-deep lib k (number b) node e = ground arith
decode_field-deep lib k (string b) node e = ground arith
decode_field-deep lib k (array r) node e = elim (Bool-cases (decodes lib (array r))) [
  | inl p ↦ let e' = rw p at e in ground arith
  | inr p ↦ let e' = rw p at e in ground arith
]
decode_field-deep lib k (object r) node e = elim (Bool-cases (decodes lib (object r))) [
  | inl p ↦ let e' = rw p at e in ground arith
  | inr p ↦ let e' = rw p at e in ground arith
]

decode_fields-deep :
    (lib : GoLib) (r : Fields) (node : ConditionNode)
    → decode_fields lib r node ≢ err nested_too_deep
unfolding decode_fields
decode_fields-deep lib end node e = cc e
decode_fields-deep lib (field k j r) node e = elim (Result-cases (decode_field lib k j node)) [
  | inl (mid, p) ↦ decode_fields-deep lib r mid (rw (decode_fields, p) at e)
  | inr (x, p) ↦ decode_field-deep lib k j node (cc (rw (decode_fields, p) at e, p))
]

unmarshal-deep : (lib : GoLib) (j : Json) → unmarshal lib j ≢ err nested_too_deep
unfolding unmarshal
unmarshal-deep lib null e = cc e
unmarshal-deep lib (bool b) e = cc e
unmarshal-deep lib (number b) e = cc e
unmarshal-deep lib (string b) e = cc e
unmarshal-deep lib (array r) e = cc e
unmarshal-deep lib (object r) e = decode_fields-deep lib r empty_node e

-- Two evaluations that agree and did not run out of fuel.
abbrev pub Settled : Result ConditionError Bool → Result ConditionError Bool → Type 0
Settled r r' = (r ≡ r') × (r ≢ err nested_too_deep)

apply_operator-deep :
    (lib : GoLib) (op : String) (a v : Json) → apply_operator lib op a v ≢ err nested_too_deep
unfolding apply_operator
apply_operator-deep lib op a v h = ground arith

evaluate_leaf-deep :
    (lib : GoLib) (path op : String) (v m : Json)
    → evaluate_leaf lib path op v m ≢ err nested_too_deep
unfolding evaluate_leaf
evaluate_leaf-deep lib path op v m h = elim (Option-cases (resolve_path m path)) [
  | inl p ↦ ground arith
  | inr (a, p) ↦ ground (arith, apply_operator-deep lib op a v)
]

settled : (r : Result ConditionError Bool) → r ≢ err nested_too_deep → Settled r r
settled r h = (refl, h)

module _ (e e' : Json → Result ConditionError Bool) (n : ℕ)
    (agree : (j : Json) → size j < n → Settled (e j) (e' j)) where
  all_of-Settled : (js : List Json) → Below n js → Settled (all_of e js) (all_of e' js)
  unfolding all_of
  all_of-Settled [] b = (refl, λ x. cc x)
  all_of-Settled (j ∷ r) (b, c) =
      let (same, deep) = agree j b in
      let (rest, rest_deep) = all_of-Settled r c in (ground arith, λ x. ground arith)

  any_of-Settled : (js : List Json) → Below n js → Settled (any_of e js) (any_of e' js)
  unfolding any_of
  any_of-Settled [] b = (refl, λ x. cc x)
  any_of-Settled (j ∷ r) (b, c) =
      let (same, deep) = agree j b in
      let (rest, rest_deep) = any_of-Settled r c in (ground arith, λ x. ground arith)

  evaluate_node-Settled :
      (lib : GoLib) (node : ConditionNode) (m : Json)
      → Fits n node
      → Settled (evaluate_node lib e node m) (evaluate_node lib e' node m)
  unfolding evaluate_node
  evaluate_node-Settled lib node m f = elim (Option-cases node.all) [
    | inr (subs, p) ↦ rw p (all_of-Settled subs (rw p at f.all))
    | inl p ↦ elim (Option-cases node.any) [
      | inr (subs, q) ↦ rw (p, q) (any_of-Settled subs (rw q at f.any))
      | inl q ↦ elim (Option-cases node.negated) [
        | inr (sub, r) ↦
            let (same, deep) = agree sub (rw r at f.negated) in (ground arith, λ x. ground arith)
        | inl r ↦ (
          ground arith,
          λ x. ground (arith, evaluate_leaf-deep lib node.path node.op node.value m),
        )
      ]
    ]
  ]

-- With more fuel than the size of the condition, the evaluation never runs out of fuel, and what
-- it gives does not depend on the fuel.
pub evaluate_conditions-fuel :
    (lib : GoLib) (n k : ℕ) (raw m : Json)
    → size raw < n
    → size raw < k
    → (evaluate_conditions lib n raw m ≡ evaluate_conditions lib k raw m)
      × (evaluate_conditions lib n raw m ≢ err nested_too_deep)
unfolding evaluate_conditions
evaluate_conditions-fuel lib zero k raw m h l = absurd (omega arith)
evaluate_conditions-fuel lib (suc n) zero raw m h l = absurd (omega arith)
evaluate_conditions-fuel lib (suc n) (suc k) raw m h l = elim (Result-cases (unmarshal lib raw)) [
  | inr (e, p) ↦ rw (evaluate_conditions, p) (refl, λ x. unmarshal-deep lib raw (ground arith))
  | inl (node, p) ↦
      rw (evaluate_conditions, p)
        (evaluate_node-Settled (λ sub. evaluate_conditions lib n sub m)
          (λ sub. evaluate_conditions lib k sub m) (size raw)
          (λ sub b. evaluate_conditions-fuel lib n k sub m (omega arith) (omega arith)) lib node m
          (unmarshal-Fits lib (size raw) raw node (omega arith) p))
]
