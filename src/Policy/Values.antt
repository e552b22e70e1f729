-- ===== src/Policy/Values.antt =====
-- What core/internal/policy/engine.go uses of Go's library: `fmt.Sprintf("%v", …)` on a decoded
-- JSON value, `strings.Split`, `strings.Contains`, `strings.ToLower`. The text of a float64, whether
-- a literal is in its range, its order, and regular expressions are parameters.
use Prim.Native.String
use oiaf.Base.{
  ℕ, ◌+◌, Bool, true, false, ◌&&◌, String, Option, List, [], ◌∷◌, codes, bytes_eq, eqb, leb, ltb,
  map, if◌then◌else◌,
}
use oiaf.Json.{
  Number, Json, Items, Fields, null, bool, number, string, array, object, nil, cons, end, field,
}

-- `show` is the text of a literal's float64 by `%v`, `less` its order. `in_range` tells whether the
-- literal has a finite float64, without which it is not decoded. `match` compiles a pattern and
-- looks for it in a text; a pattern that does not compile gives nothing.
pub record GoLib : Type 0 where
  pub show : Number → String
  pub less : Number → Number → Bool
  pub in_range : Number → Bool
  pub match : String → String → Option Bool

-- `a < b` on strings
unfoldable pub is_before : List ℕ → List ℕ → Bool
is_before [] [] = false
is_before [] (b ∷ ys) = true
is_before (a ∷ xs) [] = false
is_before (a ∷ xs) (b ∷ ys) =
    let rest = is_before xs ys in if ltb a b then true else if eqb a b then rest else false

-- A later key of an object replaces an earlier one, and `%v` prints the keys in order.
unfoldable pub insert_key : String → String → List (String × String) → List (String × String)
insert_key k v [] = (k, v) ∷ []
insert_key k v ((l, w) ∷ r) =
    let rest = insert_key k v r in
    if bytes_eq (codes k) (codes l)
    then (l, w) ∷ r
    else if is_before (codes k) (codes l)
    then (k, v) ∷ ((l, w) ∷ r)
    else (l, w) ∷ rest

unfoldable pub spaced : List String → String
spaced [] = ""
spaced (s ∷ []) = s
spaced (s ∷ (t ∷ r)) = String.◌++◌ s (String.◌++◌ " " (spaced (t ∷ r)))

abbrev pair_text : String × String → String
pair_text (k, v) = String.◌++◌ k (String.◌++◌ ":" v)

abbrev bool_text : Bool → String
bool_text true = "true"
bool_text false = "false"

-- `fmt.Sprintf("%v", v)`
unfoldable mutual
  pub sprint : GoLib → Json → String
  sprint lib null = "<nil>"
  sprint lib (bool b) = bool_text b
  sprint lib (number n) = lib.show n
  sprint lib (string s) = s
  sprint lib (array r) = String.◌++◌ "[" (String.◌++◌ (spaced (sprint_items lib r)) "]")
  sprint lib (object r) =
      String.◌++◌ "map[" (String.◌++◌ (spaced (map pair_text (sprint_fields lib r))) "]")

  pub sprint_items : GoLib → Items → List String
  sprint_items lib nil = []
  sprint_items lib (cons j r) = sprint lib j ∷ sprint_items lib r

  pub sprint_fields : GoLib → Fields → List (String × String)
  sprint_fields lib end = []
  sprint_fields lib (field k j r) = insert_key k (sprint lib j) (sprint_fields lib r)

-- Is every number of a text decoded?
unfoldable mutual
  pub decodes : GoLib → Json → Bool
  decodes lib null = true
  decodes lib (bool b) = true
  decodes lib (number n) = lib.in_range n
  decodes lib (string s) = true
  decodes lib (array r) = decodes_items lib r
  decodes lib (object r) = decodes_fields lib r

  pub decodes_items : GoLib → Items → Bool
  decodes_items lib nil = true
  decodes_items lib (cons j r) = decodes lib j && decodes_items lib r

  pub decodes_fields : GoLib → Fields → Bool
  decodes_fields lib end = true
  decodes_fields lib (field k j r) = decodes lib j && decodes_fields lib r

-- `strings.Split` at one character: the part before the first one, and the other parts.
unfoldable pub split_parts : ℕ → List ℕ → List ℕ × List (List ℕ)
split_parts sep [] = ([], [])
split_parts sep (a ∷ r) =
    let (part, rest) = split_parts sep r in
    if eqb a sep then ([], part ∷ rest) else (a ∷ part, rest)

unfoldable pub split : ℕ → List ℕ → List (List ℕ)
split sep xs = (split_parts sep xs).0 ∷ (split_parts sep xs).1

unfoldable pub is_prefix : List ℕ → List ℕ → Bool
is_prefix [] ys = true
is_prefix (a ∷ xs) [] = false
is_prefix (a ∷ xs) (b ∷ ys) = let rest = is_prefix xs ys in if eqb a b then rest else false

-- `strings.Contains(text, part)`
unfoldable pub contains : List ℕ → List ℕ → Bool
contains [] part = is_prefix part []
contains (a ∷ r) part = let rest = contains r part in if is_prefix part (a ∷ r) then true else rest

-- `strings.ToLower`, on the characters whose lower case is a Latin letter without a mark: the
-- capitals, U+0130 and U+212A. The program compares the outcome with words of such letters only.
unfoldable pub lower : ℕ → ℕ
lower a =
    if leb b'A' a && leb a b'Z'
    then a + 32
    else if eqb a 304
    then b'i'
    else if eqb a 8490
    then b'k'
    else a
