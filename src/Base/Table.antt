-- ===== src/Base/Table.antt =====
-- A Go `map[string]V`. The program reads a map by key, or ranges over it in an order that Go leaves
-- open; here it ranges in the order of the entries, and since the theorems are about every table,
-- they are about every order.

use Prim.Native.String.{String}
use mathlib.Core.Path.{◌≡◌, refl}
use mathlib.Core.Option.{Option, none, some}
use mathlib.Core.List.{List, [], ◌∷◌}
use native.Mathlib.Omega.{arith}
use text.Mathlib.Text.{◌==◌}
use text.Mathlib.TextEquality.{eq_iff}
use mathlib.Core.Logic.{inl, inr}
use oiaf.Base.Tests.{if◌then◌else◌, str_eq_self, str_eq→eq, Bool-cases}
use oiaf.Base.Lists.{In}

abbrev pub Table : Type 0 → Type 0
Table V = List (String × V)

module _ {V : Type 0} where
  -- `v, ok := m[k]`
  unfoldable pub get : Table V → String → Option V
  get [] k = none
  get ((j, v) ∷ t) k = if j == k then some v else get t k

  -- `delete(m, k)`
  unfoldable pub remove : Table V → String → Table V
  remove [] k = []
  remove ((j, v) ∷ t) k = let rest = remove t k in if j == k then rest else (j, v) ∷ rest

  -- `m[k] = v`
  unfoldable pub put : Table V → String → V → Table V
  put [] k v = (k, v) ∷ []
  put ((j, w) ∷ t) k v = if j == k then (k, v) ∷ t else (j, w) ∷ put t k v

  -- `for _, v := range m`
  unfoldable pub values : Table V → List V
  values [] = []
  values ((j, v) ∷ t) = v ∷ values t

  pub get-empty : (k : String) → get [] k ≡ none
  unfolding get
  get-empty k = refl

  pub get-put :
      (t : Table V) (k j : String) (v : V)
      → get (put t k v) j ≡ (if k == j then some v else get t j)
  unfolding get put
  get-put [] k j v = refl
  get-put ((i, w) ∷ t) k j v = ground (arith, get-put t k j v, eq_iff k j, eq_iff i k, eq_iff i j)

  pub get-put_self : (t : Table V) (k : String) (v : V) → get (put t k v) k ≡ some v
  get-put_self t k v = simp (get-put, str_eq_self)

  pub put-put : (t : Table V) (k : String) (v w : V) → put (put t k v) k w ≡ put t k w
  unfolding put
  put-put [] k v w = ground (arith, eq_iff k k)
  put-put ((j, x) ∷ t) k v w = ground (arith, put-put t k v w, eq_iff j k, eq_iff k k)

  pub get-remove :
      (t : Table V) (k j : String) → get (remove t k) j ≡ (if k == j then none else get t j)
  unfolding get remove
  get-remove [] k j = ground arith
  get-remove ((i, w) ∷ t) k j = ground (arith, get-remove t k j, eq_iff k j, eq_iff i k, eq_iff i j)

  pub In-values : (t : Table V) (k : String) (v : V) → get t k ≡ some v → In v (values t)
  unfolding get values
  In-values [] k v h = cc
  In-values ((j, w) ∷ t) k v h = ground (arith, In-values t k v)

  -- No key stands twice.
  abbrev pub Distinct : Table V → Type 0
  Distinct [] = Unit
  Distinct ((j, v) ∷ t) = (get t j ≡ none) × Distinct t

  pub put-Distinct : (t : Table V) (k : String) (v : V) → Distinct t → Distinct (put t k v)
  unfolding get put
  put-Distinct [] k v d = (refl, tt)
  put-Distinct ((j, w) ∷ t) k v (n, d) = elim (Bool-cases (j == k)) [
    | inl p ↦ rw p (rw (← str_eq→eq j k p) n, d)
    | inr p ↦ rw p (ground (arith, get-put t k j v, eq_iff k j, eq_iff j k), put-Distinct t k v d)
  ]

  pub values-get :
      (t : Table V) (v : V) → Distinct t → In v (values t) → (k : String) × (get t k ≡ some v)
  unfolding get values
  values-get [] v d i = absurd i
  values-get ((j, w) ∷ t) v (n, d) (inl e) = (j, rw (str_eq_self j, e) refl)
  values-get ((j, w) ∷ t) v (n, d) (inr i) =
      let (k, h) = values-get t v d i in
      (k, elim (Bool-cases (j == k)) [ inl p ↦ cc (str_eq→eq j k p, n, h) | inr p ↦ rw p h ])

pub ruleset table_laws = (get-put, get-remove)
