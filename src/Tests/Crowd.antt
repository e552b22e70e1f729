-- ===== src/Tests/Crowd.antt =====
-- A full map of logins, and a sort by the time.
use mathlib.Core.Path.{subst}
use oiaf.Base.{
  ℕ, zero, suc, ◌≤◌, ◌≡◌, ◌≢◌, refl, ap, ◌⊎◌, inl, inr, String, ◌==◌, none, List, [], ◌∷◌, In,
  length, leb, leb→le, codes, arith, Bool-cases, str_eq→eq, if◌then◌else◌,
}
use oiaf.Base.Table
use oiaf.Base.Table.{Table}
use oiaf.Types.Entities.{Time}
use oiaf.Okta.Events.{actor_login}
use oiaf.Okta.State.{State, IdentityState, Sort, identity, new_state, new_identity, seen_times}
use oiaf.Okta.State.Eviction.{Orders, AreSeen, commit-forgets}
use oiaf.Okta.Signals.{Detector}
use oiaf.Okta.Memory.{commit}
use oiaf.Tests.Adapter.{detector, denied}

abbrev Entry : Type 0
Entry = String × Time

insert : Entry → List Entry → List Entry
insert x [] = x ∷ []
insert x (y ∷ r) = let rest = insert x r in if leb x.1 y.1 then x ∷ (y ∷ r) else y ∷ rest

sort_entries : Sort
unfolding insert
sort_entries [] = []
sort_entries (x ∷ r) = insert x (sort_entries r)

insert-In : (x a : Entry) (r : List Entry) → (x ≡ a) ⊎ In a r → In a (insert x r)
unfolding insert
insert-In x a [] i = i
insert-In x a (y ∷ r) i = elim (Bool-cases (leb x.1 y.1)) [
  | inl p ↦ rw p i
  | inr p ↦ rw p (elim i [
    | inl e ↦ inr (insert-In x a r (inl e))
    | inr m ↦ elim m [ inl e ↦ inl e | inr o ↦ inr (insert-In x a r (inr o)) ]
  ])
]

In-insert : (x a : Entry) (r : List Entry) → In a (insert x r) → (x ≡ a) ⊎ In a r
unfolding insert
In-insert x a [] i = i
In-insert x a (y ∷ r) i = elim (Bool-cases (leb x.1 y.1)) [
  | inl p ↦ rw p at i
  | inr p ↦
      let q : (y ≡ a) ⊎ In a (insert x r) = rw p at i in
      elim q [
        | inl e ↦ inr (inl e)
        | inr m ↦ elim (In-insert x a r m) [ inl e ↦ inl e | inr o ↦ inr (inr o) ]
      ]
]

-- Each entry is no later than those after it.
abbrev AreAscending : List Entry → Type 0
AreAscending [] = Unit
AreAscending (x ∷ r) = ((y : Entry) → In y r → x.1 ≤ y.1) × AreAscending r

insert-AreAscending : (x : Entry) (r : List Entry) → AreAscending r → AreAscending (insert x r)
unfolding insert
insert-AreAscending x [] h = (λ y i. absurd i, tt)
insert-AreAscending x (y ∷ r) (least, h) = elim (Bool-cases (leb x.1 y.1)) [
  | inl p ↦ rw p (
    λ z i. elim i [
      | inl e ↦ rw (← e) (leb→le x.1 y.1 p)
      | inr m ↦ omega (arith, leb→le x.1 y.1 p, least z m)
    ],
    (least, h),
  )
  | inr p ↦ rw p (
    λ z i. elim (In-insert x z r i) [ inl e ↦ rw (← e) (ground arith) | inr m ↦ least z m ],
    insert-AreAscending x r h,
  )
]

sort-AreAscending : (xs : List Entry) → AreAscending (sort_entries xs)
unfolding sort_entries
sort-AreAscending [] = tt
sort-AreAscending (x ∷ r) = insert-AreAscending x (sort_entries r) (sort-AreAscending r)

sort-keeps : (xs : List Entry) (a : Entry) → In a xs → In a (sort_entries xs)
unfolding sort_entries
sort-keeps [] a i = i
sort-keeps (x ∷ r) a (inl e) = insert-In x a (sort_entries r) (inl e)
sort-keeps (x ∷ r) a (inr i) = insert-In x a (sort_entries r) (inr (sort-keeps r a i))

sort-adds_none : (xs : List Entry) (a : Entry) → In a (sort_entries xs) → In a xs
unfolding sort_entries
sort-adds_none [] a i = i
sort-adds_none (x ∷ r) a i = elim (In-insert x a (sort_entries r) i) [
  | inl e ↦ inl e
  | inr m ↦ inr (sort-adds_none r a m)
]

least_first :
    (ys : List Entry) (x : Entry) (r : List Entry)
    → AreAscending ys
    → ys ≡ x ∷ r
    → (y : Entry) → In y r
    → x.1 ≤ y.1
least_first ys x r h e = (subst AreAscending e h).0

sort-Orders : Orders sort_entries
sort-Orders = record {
  keeps = sort-keeps;
  adds_none = sort-adds_none;
  ascending = λ xs x r e. least_first (sort_entries xs) x r (sort-AreAscending xs) e;
}

name : ℕ → String
name zero = "x"
name (suc n) = String.◌∷◌ "x" (name n)

crowd : ℕ → Table IdentityState
unfolding name
crowd zero = []
crowd (suc n) = (name n, record new_identity { last_seen = 7 }) ∷ crowd n

length-crowd : (n : ℕ) → length (crowd n) ≡ n
unfolding crowd
length-crowd zero = refl
length-crowd (suc n) = omega (arith, length-crowd n)

crowd-AreSeen : (n : ℕ) → AreSeen (crowd n)
unfolding crowd seen_times
crowd-AreSeen zero x i = absurd i
crowd-AreSeen (suc n) x (inl e) = rw (← e) (omega arith)
crowd-AreSeen (suc n) x (inr i) = crowd-AreSeen n x i

abbrev first : List ℕ → ℕ
first [] = 0
first (x ∷ r) = x

name_ne : (n : ℕ) → name n ≢ "bob@x"
unfolding name
name_ne zero e = cc (ap codes e)
name_ne (suc n) e = omega (arith, ap (λ s. first (codes s)) e)

crowd-get : (n : ℕ) → Table.get (crowd n) "bob@x" ≡ none
unfolding crowd Table.get
crowd-get zero = refl
crowd-get (suc n) = elim (Bool-cases (name n == "bob@x")) [
  | inl p ↦ absurd (name_ne n (str_eq→eq (name n) "bob@x" p))
  | inr p ↦ rw p (crowd-get n)
]

abbrev full : State
full = record new_state { identities = crowd 4096 }

abbrev sorting : Detector
sorting = record detector { sort = sort_entries }

commit-forgets_example :
    (Table.get (identity sort_entries full (actor_login denied)).1.identities (actor_login denied)
      ≡ none)
    × (Table.get (commit sorting denied full).identities (actor_login denied) ≡ none)
unfolding actor_login
commit-forgets_example =
    commit-forgets sorting denied full sort-Orders (crowd-AreSeen 4096) (length-crowd 4096)
      (crowd-get 4096)
