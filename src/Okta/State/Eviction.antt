-- ===== src/Okta/State/Eviction.antt =====
-- What adapters/okta/state.go does with a new login once its map of logins is full.
use oiaf.Base.{
  ◌+◌, ◌≤◌, ◌<◌, ◌≡◌, refl, sym, ap, ◌∙◌, ◌⊎◌, inl, inr, String, ◌==◌, none, List, [], ◌∷◌, In,
  length, ltb, arith, Bool-cases, str_eq_self,
}
use oiaf.Base.Table
use oiaf.Base.Table.{Table, get-put, get-remove}
use oiaf.Types.Entities.{Time}
use oiaf.Okta.Signals.{Detector}
use oiaf.Okta.Memory.{commit, remembered}
use oiaf.Okta.Events.{LogEvent, actor_login}
use oiaf.Okta.State.{
  State, IdentityState, Sort, identity, write_identity, evict_identities, evict_first, seen_times,
  new_identity, max_tracked_identities,
}

-- `sort.Slice` by the time: the same entries, the earliest first.
pub record Orders (sort : Sort) : Type 0 where
  pub keeps : (xs : List (String × Time)) (x : String × Time) → In x xs → In x (sort xs)
  pub adds_none : (xs : List (String × Time)) (x : String × Time) → In x (sort xs) → In x xs
  pub ascending :
      (xs : List (String × Time)) (x : String × Time) (r : List (String × Time))
      → sort xs ≡ x ∷ r
      → (y : String × Time) → In y r
      → x.1 ≤ y.1

-- Every tracked login has been seen.
abbrev pub AreSeen : Table IdentityState → Type 0
AreSeen t = (x : String × Time) → In x (seen_times t) → 0 < x.1

length-put_new :
    (t : Table IdentityState) (k : String) (v : IdentityState)
    → Table.get t k ≡ none
    → length (Table.put t k v) ≡ length t + 1
unfolding Table.get Table.put
length-put_new [] k v h = refl
length-put_new ((j, w) ∷ t) k v h = ground (arith, length-put_new t k v)

new-In :
    (t : Table IdentityState) (k : String) → In (k, 0) (seen_times (Table.put t k new_identity))
unfolding Table.put seen_times
new-In [] k = inl refl
new-In ((j, w) ∷ t) k = elim (Bool-cases (j == k)) [
  | inl p ↦ rw p (inl refl)
  | inr p ↦ rw p (inr (new-In t k))
]

-- Where the entries of the map with the new login come from.
In-put_new :
    (t : Table IdentityState) (k : String) (x : String × Time)
    → In x (seen_times (Table.put t k new_identity))
    → (x.0 ≡ k) ⊎ In x (seen_times t)
unfolding Table.put seen_times
In-put_new [] k x (inl e) = inl (ap (λ z. z.0) (sym e))
In-put_new [] k x (inr i) = absurd i
In-put_new ((j, w) ∷ t) k x i = elim (Bool-cases (j == k)) [
  | inl p ↦
      let q : In x ((k, 0) ∷ seen_times t) = rw p at i in
      elim q [ inl e ↦ inl (ap (λ z. z.0) (sym e)) | inr m ↦ inr (inr m) ]
  | inr p ↦
      let q : In x ((j, w.last_seen) ∷ seen_times (Table.put t k new_identity)) = rw p at i in
      elim q [
        | inl e ↦ inr (inl e)
        | inr m ↦ elim (In-put_new t k x m) [ inl e ↦ inl e | inr o ↦ inr (inr o) ]
      ]
]

-- A list of that order with an entry of time 0 starts with one.
first_zero :
    (sort : Sort) (xs : List (String × Time)) (k : String)
    → Orders sort
    → In (k, 0) xs
    → (x : String × Time) × (r : List (String × Time)) × (sort xs ≡ x ∷ r) × (x.1 ≡ 0)
first_zero sort xs k o i = start (sort xs) refl (o.keeps xs (k, 0) i)
  where
    start :
        (ys : List (String × Time))
        → sort xs ≡ ys
        → In (k, 0) ys
        → (x : String × Time) × (r : List (String × Time)) × (sort xs ≡ x ∷ r) × (x.1 ≡ 0)
    start [] e m = absurd m
    start (x ∷ r) e (inl h) = (x, r, e, ap (λ z. z.1) h)
    start (x ∷ r) e (inr m) = (x, r, e, omega (arith, o.ascending xs x r e (k, 0) m))

-- The entry that is deleted is the new one.
first_new :
    (sort : Sort) (t : Table IdentityState) (k : String)
    → Orders sort
    → AreSeen t
    → (r : List (String × Time)) × (z : Time) × (sort (seen_times (Table.put t k new_identity))
        ≡ (k, z) ∷ r)
first_new sort t k o seen =
    let (x, r, e, z) = first_zero sort (seen_times (Table.put t k new_identity)) k o (new-In t k) in
    let own : x.0 ≡ k =
      elim (In-put_new t k x
        (o.adds_none (seen_times (Table.put t k new_identity)) x (rw e (inl refl)))) [
          | inl same ↦ same
          | inr m ↦ absurd (omega (arith, seen x m, z))
        ] in
    (r, x.1, e ∙ ap (λ l. (l, x.1) ∷ r) own)

evict-new :
    (sort : Sort) (t : Table IdentityState) (k : String)
    → Orders sort
    → AreSeen t
    → Table.get t k ≡ none
    → length t ≡ max_tracked_identities
    → Table.get (evict_identities sort (Table.put t k new_identity)) k ≡ none
unfolding evict_identities evict_first
evict-new sort t k o seen h n =
    let (r, z, e) = first_new sort t k o seen in
    rw (length-put_new t k new_identity h, n, e)
      (get-remove (Table.put t k new_identity) k k ∙ rw (str_eq_self k) refl)

identity-forgets :
    (sort : Sort) (st : State) (k : String)
    → Orders sort
    → AreSeen st.identities
    → length st.identities ≡ max_tracked_identities
    → Table.get st.identities k ≡ none
    → Table.get (identity sort st k).1.identities k ≡ none
unfolding identity
identity-forgets sort st k o seen n h = rw (h, identity) (evict-new sort st.identities k o seen h n)

write_untracked :
    (login : String) (id : IdentityState) (st : State)
    → Table.get st.identities login ≡ none
    → write_identity login id st ≡ st
unfolding write_identity
write_untracked login id st h = rw (h, write_identity) refl

commit_untracked :
    (d : Detector) (ev : LogEvent) (st : State)
    → Table.get st.identities (actor_login ev) ≡ none
    → Table.get (identity d.sort st (actor_login ev)).1.identities (actor_login ev) ≡ none
    → Table.get (commit d ev st).identities (actor_login ev) ≡ none
unfolding commit
commit_untracked d ev st h gone = elim (Bool-cases (actor_login ev == "")) [
  | inl p ↦ rw p h
  | inr p ↦ elim (Bool-cases (ltb ev.published (identity d.sort st (actor_login ev)).0.last_seen)) [
    | inl q ↦ rw (p, q) gone
    | inr q ↦
        rw
          (
            p,
            q,
            write_untracked (actor_login ev)
                (remembered d ev (identity d.sort st (actor_login ev)).0)
                (identity d.sort st (actor_login ev)).1 gone,
          )
          gone
  ]
]

-- Once the map holds 4096 logins, all seen, a further login is never tracked: the memory made for it
-- is the one that is dropped, as it has the earliest time, so the map does not hold it afterwards, and
-- what `Commit` learns of the login's event is not kept. The sort is assumed to put the earliest
-- first and to keep the entries.
pub commit-forgets :
    (d : Detector) (ev : LogEvent) (st : State)
    → Orders d.sort
    → AreSeen st.identities
    → length st.identities ≡ max_tracked_identities
    → Table.get st.identities (actor_login ev) ≡ none
    → (Table.get (identity d.sort st (actor_login ev)).1.identities (actor_login ev) ≡ none)
      × (Table.get (commit d ev st).identities (actor_login ev) ≡ none)
commit-forgets d ev st o seen n h =
    let gone = identity-forgets d.sort st (actor_login ev) o seen n h in
    (gone, commit_untracked d ev st h gone)
