-- ===== src/Challenge/History.antt =====
-- Histories: any operations in any order, on any challenges, with any readings of the clock. The
-- other components may do anything in between that leaves the table of challenges alone.
use oiaf.Base.{
  natural, ◌≤◌, String, ◌≡◌, refl, ◌⊎◌, inl, inr, Option, none, some, List, ◌==◌, arith, Bool-cases,
  str_eq→eq,
}
use mathlib.Core.Path.{subst}
use oiaf.Base.Table
use oiaf.Base.Table.{Table, get-put, get-empty}
use oiaf.Base.Action.{Result-cases}
use oiaf.Types.Enums.{MfaMethod}
use oiaf.Types.Entities.{Time, Challenge}
use oiaf.Storage.State.{Store, new_memory_store}
use oiaf.Storage.Challenges
use oiaf.Audit
use oiaf.Audit.{Stamp}
use oiaf.Challenge as Orchestrator
use oiaf.Challenge.{Service, Clock, Fresh, Approval, push_number, new_challenge}
use oiaf.Challenge.Next.{
  Next, Next-refl, Next-trans, IsKeyed, Effect, Effect-Follows, Effect-IsKeyed, Follows,
}
use oiaf.Challenge.Effects.{verify_totp-Effect}
use oiaf.Challenge.Effects.Push.{verify_push-Effect}
use oiaf.Challenge.Effects.WebAuthn.{begin_webauthn-Effect, finish_webauthn-Effect}

-- One operation on the store. `Create` draws an identifier that no challenge has.
pub data Operation (svc : Service) : Store → Store → Type 0 where
  create :
      (fresh : Fresh) (identity_id request_id : String) (methods : List MfaMethod) (s : Store)
      → Table.get s.challenges fresh.id ≡ none
      → Operation svc s (Orchestrator.create svc fresh identity_id request_id methods s).1
  verify_totp :
      (clock : Clock) (stamp : Stamp) (id code : String) (s : Store)
      → Operation svc s (Orchestrator.verify_totp svc clock stamp id code s).1
  verify_push :
      (clock : Clock) (stamp : Stamp) (id : String) (a : Approval) (s : Store)
      → Operation svc s (Orchestrator.verify_push svc clock stamp id a s).1
  begin_webauthn :
      (now : Time) (id : String) (s : Store)
      → Operation svc s (Orchestrator.begin_webauthn svc now id s).1
  finish_webauthn :
      (clock : Clock) (stamp : Stamp) (id response : String) (s : Store)
      → Operation svc s (Orchestrator.finish_webauthn svc clock stamp id response s).1
  elsewhere : (s t : Store) → t.challenges ≡ s.challenges → Operation svc s t

pub data History (svc : Service) (s : Store) : Store → Type 0 where
  start : History svc s s
  then_ : {t u : Store} → History svc s t → Operation svc t u → History svc s u

-- What `Create` does to the table: nothing, or one new challenge without attempts.
create-challenges :
    (svc : Service) (fresh : Fresh) (identity_id request_id : String) (methods : List MfaMethod)
    (s : Store)
    → ((Orchestrator.create svc fresh identity_id request_id methods s).1.challenges ≡ s.challenges)
      ⊎ ((c : Challenge) × (c.id ≡ fresh.id)
          × (c.attempts ≡ 0)
          × ((Orchestrator.create svc fresh identity_id request_id methods s).1.challenges
              ≡ Table.put s.challenges fresh.id c))
unfolding Orchestrator.create Challenges.create Audit.emit
create-challenges svc fresh identity_id request_id methods s =
    elim (Result-cases (push_number fresh.draw methods)) [
      | inr (e, r) ↦ inl (rw r refl)
      | inl (n, r) ↦
          inr (new_challenge svc fresh identity_id request_id methods n, refl, refl, rw r refl)
    ]

-- What an operation may do to a keyed table.
record Progress (t u : Table Challenge) : Type 0 where
  keyed : IsKeyed u
  onward :
      (k : String) (c : Challenge)
      → Table.get t k ≡ some c
      → (d : Challenge) × (Table.get u k ≡ some d) × Next c d
  bounded :
      (k : String) (d : Challenge)
      → Table.get u k ≡ some d
      → ((c : Challenge) × (Table.get t k ≡ some c) × Next c d) ⊎ (d.attempts ≡ 0)

follower :
    (c : Challenge) (o : Option Challenge)
    → Follows (some c) o
    → (d : Challenge) × (o ≡ some d) × Next c d
follower c none f = absurd f
follower c (some d) n = (d, refl, n)

followed :
    (d : Challenge) (o : Option Challenge)
    → Follows o (some d)
    → (c : Challenge) × (o ≡ some c) × Next c d
followed d none f = absurd f
followed d (some c) n = (c, refl, n)

Effect-Progress : (t u : Table Challenge) → IsKeyed t → Effect t u → Progress t u
Effect-Progress t u keyed e = record {
  keyed = Effect-IsKeyed t u keyed e;
  onward = λ k c h.
      follower c (Table.get u k)
        (subst (λ o. Follows o (Table.get u k)) h (Effect-Follows t u k e));
  bounded = λ k d h. inl (
      followed d (Table.get t k)
        (subst (λ o. Follows (Table.get t k) o) h (Effect-Follows t u k e)));
}

put_new-Progress :
    (t : Table Challenge) (id : String) (c : Challenge)
    → IsKeyed t
    → Table.get t id ≡ none
    → c.id ≡ id
    → c.attempts ≡ 0
    → Progress t (Table.put t id c)
put_new-Progress t id c keyed absent at zero_ = record {
  keyed = record {
    at = λ k d h. elim (Bool-cases (id == k)) [
      | inl p ↦ let same : some c ≡ some d = rw (get-put, p) at h in cc (same, str_eq→eq id k p)
      | inr p ↦ keyed.at k d (rw (get-put, p) at h)
    ];
  };
  onward = λ k d h. elim (Bool-cases (id == k)) [
    | inl p ↦ cc (str_eq→eq id k p)
    | inr p ↦ (d, rw (get-put, p) h, Next-refl d)
  ];
  bounded = λ k d h. elim (Bool-cases (id == k)) [
    | inl p ↦ let same : some c ≡ some d = rw (get-put, p) at h in inr (cc)
    | inr p ↦ inl (d, rw (get-put, p) at h, Next-refl d)
  ];
}

Operation-Progress :
    (svc : Service) {s t : Store}
    → IsKeyed s.challenges
    → Operation svc s t
    → Progress s.challenges t.challenges
Operation-Progress svc keyed (create fresh i r m s absent) =
    elim (create-challenges svc fresh i r m s) [
      | inl e ↦ Effect-Progress s.challenges _ keyed (inl e)
      | inr (c, at, zero_, e) ↦
          rw e (put_new-Progress s.challenges fresh.id c keyed absent at zero_)
    ]
Operation-Progress svc keyed (verify_totp clock stamp id code s) =
    Effect-Progress s.challenges _ keyed (verify_totp-Effect svc clock stamp id s code keyed)
Operation-Progress svc keyed (verify_push clock stamp id a s) =
    Effect-Progress s.challenges _ keyed (verify_push-Effect svc clock stamp id s a keyed)
Operation-Progress svc keyed (begin_webauthn now id s) =
    Effect-Progress s.challenges _ keyed (begin_webauthn-Effect svc now id s keyed)
Operation-Progress svc keyed (finish_webauthn clock stamp id response s) =
    Effect-Progress s.challenges _ keyed
      (finish_webauthn-Effect svc s clock stamp response id keyed)
Operation-Progress svc keyed (elsewhere s t e) =
    Effect-Progress s.challenges t.challenges keyed (inl e)

History-IsKeyed :
    (svc : Service) {s t : Store} → IsKeyed s.challenges → History svc s t → IsKeyed t.challenges
History-IsKeyed svc keyed start = keyed
History-IsKeyed svc keyed (then_ h o) =
    (Operation-Progress svc (History-IsKeyed svc keyed h) o).keyed

-- Whatever the history, a challenge that the store holds stays under its identifier, keeps its
-- identity, methods, number, nonce, attempt limit and expiry, never loses an attempt, never
-- passes its attempt limit if it was within it, and does not change at all once it is approved,
-- denied, expired or failed.
pub History-Next :
    (svc : Service) {s t : Store} (k : String) (c : Challenge)
    → IsKeyed s.challenges
    → History svc s t
    → Table.get s.challenges k ≡ some c
    → (d : Challenge) × (Table.get t.challenges k ≡ some d) × Next c d
History-Next svc k c keyed start found = (c, found, Next-refl c)
History-Next svc k c keyed (then_ h o) found =
    let (d, at, n) = History-Next svc k c keyed h found in
    let (e, at', n') = (Operation-Progress svc (History-IsKeyed svc keyed h) o).onward k d at in
    (e, at', Next-trans n n')

new-IsKeyed : IsKeyed new_memory_store.challenges
new-IsKeyed = record { at = λ k c h. cc (get-empty {V = Challenge} k) }

-- In any history from a new store, no challenge has more attempts than its limit; where the limit is
-- negative, none has any.
pub History-attempts :
    (svc : Service) {t : Store} (k : String) (d : Challenge)
    → History svc new_memory_store t
    → Table.get t.challenges k ≡ some d
    → d.attempts ≤ natural d.max_attempts
History-attempts svc k d start found = cc (get-empty {V = Challenge} k)
History-attempts svc k d (then_ h o) found =
    elim ((Operation-Progress svc (History-IsKeyed svc new-IsKeyed h) o).bounded k d found) [
      | inl (c, at, n) ↦ n.bounded (History-attempts svc k c h at)
      | inr z ↦ omega arith
    ]
