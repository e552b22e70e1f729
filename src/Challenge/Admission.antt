-- ===== src/Challenge/Admission.antt =====
-- The gates of a verification: core/internal/challenge/service.go, `preVerify`.
use oiaf.Base.{
  ℕ, ℤ, pos, negsuc, not, ltb_ℤ, natural, ◌<◌, true, false, String, ◌≡◌, refl, ap, sym, ◌∙◌, ◌⊎◌,
  inl, inr, some, arith, leb, Bool-cases, Option-cases,
}
use mathlib.Core.Path.{subst}
use oiaf.Base.Table
use oiaf.Base.Table.{Table, get-put, get-put_self}
use oiaf.Base.Action.{Result, ok, err}
use oiaf.Types.Enums.{ChallengeStatus, is_pending}
use oiaf.Types.Entities.{Time, Challenge}
use oiaf.Types.Errors.{Error}
use oiaf.Storage.State.{Store}
use oiaf.Storage.Challenges
use oiaf.Challenge.{pre_verify, is_expired}
use oiaf.Challenge.Next.{Next-edited, found_at_id, IsKeyed, Effect}

-- The gate's test is `attempts >= max_attempts` on signed numbers.
natural-reached :
    (limit : ℤ) (attempts : ℕ) → leb (natural limit) attempts ≡ not (ltb_ℤ (pos attempts) limit)
unfolding ltb_ℤ
natural-reached (pos n) attempts = ground arith
natural-reached (negsuc n) attempts = ground arith

-- A challenge that may be verified at a time.
pub record Admitted (now : Time) (c : Challenge) : Type 0 where
  pub pending : is_pending c.status ≡ true
  pub fresh : is_expired now c ≡ false
  pub attempts_left : c.attempts < natural c.max_attempts

module _ (now : Time) (id : String) (s : Store) where
  -- The gates are passed exactly with the stored challenge, and then nothing has changed.
  pub pre_verify-ok :
      (c : Challenge) (s' : Store)
      → pre_verify now id s ≡ (ok c, s')
      → (s' ≡ s) × (Table.get s.challenges id ≡ some c) × Admitted now c
  unfolding pre_verify Challenges.get
  pre_verify-ok c s' h = ground arith

  pub pre_verify-Admitted :
      (c : Challenge)
      → Table.get s.challenges id ≡ some c
      → Admitted now c
      → pre_verify now id s ≡ (ok c, s)
  unfolding pre_verify Challenges.get
  pre_verify-Admitted c e a = ground arith

  -- One written challenge, where the store held it under its identifier.
  wrote :
      (c : Challenge) (st : ChallengeStatus)
      → Table.get s.challenges c.id ≡ some c
      → is_pending c.status ≡ true
      → Effect s.challenges (Table.put s.challenges c.id (record c { status = st }))
  wrote c st found p = inr (
    c,
    record c { status = st },
    found,
    Next-edited c st c.attempts c.webauthn_session c.resolved_at p (omega arith) (λ h. h),
    refl,
  )

  marks :
      (c : Challenge)
      → Table.get s.challenges id ≡ some c
      → Table.get s.challenges c.id ≡ some c
      → is_pending c.status ≡ true
      → (is_expired now c ≡ true
          → (pre_verify now id s).1.challenges
            ≡ Table.put s.challenges c.id (record c { status = ChallengeStatus.expired }))
        × (is_expired now c ≡ false
            → leb (natural c.max_attempts) c.attempts ≡ true
            → (pre_verify now id s).1.challenges
              ≡ Table.put s.challenges c.id (record c { status = ChallengeStatus.failed }))
  unfolding pre_verify Challenges.get
  marks c e found p = (λ x. ground arith, λ x y. ground arith)

  -- The gates change nothing, or mark one challenge as expired or failed.
  pub pre_verify-Effect :
      IsKeyed s.challenges → Effect s.challenges (pre_verify now id s).1.challenges
  unfolding pre_verify Challenges.get
  pre_verify-Effect keyed = elim (Option-cases (Table.get s.challenges id)) [
    | inl e ↦ inl (rw e refl)
    | inr (c, e) ↦
        let found = found_at_id s.challenges id c keyed e in
        elim (Bool-cases (is_pending c.status)) [
          | inr p ↦ inl (rw (e, p) refl)
          | inl p ↦ elim (Bool-cases (is_expired now c)) [
            | inl x ↦
                subst (Effect s.challenges) (sym ((marks c e found p).0 x))
                  (wrote c ChallengeStatus.expired found p)
            | inr x ↦ elim (Bool-cases (leb (natural c.max_attempts) c.attempts)) [
              | inl y ↦
                  subst (Effect s.challenges) (sym ((marks c e found p).1 x y))
                    (wrote c ChallengeStatus.failed found p)
              | inr y ↦ inl (rw (e, p, x, y) refl)
            ]
          ]
        ]
  ]

-- The outcome of the gates, for the methods that go on from them.
pub pre_verify-cases :
    (now : Time) (id : String) (s : Store)
    → ((c : Challenge) × (pre_verify now id s ≡ (ok c, s))
        × (Table.get s.challenges id ≡ some c)
        × Admitted now c)
      ⊎ ((e : Error) × ((pre_verify now id s).0 ≡ err e))
pre_verify-cases now id s = go (pre_verify now id s) refl
  where
    go :
        (r : Result Error Challenge × Store)
        → pre_verify now id s ≡ r
        → ((c : Challenge) × (pre_verify now id s ≡ (ok c, s))
            × (Table.get s.challenges id ≡ some c)
            × Admitted now c)
          ⊎ ((e : Error) × ((pre_verify now id s).0 ≡ err e))
    go (ok c, s') h =
        let (same, found, a) = pre_verify-ok now id s c s' h in
        inl (c, h ∙ ap (λ t. (ok c, t)) same, found, a)
    go (err e, s') h = inr (e, ap (λ r. r.0) h)
