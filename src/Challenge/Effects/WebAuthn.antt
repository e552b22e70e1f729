-- ===== src/Challenge/Effects/WebAuthn.antt =====
-- What the WebAuthn methods may do to the table of challenges.
use oiaf.Mfa.WebAuthn
use oiaf.Mfa.WebAuthn.{WebAuthnLib, Verification}
use oiaf.Mfa.WebAuthn.Laws.{begin_verification-store, challenges-finish_verification}
use oiaf.Base.{
  natural, suc, true, false, String, ◌≡◌, refl, ap, sym, ◌∙◌, ◌⊎◌, inl, inr, Option, none, some,
  ◌==◌, arith, leb, Bool-cases, Option-cases, if◌then◌else◌,
}
use mathlib.Core.Path.{subst}
use oiaf.Base.Table
use oiaf.Base.Table.{Table, get-put, get-put_self, put-put}
use oiaf.Base.Action.{Result-cases}
use oiaf.Types.Enums.{ChallengeStatus, MfaMethod, is_pending}
use oiaf.Types.Entities.{Time, Challenge}
use oiaf.Storage.State.{Store}
use oiaf.Storage.Challenges
use oiaf.Audit.{Stamp}
use oiaf.Challenge.{
  Service, Clock, write, approved, after_failure, begin_with, after_gates, finish_with,
  begin_webauthn, finish_webauthn, session_taken, is_expired, allows_method, admitted_webauthn,
  conclude_webauthn,
}
use oiaf.Challenge.Next.{Next, Next-edited, found_at_id, IsKeyed, Effect}
use oiaf.Challenge.Admission.{Admitted, pre_verify-cases, pre_verify-Effect}
use oiaf.Challenge.Effects.{challenges-approve, challenges-reject, written}

module _ (svc : Service) (s : Store) where
  -- The ceremony of an admitted challenge, from the store in which it is tried.
  abbrev pub ceremony : WebAuthnLib → String → Challenge → Verification × Store
  ceremony lib response c =
      WebAuthn.finish_verification lib c.identity_id c.webauthn_session response
        (written (session_taken c) s)

  module _ (clock : Clock) (stamp : Stamp) (response : String) where
    -- An admitted challenge that offers the method and holds a session is approved or rejected as
    -- the ceremony is valid or not, with its session taken.
    pub admitted_webauthn-ceremony :
        (lib : WebAuthnLib) (c : Challenge)
        → allows_method c MfaMethod.webauthn ≡ true
        → (c.webauthn_session == "") ≡ false
        → admitted_webauthn svc lib clock stamp response c s
          ≡ conclude_webauthn svc clock stamp
              (session_taken c)
              (ceremony lib response c).0
              (ceremony lib response c).1
    unfolding admitted_webauthn write
    admitted_webauthn-ceremony lib c m w = rw (m, w) refl

    challenges-conclude :
        (c : Challenge) (v : Verification) (t : Store)
        → t.challenges ≡ Table.put s.challenges c.id (session_taken c)
        → (conclude_webauthn svc clock stamp (session_taken c) v t).1.challenges ≡ (
            if v.valid
            then Table.put t.challenges c.id (approved clock.resolved (session_taken c))
            else Table.put t.challenges c.id (after_failure (session_taken c)))
    unfolding conclude_webauthn
    challenges-conclude c v t e =
        let found : Table.get t.challenges c.id ≡ some (session_taken c) =
          rw (e, get-put_self) refl in
        elim (Bool-cases v.valid) [
          | inl p ↦ rw p (challenges-approve svc clock.resolved stamp _ (session_taken c) _ t found)
          | inr p ↦ rw p (challenges-reject svc stamp _ _ (session_taken c) _ t found)
        ]

    Next-session_taken : (c : Challenge) → Admitted clock.checked c → Next c (session_taken c)
    Next-session_taken c a =
        Next-edited c c.status (suc c.attempts) "" c.resolved_at a.pending (omega arith)
          (λ h. a.attempts_left)

    Next-valid :
        (c : Challenge)
        → Admitted clock.checked c
        → Next c (approved clock.resolved (session_taken c))
    Next-valid c a =
        Next-edited c ChallengeStatus.approved (suc c.attempts) "" (some clock.resolved) a.pending
          (omega arith) (λ h. a.attempts_left)

    Next-invalid :
        (c : Challenge) → Admitted clock.checked c → Next c (after_failure (session_taken c))
    Next-invalid c a = elim (Bool-cases (leb (natural c.max_attempts) (suc c.attempts))) [
      | inl p ↦ rw p (
          Next-edited c ChallengeStatus.failed (suc c.attempts) "" c.resolved_at a.pending
            (omega arith) (λ h. a.attempts_left))
      | inr p ↦ rw p (Next-session_taken c a)
    ]

    admitted_webauthn-Effect :
        (lib : WebAuthnLib) (c : Challenge)
        → Table.get s.challenges c.id ≡ some c
        → Admitted clock.checked c
        → Effect s.challenges (admitted_webauthn svc lib clock stamp response c s).1.challenges
    admitted_webauthn-Effect lib c found a =
        elim (Bool-cases (allows_method c MfaMethod.webauthn)) [
          | inr m ↦ inl (unfold admitted_webauthn in rw m refl)
          | inl m ↦ elim (Bool-cases (c.webauthn_session == "")) [
            | inl w ↦ inl (unfold admitted_webauthn in rw (m, w) refl)
            | inr w ↦
                let (v, t) = ceremony lib response c in
                let e =
                  challenges-finish_verification lib c.identity_id c.webauthn_session response
                    (written (session_taken c) s) in
                let e' = challenges-conclude c v t e in
                let second = λ (d : Challenge). ap (λ z. Table.put z c.id d) e in
                let fold = λ (d : Challenge). put-put s.challenges c.id (session_taken c) d in
                let valid = approved clock.resolved (session_taken c) in
                let invalid = after_failure (session_taken c) in
                rw (admitted_webauthn-ceremony lib c m w) (elim (Bool-cases v.valid) [
                  | inl p ↦
                      inr
                        (c, valid, found, Next-valid c a, (rw p at e') ∙ second valid ∙ fold valid)
                  | inr p ↦ inr (
                    c,
                    invalid,
                    found,
                    Next-invalid c a,
                    (rw p at e') ∙ second invalid ∙ fold invalid,
                  )
                ])
          ]
        ]

    finish_with-Effect :
        (o : Option WebAuthnLib) (id : String)
        → IsKeyed s.challenges
        → Effect s.challenges (finish_with svc o clock stamp id response s).1.challenges
    unfolding finish_with after_gates
    finish_with-Effect none id keyed = inl refl
    finish_with-Effect (some lib) id keyed = elim (pre_verify-cases clock.checked id s) [
      | inr (e, h) ↦ rw (h, after_gates) (pre_verify-Effect clock.checked id s keyed)
      | inl (c, h, found, a) ↦
          subst (λ r. Effect s.challenges (after_gates svc lib clock stamp response r).1.challenges)
            (sym h) (admitted_webauthn-Effect lib c (found_at_id s.challenges id c keyed found) a)
    ]

    pub finish_webauthn-Effect :
        (id : String)
        → IsKeyed s.challenges
        → Effect s.challenges (finish_webauthn svc clock stamp id response s).1.challenges
    unfolding finish_webauthn
    finish_webauthn-Effect id keyed = finish_with-Effect svc.webauthn id keyed

module _ (s : Store) (lib : WebAuthnLib) (now : Time) (id : String) (c : Challenge) where
  -- Beginning a ceremony for a pending challenge marks it as expired, does nothing, or writes the
  -- session that the ceremony starts with.
  begins :
      Table.get s.challenges id ≡ some c
      → Table.get s.challenges c.id ≡ some c
      → is_pending c.status ≡ true
      → ((begin_with (some lib) now id s).1.challenges ≡ s.challenges)
        ⊎ ((begin_with (some lib) now id s).1.challenges
            ≡ Table.put s.challenges c.id (record c { status = ChallengeStatus.expired }))
        ⊎ ((w : String) × ((begin_with (some lib) now id s).1.challenges
              ≡ Table.put s.challenges c.id (record c { webauthn_session = w })))
  unfolding begin_with Challenges.get Challenges.update
  begins e found p = elim (Bool-cases (is_expired now c)) [
    | inl x ↦ inr (inl (ground arith))
    | inr x ↦ elim (Bool-cases (allows_method c MfaMethod.webauthn)) [
      | inr m ↦ inl (ground arith)
      | inl m ↦
          let same = begin_verification-store lib c.identity_id s in
          elim (Result-cases (WebAuthn.begin_verification lib c.identity_id s).0) [
            | inl (started, r) ↦ inr (inr (started.1, ground arith))
            | inr (f, r) ↦ inl (ground arith)
          ]
    ]
  ]

begin_with-Effect :
    (o : Option WebAuthnLib) (now : Time) (id : String) (s : Store)
    → IsKeyed s.challenges
    → Effect s.challenges (begin_with o now id s).1.challenges
unfolding begin_with Challenges.get
begin_with-Effect none now id s keyed = inl refl
begin_with-Effect (some lib) now id s keyed = elim (Option-cases (Table.get s.challenges id)) [
  | inl e ↦ inl (rw e refl)
  | inr (c, e) ↦ elim (Bool-cases (is_pending c.status)) [
    | inr p ↦ inl (rw (e, p) refl)
    | inl p ↦
        let found = found_at_id s.challenges id c keyed e in
        elim (begins s lib now id c e found p) [
          | inl k ↦ inl k
          | inr (inl k) ↦ inr (
            c,
            record c { status = ChallengeStatus.expired },
            found,
            Next-edited c ChallengeStatus.expired c.attempts c.webauthn_session c.resolved_at p
                (omega arith) (λ h. h),
            k,
          )
          | inr (inr (w, k)) ↦ inr (
            c,
            record c { webauthn_session = w },
            found,
            Next-edited c c.status c.attempts w c.resolved_at p (omega arith) (λ h. h),
            k,
          )
        ]
  ]
]

pub begin_webauthn-Effect :
    (svc : Service) (now : Time) (id : String) (s : Store)
    → IsKeyed s.challenges
    → Effect s.challenges (begin_webauthn svc now id s).1.challenges
unfolding begin_webauthn
begin_webauthn-Effect svc now id s keyed = begin_with-Effect svc.webauthn now id s keyed
