-- ===== src/Challenge/Effects.antt =====
-- What each method may do to the table of challenges: the ends of a verification, and `VerifyTOTP`.
pub mod Push
pub mod WebAuthn
use oiaf.Base.{
  natural, suc, Bool, String, ◌≡◌, refl, ◌∙◌, inl, inr, some, ◌==◌, arith, leb, filter_by,
  Bool-cases, if◌then◌else◌,
}
use oiaf.Base.Table
use oiaf.Base.Table.{Table, get-put, get-put_self, put-put}
use oiaf.Base.Action.{ok, err}
use oiaf.Types.Enums.{ChallengeStatus}
use oiaf.Types.Entities.{Time, Challenge}
use oiaf.Types.Errors.{Error, invalid_code}
use oiaf.Storage.State.{Store}
use oiaf.Storage.Challenges
use oiaf.Audit
use oiaf.Audit.{Stamp}
use oiaf.Mfa.Totp
use oiaf.Challenge.{
  Service, Clock, pre_verify, write, tried, approved, after_failure, approve, reject, verify_totp,
}
use oiaf.Challenge.Next.{Next, Next-edited, found_at_id, IsKeyed, Effect}
use oiaf.Challenge.Admission.{Admitted, pre_verify-cases, pre_verify-Effect}

module _ (svc : Service) where
  -- The end of a verification writes the challenge once more, whatever the store held for it.
  pub challenges-approve :
      (now : Time) (stamp : Stamp) (reason : String) (ch x : Challenge) (s : Store)
      → Table.get s.challenges ch.id ≡ some x
      → (approve svc now stamp reason ch s).1.challenges
        ≡ Table.put s.challenges ch.id (approved now ch)
  unfolding approve Challenges.update Audit.emit
  challenges-approve now stamp reason ch x s found = ground arith

  pub challenges-reject :
      (stamp : Stamp) (reason : String) (e : Error) (ch x : Challenge) (s : Store)
      → Table.get s.challenges ch.id ≡ some x
      → (reject svc stamp reason e ch s).1.challenges
        ≡ Table.put s.challenges ch.id (after_failure ch)
  unfolding reject Challenges.update Audit.emit
  challenges-reject stamp reason e ch x s found = ground arith

  -- Where the store holds the challenge, either end follows it with one more attempt.
  pub ends :
      (c d : Challenge) (s : Store)
      → Table.get s.challenges c.id ≡ some c
      → Next c d
      → (t : Table Challenge) → t ≡ Table.put (Table.put s.challenges c.id (tried c)) c.id d
      → Effect s.challenges t
  ends c d s found n t e = inr (c, d, found, n, e ∙ put-put s.challenges c.id (tried c) d)

abbrev pub written : Challenge → Store → Store
written ch s = record s { challenges = Table.put s.challenges ch.id ch }

pub Next-approved :
    (now at : Time) (c : Challenge) → Admitted now c → Next c (approved at (tried c))
Next-approved now at c a =
    Next-edited c ChallengeStatus.approved (suc c.attempts) c.webauthn_session (some at) a.pending
      (omega arith) (λ h. a.attempts_left)

pub Next-tried : (now : Time) (c : Challenge) → Admitted now c → Next c (tried c)
Next-tried now c a =
    Next-edited c c.status (suc c.attempts) c.webauthn_session c.resolved_at a.pending (omega arith)
      (λ h. a.attempts_left)

pub Next-after_failure :
    (now : Time) (c : Challenge) → Admitted now c → Next c (after_failure (tried c))
Next-after_failure now c a = elim (Bool-cases (leb (natural c.max_attempts) (suc c.attempts))) [
  | inl p ↦ rw p (
      Next-edited c ChallengeStatus.failed (suc c.attempts) c.webauthn_session c.resolved_at
        a.pending (omega arith) (λ h. a.attempts_left))
  | inr p ↦ rw p (Next-tried now c a)
]

-- Does the factor service accept the code for the challenge's identity?
abbrev pub totp_accepts : Service → Clock → String → Challenge → Store → Bool
totp_accepts svc clock code c s =
    Totp.accepts_any svc.totp clock.verified code
      (filter_by (λ f. f.identity_id == c.identity_id) (Table.values s.factors))

module _ (svc : Service) (clock : Clock) (stamp : Stamp) (id : String) (s : Store) where
  -- An admitted challenge is tried once more, and then approved or rejected as the code is.
  pub verify_totp-admitted :
      (code : String) (c : Challenge)
      → pre_verify clock.checked id s ≡ (ok c, s)
      → verify_totp svc clock stamp id code s ≡ (
          if totp_accepts svc clock code c s
          then approve svc clock.resolved stamp "totp_verified" (tried c) (written (tried c) s)
          else reject svc stamp "totp_invalid" invalid_code (tried c) (written (tried c) s))
  unfolding verify_totp write Totp.verify
  verify_totp-admitted code c h = elim (Bool-cases (totp_accepts svc clock code c s)) [
    | inl p ↦ rw (h, p) refl
    | inr p ↦ rw (h, p) refl
  ]

  pub verify_totp-refused :
      (code : String) (e : Error)
      → (pre_verify clock.checked id s).0 ≡ err e
      → verify_totp svc clock stamp id code s ≡ (err e, (pre_verify clock.checked id s).1)
  unfolding verify_totp
  verify_totp-refused code e h = rw h refl

  pub verify_totp-Effect :
      (code : String)
      → IsKeyed s.challenges
      → Effect s.challenges (verify_totp svc clock stamp id code s).1.challenges
  verify_totp-Effect code keyed = elim (pre_verify-cases clock.checked id s) [
    | inr (e, h) ↦ rw (verify_totp-refused code e h) (pre_verify-Effect clock.checked id s keyed)
    | inl (c, h, found, a) ↦
        let at_id = found_at_id s.challenges id c keyed found in
        elim (Bool-cases (totp_accepts svc clock code c s)) [
          | inl p ↦
              rw (verify_totp-admitted code c h, p)
                (ends svc c (approved clock.resolved (tried c)) s at_id
                  (Next-approved clock.checked clock.resolved c a) _
                  (challenges-approve svc clock.resolved stamp _ (tried c) (tried c) _
                    (get-put_self s.challenges c.id (tried c))))
          | inr p ↦
              rw (verify_totp-admitted code c h, p)
                (ends svc c (after_failure (tried c)) s at_id (Next-after_failure clock.checked c a)
                  _
                  (challenges-reject svc stamp _ _ (tried c) (tried c) _
                    (get-put_self s.challenges c.id (tried c))))
        ]
  ]
