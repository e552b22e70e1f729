-- ===== src/Challenge/Soundness.antt =====
-- When a verification succeeds: core/internal/challenge/service.go.
use oiaf.Base.{true, ◌-◌, ◌≤◌, String, ◌≡◌, refl, ap, inl, inr, some, In, Bool-cases}
use oiaf.Base.Table
use oiaf.Base.Table.{get-put_self}
use oiaf.Base.Action.{ok, err}
use oiaf.Types.Entities.{Device, Time, Challenge, Factor}
use oiaf.Types.Errors.{Error, invalid_code}
use oiaf.Storage.State.{Store}
use oiaf.Audit.{Stamp}
use oiaf.Mfa.Push.{payload}
use oiaf.Mfa.Push.Laws.{verify_approval-ok}
use oiaf.Challenge.{Approval, verify_push, int_eq}
use oiaf.Challenge.Effects.Push.{
  push_result, push_cases, verify_push-approved, verify_push-mismatch, verify_push-failed,
  verify_push-refused,
}
use oiaf.Mfa.Totp.Laws.{Passes, accepted_by_factor}
use oiaf.Challenge.{Service, Clock, tried, approved, approve, reject, verify_totp}
use oiaf.Challenge.Admission.{Admitted, pre_verify-cases}
use oiaf.Challenge.Effects.{totp_accepts, written, verify_totp-admitted, verify_totp-refused}

pub approve-result :
    (svc : Service) (now : Time) (stamp : Stamp) (reason : String) (ch : Challenge) (s : Store)
    → (approve svc now stamp reason ch s).0 ≡ ok (approved now ch)
unfolding approve
approve-result svc now stamp reason ch s = refl

pub reject-result :
    (svc : Service) (stamp : Stamp) (reason : String) (e : Error) (ch : Challenge) (s : Store)
    → (reject svc stamp reason e ch s).0 ≡ err e
unfolding reject
reject-result svc stamp reason e ch s = refl

-- A signature that a registered device has made for an approval, at a time within the window.
abbrev pub Signed : Service → Clock → String → Approval → Store → Type 0
Signed svc clock id a s =
    (d : Device) × (Table.get s.devices a.device_id ≡ some d)
    × (clock.verified - a.timestamp.instant ≤ svc.push.skew_window)
    × (a.timestamp.instant - clock.verified ≤ svc.push.skew_window)
    × (a.signature
        ≡ svc.push.signer.compute_hmac (payload svc.push.signer id a.number a.timestamp)
            d.secret_hash)

module _ (svc : Service) (clock : Clock) (stamp : Stamp) (id : String) (s : Store) where
  -- `VerifyTOTP` returns a challenge only if the store held it pending, not expired and with
  -- attempts left, and an active TOTP factor of its identity accepts the code; what it returns is
  -- that challenge, approved and tried once more.
  pub verify_totp-ok :
      (code : String) (d : Challenge)
      → (verify_totp svc clock stamp id code s).0 ≡ ok d
      → (c : Challenge) × (Table.get s.challenges id ≡ some c)
        × Admitted clock.checked c
        × (d ≡ approved clock.resolved (tried c))
        × ((f : Factor) × In f (Table.values s.factors)
            × (f.identity_id ≡ c.identity_id)
            × Passes svc.totp clock.verified code f)
  verify_totp-ok code d h = elim (pre_verify-cases clock.checked id s) [
    | inr (e, r) ↦ cc (verify_totp-refused svc clock stamp id s code e r)
    | inl (c, r, found, a) ↦ elim (Bool-cases (totp_accepts svc clock code c s)) [
      | inr p ↦
          let q = rw p at (verify_totp-admitted svc clock stamp id s code c r) in
          cc (
            ap (λ r. r.0) q,
            h,
            reject-result svc stamp "totp_invalid" invalid_code (tried c) (written (tried c) s),
          )
      | inl p ↦
          let q = rw p at (verify_totp-admitted svc clock stamp id s code c r) in
          (
            c,
            found,
            a,
            cc (
              ap (λ r. r.0) q,
              h,
              approve-result svc clock.resolved stamp "totp_verified" (tried c)
                  (written (tried c) s),
            ),
            accepted_by_factor svc.totp clock.verified code c.identity_id s p,
          )
    ]
  ]

  -- `VerifyPush` returns a challenge only if the store held it pending, not expired and with
  -- attempts left, the number sent is the one drawn for it, the time sent is within the window, and
  -- the signature is the HMAC of identifier, number and time under the secret hash of a registered
  -- device. Nothing is said of whom that device belongs to.
  pub verify_push-ok :
      (a : Approval) (d : Challenge)
      → (verify_push svc clock stamp id a s).0 ≡ ok d
      → (c : Challenge) × (Table.get s.challenges id ≡ some c)
        × Admitted clock.checked c
        × (d ≡ approved clock.resolved (tried c))
        × (int_eq a.number c.push_number ≡ true)
        × Signed svc clock id a s
  verify_push-ok a d h = elim (pre_verify-cases clock.checked id s) [
    | inr (e, r) ↦ cc (ap (λ x. x.0) (verify_push-refused svc clock stamp id s a e r), h)
    | inl (c, r, found, adm) ↦ elim (Bool-cases (int_eq a.number c.push_number)) [
      | inr p ↦ cc (ap (λ x. x.0) (verify_push-mismatch svc clock stamp id s a c r p), h)
      | inl p ↦ elim (push_cases (push_result svc clock id a c s)) [
        | inr (e, q) ↦ cc (ap (λ x. x.0) (verify_push-failed svc clock stamp id s a c e r p q), h)
        | inl q ↦ (
          c,
          found,
          adm,
          cc (
            ap (λ x. x.0) (verify_push-approved svc clock stamp id s a c r p q),
            h,
            approve-result svc clock.resolved stamp "push_verified" (tried c) (written (tried c) s),
          ),
          p,
          verify_approval-ok svc.push clock.verified a.device_id id a.number a.signature a.timestamp
              (written (tried c) s) q,
        )
      ]
    ]
  ]
