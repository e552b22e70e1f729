-- ===== src/Challenge/Outcomes.antt =====
-- What a verification of an admitted challenge returns and leaves in the store:
-- core/internal/challenge/service.go.
use oiaf.Base.{true, false, String, ◌≡◌, ap, ◌∙◌, some}
use oiaf.Base.Table
use oiaf.Base.Table.{Table, get-put_self}
use oiaf.Base.Action.{ok, err}
use oiaf.Types.Entities.{Challenge}
use oiaf.Types.Errors.{invalid_code}
use oiaf.Storage.State.{Store}
use oiaf.Audit.{Stamp}
use oiaf.Mfa.Push.Laws.{verify_approval_of}
use oiaf.Challenge.{
  Service, Clock, Approval, tried, approved, after_failure, verify_totp, verify_push, int_eq,
}
use oiaf.Challenge.Admission.{Admitted, pre_verify-Admitted}
use oiaf.Challenge.Effects.{
  challenges-approve, challenges-reject, totp_accepts, written, verify_totp-admitted,
}
use oiaf.Challenge.Effects.Push.{verify_push-approved}
use oiaf.Challenge.Soundness.{approve-result, reject-result, Signed}

-- Where the last write was at an identifier, the store holds what was written.
held :
    (t u : Table Challenge) (k id : String) (d : Challenge)
    → t ≡ Table.put u k d
    → k ≡ id
    → Table.get t id ≡ some d
held t u k id d e same = rw (e, ← same) (get-put_self u k d)

module _ (svc : Service) (clock : Clock) (stamp : Stamp) (id : String) (s : Store)
    (c : Challenge) where
  pub verify_totp-outcome :
      (code : String)
      → Table.get s.challenges id ≡ some c
      → c.id ≡ id
      → Admitted clock.checked c
      → (totp_accepts svc clock code c s ≡ true
          → ((verify_totp svc clock stamp id code s).0 ≡ ok (approved clock.resolved (tried c)))
            × (Table.get (verify_totp svc clock stamp id code s).1.challenges id
                ≡ some (approved clock.resolved (tried c))))
        × (totp_accepts svc clock code c s ≡ false
            → ((verify_totp svc clock stamp id code s).0 ≡ err invalid_code)
              × (Table.get (verify_totp svc clock stamp id code s).1.challenges id
                  ≡ some (after_failure (tried c))))
  verify_totp-outcome code found keyed a =
      let r = pre_verify-Admitted clock.checked id s c found a in
      let q = verify_totp-admitted svc clock stamp id s code c r in
      let before = get-put_self s.challenges c.id (tried c) in
      (
        λ p.
            let y = rw p at q in
            (
              ap (λ x. x.0) y
                  ∙ approve-result svc clock.resolved stamp "totp_verified" (tried c)
                      (written (tried c) s),
              held _ _ c.id id _
                  (ap (λ x. x.1.challenges) y
                    ∙ challenges-approve svc clock.resolved stamp "totp_verified" (tried c)
                        (tried c) (written (tried c) s) before)
                  keyed,
            ),
        λ p.
            let y = rw p at q in
            (
              ap (λ x. x.0) y
                  ∙ reject-result svc stamp "totp_invalid" invalid_code (tried c)
                      (written (tried c) s),
              held _ _ c.id id _
                  (ap (λ x. x.1.challenges) y
                    ∙ challenges-reject svc stamp "totp_invalid" invalid_code (tried c) (tried c)
                        (written (tried c) s) before)
                  keyed,
            ),
      )

  -- Any registered device approves an admitted challenge, whichever identity the device belongs
  -- to and whatever the methods that the challenge offers: the number drawn, signed under the
  -- device's secret hash at a time within the window, approves it in the result and in the store.
  pub verify_push_by_any_device :
      (a : Approval)
      → Table.get s.challenges id ≡ some c
      → c.id ≡ id
      → Admitted clock.checked c
      → int_eq a.number c.push_number ≡ true
      → Signed svc clock id a s
      → ((verify_push svc clock stamp id a s).0 ≡ ok (approved clock.resolved (tried c)))
        × (Table.get (verify_push svc clock stamp id a s).1.challenges id
            ≡ some (approved clock.resolved (tried c)))
  verify_push_by_any_device a found keyed adm p (d, e, w, v, same) =
      let r = pre_verify-Admitted clock.checked id s c found adm in
      let passed =
        verify_approval_of svc.push clock.verified a.device_id id a.number a.signature a.timestamp
          (written (tried c) s) d e w v same in
      let q = verify_push-approved svc clock stamp id s a c r p (ap (λ x. x.0) passed) in
      (
        ap (λ x. x.0) q
            ∙ approve-result svc clock.resolved stamp "push_verified" (tried c)
                (written (tried c) s),
        held _ _ c.id id _
            (ap (λ x. x.1.challenges) q
              ∙ challenges-approve svc clock.resolved stamp "push_verified" (tried c) (tried c)
                  (written (tried c) s) (get-put_self s.challenges c.id (tried c)))
            keyed,
      )
