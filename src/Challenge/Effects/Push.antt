-- ===== src/Challenge/Effects/Push.antt =====
-- What `VerifyPush` may do to the table of challenges.
use oiaf.Mfa.Push
use oiaf.Base.{true, false, String, ◌≡◌, refl, ◌⊎◌, inl, inr, arith, Bool-cases}
use oiaf.Base.Table
use oiaf.Base.Table.{Table, get-put, get-put_self, put-put}
use oiaf.Base.Action.{Result, ok, err}
use oiaf.Types.Entities.{Challenge}
use oiaf.Types.Errors.{Error, number_mismatch, push_verification_failed}
use oiaf.Storage.State.{Store}
use oiaf.Storage.Challenges
use oiaf.Audit.{Stamp}
use oiaf.Challenge.{
  Service, Clock, Approval, pre_verify, write, tried, approved, after_failure, approve, verify_push,
  conclude_push, int_eq,
}
use oiaf.Challenge.Next.{found_at_id, IsKeyed, Effect}
use oiaf.Challenge.Admission.{pre_verify-cases, pre_verify-Effect}
use oiaf.Challenge.Effects.{
  challenges-approve, ends, written, Next-approved, Next-tried, Next-after_failure,
}

-- The result of the push service for an admitted challenge.
abbrev pub push_result :
    Service → Clock → String → Approval → Challenge → Store → Result Error (Unit {0})
push_result svc clock id a c s =
    (Push.verify_approval svc.push clock.verified a.device_id id a.number a.signature a.timestamp
      (written (tried c) s)).0

pub push_cases : (r : Result Error (Unit {0})) → (r ≡ ok tt) ⊎ ((e : Error) × (r ≡ err e))
push_cases (ok u) = inl refl
push_cases (err e) = inr (e, refl)

module _ (svc : Service) (clock : Clock) (stamp : Stamp) (id : String) (s : Store)
    (a : Approval) where
  -- The three ways on from the gates: another number, a refusal of the push service, approval.
  pub verify_push-mismatch :
      (c : Challenge)
      → pre_verify clock.checked id s ≡ (ok c, s)
      → int_eq a.number c.push_number ≡ false
      → verify_push svc clock stamp id a s
        ≡ (err number_mismatch, (Challenges.update (tried c) (written (tried c) s)).1)
  unfolding verify_push write
  verify_push-mismatch c h p = rw (h, p) refl

  pub verify_push-failed :
      (c : Challenge) (e : Error)
      → pre_verify clock.checked id s ≡ (ok c, s)
      → int_eq a.number c.push_number ≡ true
      → push_result svc clock id a c s ≡ err e
      → verify_push svc clock stamp id a s ≡ (
        err (push_verification_failed e),
        (Challenges.update (after_failure (tried c)) (written (tried c) s)).1,
      )
  unfolding verify_push write
  verify_push-failed c e h p r = rw (h, p, r) (unfold conclude_push in refl)

  pub verify_push-approved :
      (c : Challenge)
      → pre_verify clock.checked id s ≡ (ok c, s)
      → int_eq a.number c.push_number ≡ true
      → push_result svc clock id a c s ≡ ok tt
      → verify_push svc clock stamp id a s
        ≡ approve svc clock.resolved stamp "push_verified" (tried c) (written (tried c) s)
  unfolding verify_push write
  verify_push-approved c h p r = rw (h, p, r) (unfold conclude_push in refl)

  pub verify_push-refused :
      (e : Error)
      → (pre_verify clock.checked id s).0 ≡ err e
      → verify_push svc clock stamp id a s ≡ (err e, (pre_verify clock.checked id s).1)
  unfolding verify_push
  verify_push-refused e h = rw h refl

  pub challenges-update :
      (c d : Challenge)
      → d.id ≡ c.id
      → (Challenges.update d (written (tried c) s)).1.challenges
        ≡ Table.put (Table.put s.challenges c.id (tried c)) c.id d
  unfolding Challenges.update
  challenges-update c d e = ground (arith, get-put_self s.challenges c.id (tried c))

  pub verify_push-Effect :
      IsKeyed s.challenges → Effect s.challenges (verify_push svc clock stamp id a s).1.challenges
  verify_push-Effect keyed = elim (pre_verify-cases clock.checked id s) [
    | inr (e, h) ↦ rw (verify_push-refused e h) (pre_verify-Effect clock.checked id s keyed)
    | inl (c, h, found, adm) ↦
        let at_id = found_at_id s.challenges id c keyed found in
        elim (Bool-cases (int_eq a.number c.push_number)) [
          | inr p ↦ rw (verify_push-mismatch c h p) (
              ends svc c (tried c) s at_id (Next-tried clock.checked c adm) _
                (challenges-update c (tried c) refl))
          | inl p ↦ elim (push_cases (push_result svc clock id a c s)) [
            | inl r ↦ rw (verify_push-approved c h p r) (
                ends svc c (approved clock.resolved (tried c)) s at_id
                  (Next-approved clock.checked clock.resolved c adm) _
                  (challenges-approve svc clock.resolved stamp _ (tried c) (tried c) _
                    (get-put_self s.challenges c.id (tried c))))
            | inr (e, r) ↦
                let n = Next-after_failure clock.checked c adm in
                rw (verify_push-failed c e h p r) (
                  ends svc c (after_failure (tried c)) s at_id n _
                    (challenges-update c (after_failure (tried c)) n.id))
          ]
        ]
  ]
