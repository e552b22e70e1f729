-- ===== src/Mfa/Push/Laws.antt =====
-- Who can approve.
use oiaf.Base.{
  ◌-◌, ◌≤◌, ℤ, String, ◌≡◌, inl, inr, some, arith, bytes_eq_self, bytes_eq→eq, Option-cases,
}
use oiaf.Base.Table
use oiaf.Base.Table.{get-put_self}
use oiaf.Base.Action.{ok}
use oiaf.Types.Entities.{Time, Device}
use oiaf.Storage.State.{Store}
use oiaf.Mfa.Push.{
  Bytes, Moment, PushService, payload, register_device, verify_approval, compute_push_signature,
}

module _ (p : PushService) (now : Time) (device_id challenge_id : String) (number : ℤ)
    (signature : Bytes) (timestamp : Moment) (s : Store) where
  -- A signature is accepted exactly if its time is within the window and it is the HMAC of the
  -- challenge, the number and the time under the secret hash of the device of that identifier.
  -- The identity that the device belongs to plays no part.
  pub verify_approval-ok :
      (verify_approval p now device_id challenge_id number signature timestamp s).0 ≡ ok tt
      → (d : Device) × (Table.get s.devices device_id ≡ some d)
        × (now - timestamp.instant ≤ p.skew_window)
        × (timestamp.instant - now ≤ p.skew_window)
        × (signature
            ≡ p.signer.compute_hmac (payload p.signer challenge_id number timestamp) d.secret_hash)
  unfolding verify_approval
  verify_approval-ok h = elim (Option-cases (Table.get s.devices device_id)) [
    | inl e ↦ absurd (ground arith)
    | inr (d, e) ↦
        let same =
          bytes_eq→eq signature (
            p.signer.compute_hmac (payload p.signer challenge_id number timestamp) d.secret_hash) in
        (d, e, ground arith, ground arith, ground arith)
  ]

  pub verify_approval_of :
      (d : Device)
      → Table.get s.devices device_id ≡ some d
      → now - timestamp.instant ≤ p.skew_window
      → timestamp.instant - now ≤ p.skew_window
      → signature
        ≡ p.signer.compute_hmac (payload p.signer challenge_id number timestamp) d.secret_hash
      → verify_approval p now device_id challenge_id number signature timestamp s ≡ (ok tt, s)
  unfolding verify_approval
  verify_approval_of d e w v same = ground (
    arith,
    bytes_eq_self
        (p.signer.compute_hmac (payload p.signer challenge_id number timestamp) d.secret_hash),
  )

-- The device that was just registered approves: what its secret signs for a challenge, a number
-- and a time within the window of the check is accepted under its identifier.
pub register-approve :
    (p : PushService) (id : String) (created now : Time) (raw : Bytes)
    (identity_id name challenge_id : String) (number : ℤ) (timestamp : Moment) (s t : Store)
    (d : Device) (secret : Bytes)
    → register_device p.signer id created (some raw) identity_id name s ≡ (ok (d, secret), t)
    → now - timestamp.instant ≤ p.skew_window
    → timestamp.instant - now ≤ p.skew_window
    → verify_approval p now d.id challenge_id number
        (compute_push_signature p.signer secret challenge_id number timestamp)
        timestamp
        t
      ≡ (ok tt, t)
unfolding register_device compute_push_signature
register-approve p id created now raw identity_id name challenge_id number timestamp s t d secret h
      w v =
    verify_approval_of p now d.id challenge_id number
      (compute_push_signature p.signer secret challenge_id number timestamp) timestamp t d
      (ground (arith, get-put_self s.devices id d)) w v (ground arith)
