-- ===== src/Challenge/Creation.antt =====
-- A new challenge: core/internal/challenge/service.go, `Create`.
use mathlib.Core.Path.{subst}
use oiaf.Base.{
  natural, ap, sym, ltb, ℕ, ◌+◌, ◌<◌, true, false, String, ◌≡◌, refl, inl, inr, arith, some, List,
  [], ◌∷◌, ℤ, pos, exists_in, Bool-cases,
}
use oiaf.Base.Table
use oiaf.Base.Table.{get-put_self}
use oiaf.Base.Action.{Result-cases, ok}
use oiaf.Types.Enums.{MfaMethod, method_eq}
use oiaf.Types.Entities.{Challenge, Time}
use oiaf.Storage.State.{Store}
use oiaf.Storage.Challenges
use oiaf.Audit
use oiaf.Challenge.{Service, Fresh, new_challenge, push_number, create}
use oiaf.Challenge.Admission.{Admitted}

-- The number of a new challenge: one that was drawn if the push method is offered, zero otherwise.
pub push_number-drawn :
    (draw : ℕ) (ms : List MfaMethod)
    → (exists_in (λ m. method_eq m MfaMethod.push) ms ≡ true
        → push_number (some draw) ms ≡ ok (pos draw))
      × (exists_in (λ m. method_eq m MfaMethod.push) ms ≡ false
          → push_number (some draw) ms ≡ ok (pos 0))
unfolding push_number exists_in
push_number-drawn draw [] = (λ h. cc h, λ h. refl)
push_number-drawn draw (m ∷ r) =
    let (yes_push, no_push) = push_number-drawn draw r in
    elim (Bool-cases (method_eq m MfaMethod.push)) [
      | inl p ↦ (λ h. rw p refl, λ h. cc (rw p at h))
      | inr p ↦ (λ h. rw p (yes_push (rw p at h)), λ h. rw p (no_push (rw p at h)))
    ]

module _ (svc : Service) (fresh : Fresh) (identity_id request_id : String)
    (methods : List MfaMethod) (s t : Store) (ch : Challenge) where
  pub create-new :
      create svc fresh identity_id request_id methods s ≡ (ok ch, t)
      → (n : ℤ) × (push_number fresh.draw methods ≡ ok n)
        × (ch ≡ new_challenge svc fresh identity_id request_id methods n)
        × (t.challenges ≡ Table.put s.challenges fresh.id ch)
  unfolding create Challenges.create Audit.emit
  create-new h = elim (Result-cases (push_number fresh.draw methods)) [
    | inl (n, p) ↦ let q = rw (create, p) at h in (n, p, ground arith, cc q)
    | inr (e, p) ↦ let q = rw (create, p) at h in cc q
  ]

  -- A challenge that `Create` returns is stored under the fresh identifier, belongs to the
  -- identity, offers the methods, and may be verified at any time that is not after the base of
  -- its expiry plus the lifetime of challenges, if that service allows an attempt at all.
  pub create-Admitted :
      (now : Time)
      → create svc fresh identity_id request_id methods s ≡ (ok ch, t)
      → ltb (fresh.expiry_base + svc.ttl) now ≡ false
      → 0 < natural svc.max_attempts
      → (Table.get t.challenges fresh.id ≡ some ch)
        × (ch.identity_id ≡ identity_id)
        × (ch.methods ≡ methods)
        × Admitted now ch
  create-Admitted now h e m =
      let (n, _, c, stored) = create-new h in
      (
        rw stored (get-put_self s.challenges fresh.id ch),
        ap (λ x. x.identity_id) c,
        ap (λ x. x.methods) c,
        subst (Admitted now) (sym c) (record { pending = refl; fresh = e; attempts_left = m }),
      )
