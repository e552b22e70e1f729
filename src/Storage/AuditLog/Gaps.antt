-- ===== src/Storage/AuditLog/Gaps.antt =====
-- What `Verify` does not look at.
use oiaf.Base.{
  ℕ, suc, true, ◌≡◌, refl, ap, List, [], ◌∷◌, ◌++◌, map, arith, length, Bool-cases, inl, inr,
}
use mathlib.Core.Bool.{false≢true}
use oiaf.Base.Action.{ok}
use oiaf.Types.Entities.{AuditEvent}
use oiaf.Storage.State.{Store}
use oiaf.Storage.AuditLog.{Bytes, Hasher, compute_audit_hash, verify_from, verify}
use oiaf.Storage.AuditLog.Chain.{verify_from-append, verify_from-count}

abbrev pub relink : (AuditEvent → Bytes) → AuditEvent → AuditEvent
relink f e = record e { previous_hash = f e }

verify_from-relink :
    (h : Hasher) (f : AuditEvent → Bytes) (i : ℕ) (prev : Bytes) (xs : List AuditEvent)
    → verify_from h i prev (map (relink f) xs) ≡ verify_from h i prev xs
unfolding verify_from compute_audit_hash
verify_from-relink h f i prev [] = refl
verify_from-relink h f i prev (e ∷ r) = rw (verify_from-relink h f (suc i) e.hash r) refl

-- The stored `previous_hash` fields may be overwritten by anything, in every event, and `Verify`
-- reports the same result.
pub verify-relink :
    (h : Hasher) (f : AuditEvent → Bytes) (s : Store)
    → (verify h (record s { audit_events = map (relink f) s.audit_events })).0 ≡ (verify h s).0
unfolding verify
verify-relink h f s = ap ok (verify_from-relink h f 0 [] s.audit_events)

accepted_prefix :
    (h : Hasher) (xs ys : List AuditEvent)
    → (verify_from h 0 [] (xs ++ ys)).0 ≡ true
    → (verify_from h 0 [] xs).0 ≡ true
accepted_prefix h xs ys v = elim (Bool-cases (verify_from h 0 [] xs).0) [
  | inl p ↦ p
  | inr p ↦ absurd (false≢true (rw (verify_from-append, p) at v))
]

-- If the events `ys` are cut off the end of a log that `Verify` accepts, it accepts what is left,
-- although the store still holds the hash of the last event that was cut off.
pub verify-truncated :
    (h : Hasher) (s : Store) (xs ys : List AuditEvent) (n : ℕ)
    → s.audit_events ≡ xs ++ ys
    → (verify h s).0 ≡ ok (true, n)
    → (verify h (record s { audit_events = xs })).0 ≡ ok (true, length xs)
unfolding verify
verify-truncated h s xs ys n e v =
    let accepted : (verify_from h 0 [] s.audit_events).0 ≡ true = cc in
    let p : (verify_from h 0 [] (xs ++ ys)).0 ≡ true = rw e at accepted in
    let q = accepted_prefix h xs ys p in
    let count : (verify_from h 0 [] xs).1 ≡ length xs =
      (omega (arith, verify_from-count h 0 [] xs q)) in
    ap ok (λ i. (q i, count i))
