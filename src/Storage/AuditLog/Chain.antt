-- ===== src/Storage/AuditLog/Chain.antt =====
-- What the appends build is what `Verify` accepts.
use oiaf.Base.{
  ℕ, suc, ◌+◌, true, ◌≡◌, refl, ap, sym, ◌∙◌, List, [], ◌∷◌, ◌++◌, arith, length, length-append,
  if◌then◌else◌, bytes_eq_self,
}
use native.Mathlib.Nat.{add-zero, suc-add, add-suc}
use oiaf.Base.Action.{ok}
use oiaf.Types.Entities.{AuditEvent}
use oiaf.Storage.State.{Store, new_memory_store}
use oiaf.Storage.AuditLog.{Bytes, Hasher, chained, compute_audit_hash, append, verify, verify_from}

-- The hash of the last event, or `prev` where there is none.
abbrev pub last_hash : Bytes → List AuditEvent → Bytes
last_hash prev [] = prev
last_hash prev (e ∷ r) = last_hash e.hash r

pub last_hash-append :
    (prev : Bytes) (xs : List AuditEvent) (e : AuditEvent) → last_hash prev (xs ++ e ∷ []) ≡ e.hash
last_hash-append prev [] e = refl
last_hash-append prev (x ∷ xs) e = last_hash-append x.hash xs e

-- A log is accepted up to an event exactly if its events before it are.
pub verify_from-append :
    (h : Hasher) (i : ℕ) (prev : Bytes) (xs ys : List AuditEvent)
    → verify_from h i prev (xs ++ ys) ≡ (
        if (verify_from h i prev xs).0
        then verify_from h (i + length xs) (last_hash prev xs) ys
        else verify_from h i prev xs)
unfolding verify_from
verify_from-append h i prev [] ys = rw add-zero
verify_from-append h i prev (x ∷ xs) ys =
    ground (
      arith,
      verify_from-append h (suc i) x.hash xs ys,
      add-suc i (length xs),
      suc-add i (length xs),
    )

-- An accepted log reports its length.
pub verify_from-count :
    (h : Hasher) (i : ℕ) (prev : Bytes) (xs : List AuditEvent)
    → (verify_from h i prev xs).0 ≡ true
    → (verify_from h i prev xs).1 ≡ i + length xs
unfolding verify_from
verify_from-count h i prev [] v = omega arith
verify_from-count h i prev (x ∷ xs) v = ground (arith, verify_from-count h (suc i) x.hash xs)

-- The store's last hash is that of its last event, and `Verify` accepts its log.
pub record IsLinked (h : Hasher) (s : Store) : Type 0 where
  pub last : s.audit_last_hash ≡ last_hash [] s.audit_events
  pub accepted : (verify_from h 0 [] s.audit_events).0 ≡ true

verify_from-chained :
    (h : Hasher) (i : ℕ) (prev : Bytes) (e : AuditEvent)
    → verify_from h i prev (chained h prev e ∷ []) ≡ (true, suc i)
unfolding verify_from chained compute_audit_hash
verify_from-chained h i prev e = rw bytes_eq_self refl

pub append-IsLinked :
    (h : Hasher) (e : AuditEvent) (s : Store) → IsLinked h s → IsLinked h (append h e s).1
unfolding append
append-IsLinked h e s l = record {
  last = sym (last_hash-append [] s.audit_events (chained h s.audit_last_hash e));
  accepted =
      rw verify_from-append
        (rw (l.accepted, ← l.last) (ap (λ r. r.0) (verify_from-chained h _ s.audit_last_hash e)));
}

pub new-IsLinked : (h : Hasher) → IsLinked h new_memory_store
unfolding verify_from
new-IsLinked h = record { last = refl; accepted = refl }

-- `Verify` says of a linked log that it is valid, with the number of its events.
pub verify-IsLinked :
    (h : Hasher) (s : Store) → IsLinked h s → (verify h s).0 ≡ ok (true, length s.audit_events)
unfolding verify
verify-IsLinked h s l =
    let count : (verify_from h 0 [] s.audit_events).1 ≡ length s.audit_events =
      omega (arith, verify_from-count h 0 [] s.audit_events l.accepted) in
    ap ok (λ i. (l.accepted i, count i))

-- The store after a list of appends.
abbrev pub append_all : Hasher → List AuditEvent → Store → Store
append_all h [] s = s
append_all h (e ∷ r) s = append_all h r (append h e s).1

append_all-IsLinked :
    (h : Hasher) (es : List AuditEvent) (s : Store) → IsLinked h s → IsLinked h (append_all h es s)
append_all-IsLinked h [] s l = l
append_all-IsLinked h (e ∷ r) s l = append_all-IsLinked h r _ (append-IsLinked h e s l)

length-append_all :
    (h : Hasher) (es : List AuditEvent) (s : Store)
    → length (append_all h es s).audit_events ≡ length s.audit_events + length es
unfolding append
length-append_all h [] s = omega arith
length-append_all h (e ∷ r) s = omega (
  arith,
  length-append_all h r (append h e s).1,
  length-append {0} s.audit_events (chained h s.audit_last_hash e ∷ []),
)

-- After any events have been appended to a new store, whatever hashes they came with and whether
-- or not their JSON could be made, `Verify` reports a valid log of as many events.
pub verify-append_all :
    (h : Hasher) (es : List AuditEvent)
    → (verify h (append_all h es new_memory_store)).0 ≡ ok (true, length es)
verify-append_all h es =
    verify-IsLinked h _ (append_all-IsLinked h es _ (new-IsLinked h))
    ∙ ap (λ n. ok (true, n)) (omega (arith, length-append_all h es new_memory_store))
