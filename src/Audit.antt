-- ===== src/Audit.antt =====
-- The audit service: core/internal/audit/audit.go. It computes the hash of an event before it
-- hands the event to the store, which computes it again.
pub mod Agree
use oiaf.Base.{ℕ, String, Option, List, [], ◌++◌, Bool}
use oiaf.Base.Action.{ok, ◌>>=◌}
use oiaf.Json.{Json}
use oiaf.Types.Enums.{Decision}
use oiaf.Types.Entities.{Time, AuditActor, AuditTarget, AuditEvent}
use oiaf.Storage.State.{Store, Db}
use oiaf.Storage.AuditLog
use oiaf.Storage.AuditLog.{Bytes, Hasher, AuditFilter, no_hash, or_empty}

-- `types.NewID()` and `time.Now()` for one event.
pub record Stamp : Type 0 where
  pub id : String
  pub time : Time

-- The arguments of `Emit`.
pub record Report : Type 0 where
  pub type : String
  pub actor : AuditActor
  pub target : AuditTarget
  pub decision : Option Decision
  pub risk_score : ℕ
  pub reasons : List String
  pub metadata : List (String × Json)

unfoldable pub compute_hash : Hasher → Bytes → AuditEvent → Bytes
compute_hash h prev e = h.sha256_hex (prev ++ or_empty (h.marshal (no_hash e.previous_hash e)))

-- The event that `Emit` hands to the store.
unfoldable pub new_event : Hasher → Stamp → Report → Bytes → AuditEvent
unfolding compute_hash
new_event h stamp r prev =
    let e : AuditEvent = record {
      id = stamp.id;
      timestamp = stamp.time;
      type = r.type;
      actor = r.actor;
      target = r.target;
      decision = r.decision;
      risk_score = r.risk_score;
      reasons = r.reasons;
      metadata = r.metadata;
      previous_hash = prev;
      hash = [];
    } in
    record e { hash = compute_hash h prev e }

unfoldable pub emit : Hasher → Stamp → Report → Db Unit
unfolding new_event AuditLog.get_last_hash AuditLog.append
emit h stamp r = do prev ← AuditLog.get_last_hash; AuditLog.append h (new_event h stamp r prev)

unfoldable pub list : (String → Option Time) → AuditFilter → Db (List AuditEvent)
list parse_time f = AuditLog.list parse_time f

unfoldable pub verify : Hasher → Db (Bool × ℕ)
verify h = AuditLog.verify h
