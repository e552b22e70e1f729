-- ===== src/Audit/Agree.antt =====
-- The service and the store compute the same hash.
use oiaf.Base.{◌≡◌, refl, [], ◌∷◌, ◌++◌}
use oiaf.Base.Action.{ok}
use oiaf.Storage.State.{Store}
use oiaf.Storage.AuditLog
use oiaf.Storage.AuditLog.{Hasher}
use oiaf.Storage.AuditLog.Chain.{IsLinked, append-IsLinked}
use oiaf.Audit.{Stamp, Report, new_event, emit}

-- `Emit` succeeds, and the store keeps exactly the event that the service made, with the hash and
-- the previous hash that the service computed, behind the events that were there.
pub emit-stored :
    (h : Hasher) (stamp : Stamp) (r : Report) (s : Store)
    → let e = new_event h stamp r s.audit_last_hash in
      emit h stamp r s
      ≡ (ok tt, record s { audit_events = s.audit_events ++ e ∷ []; audit_last_hash = e.hash })
unfolding emit AuditLog.chained AuditLog.compute_audit_hash
emit-stored h stamp r s = refl

-- Emitting keeps the chain linked.
pub emit-IsLinked :
    (h : Hasher) (stamp : Stamp) (r : Report) (s : Store)
    → IsLinked h s
    → IsLinked h (emit h stamp r s).1
unfolding emit
emit-IsLinked h stamp r s l = append-IsLinked h (new_event h stamp r s.audit_last_hash) s l
