-- ===== src/Storage/AuditLog.antt =====
-- The audit log of `MemoryStore`: core/internal/storage/memory.go. The hash of an event is taken
-- over the previous hash and the event's JSON; `encoding/json` and SHA-256 are a `Hasher`.
pub mod Chain
pub mod Braces
pub mod Tamper
pub mod Search
pub mod Gaps
use oiaf.Base.{
  ℕ, suc, ◌+◌, ℤ, pos, Bool, true, false, not, ◌&&◌, ◌||◌, String, ◌==◌, Option, none, some, List,
  [], ◌∷◌, ◌++◌, ltb, ltb_ℤ, if◌then◌else◌, bytes_eq,
}
use oiaf.Base.Action.{ok}
use oiaf.Json.{Json}
use oiaf.Types.Enums.{Decision, decision_text, target_text}
use oiaf.Types.Entities.{Time, AuditActor, AuditTarget, AuditEvent}
use oiaf.Storage.State.{Store, Db}

abbrev pub Bytes : Type 0
Bytes = List ℕ

-- `auditEventNoHash`: what of an event is hashed.
pub record HashedEvent : Type 0 where
  pub id : String
  pub timestamp : Time
  pub type : String
  pub actor : AuditActor
  pub target : AuditTarget
  pub decision : Option Decision
  pub risk_score : ℕ
  pub reasons : List String
  pub metadata : List (String × Json)
  pub previous_hash : Bytes

-- `json.Marshal`, which may fail, and the hexadecimal text of SHA-256.
pub record Hasher : Type 0 where
  pub marshal : HashedEvent → Option Bytes
  pub sha256_hex : Bytes → Bytes

-- `data, _ := json.Marshal(…)`: a failure leaves no bytes.
abbrev pub or_empty : Option Bytes → Bytes
or_empty none = []
or_empty (some b) = b

abbrev pub no_hash : Bytes → AuditEvent → HashedEvent
no_hash prev e = record {
  id = e.id;
  timestamp = e.timestamp;
  type = e.type;
  actor = e.actor;
  target = e.target;
  decision = e.decision;
  risk_score = e.risk_score;
  reasons = e.reasons;
  metadata = e.metadata;
  previous_hash = prev;
}

unfoldable pub compute_audit_hash : Hasher → Bytes → AuditEvent → Bytes
compute_audit_hash h prev e = h.sha256_hex (prev ++ or_empty (h.marshal (no_hash prev e)))

-- The event as `Append` stores it.
unfoldable pub chained : Hasher → Bytes → AuditEvent → AuditEvent
chained h prev e = record e { previous_hash = prev; hash = compute_audit_hash h prev e }

unfoldable pub append : Hasher → AuditEvent → Db Unit
append h e s =
    let e' = chained h s.audit_last_hash e in
    (ok tt, record s { audit_last_hash = e'.hash; audit_events = s.audit_events ++ e' ∷ [] })

unfoldable pub get_last_hash : Db Bytes
get_last_hash s = (ok s.audit_last_hash, s)

-- The loop of `Verify`, at index `i` with the hash of the event before it.
unfoldable pub verify_from : Hasher → ℕ → Bytes → List AuditEvent → Bool × ℕ
verify_from h i prev [] = (true, i)
verify_from h i prev (e ∷ r) =
    let rest = verify_from h (suc i) e.hash r in
    if bytes_eq e.hash (compute_audit_hash h prev e) then rest else (false, i)

unfoldable pub verify : Hasher → Db (Bool × ℕ)
unfolding verify_from
verify h s = (ok (verify_from h 0 [] s.audit_events), s)

pub record AuditFilter : Type 0 where
  pub identity_id : String
  pub resource_type : String
  pub decision : String
  pub risk_score_min : ℤ
  pub type : String
  pub since : String
  pub until : String
  pub limit : ℤ

abbrev pub event_decision : Option Decision → String
event_decision none = ""
event_decision (some d) = decision_text d

-- `filter.X != "" && value != filter.X`
abbrev pub differs : String → String → Bool
differs wanted value = not (wanted == "") && not (value == wanted)

-- A bound on the time, which counts only if `time.Parse` reads it.
abbrev pub breaks_bound : (String → Option Time) → (Time → Bool) → String → Bool
breaks_bound parse_time test text =
    not (text == "") && elim (parse_time text) [ none ↦ false | some t ↦ test t ]

-- The tests on which the loop of `List` goes on to the next event.
unfoldable pub skipped : (String → Option Time) → AuditFilter → AuditEvent → Bool
skipped parse_time f e =
    differs f.type e.type
    || differs f.decision (event_decision e.decision)
    || differs f.identity_id e.actor.id
    || differs f.resource_type (target_text e.target.type)
    || (ltb_ℤ (pos 0) f.risk_score_min && ltb_ℤ (pos e.risk_score) f.risk_score_min)
    || breaks_bound parse_time (λ since. ltb e.timestamp since) f.since
    || breaks_bound parse_time (λ until. ltb until e.timestamp) f.until

-- `filter.Limit > 0 && len(result) >= filter.Limit`
unfoldable pub is_full : AuditFilter → ℕ → Bool
is_full f taken = ltb_ℤ (pos 0) f.limit && not (ltb_ℤ (pos taken) f.limit)

-- The loop of `List`, with the number of events taken so far.
unfoldable pub list_from :
    (String → Option Time) → AuditFilter → ℕ → List AuditEvent → List AuditEvent
list_from parse_time f taken [] = []
list_from parse_time f taken (e ∷ r) =
    let skip = list_from parse_time f taken r in
    let rest = list_from parse_time f (suc taken) r in
    if skipped parse_time f e then skip else if is_full f (suc taken) then e ∷ [] else e ∷ rest

unfoldable pub list : (String → Option Time) → AuditFilter → Db (List AuditEvent)
unfolding list_from
list parse_time f s = (ok (list_from parse_time f 0 s.audit_events), s)
