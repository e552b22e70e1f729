-- ===== src/Api/Routes/Logs.antt =====
-- The audit log of the HTTP interface: core/internal/api/api.go. The query is a function of the
-- parameter's name that gives the empty text where the parameter is missing.
use oiaf.Base.{ℕ, ℤ, pos, Bool, String, ◌==◌, Option, List, codes, if◌then◌else◌}
use oiaf.Types.Entities.{Time, AuditEvent}
use oiaf.Strconv.{value, range, syntax, parse_int}
use oiaf.Storage.AuditLog.{Hasher, AuditFilter}
use oiaf.Audit
use oiaf.Api.{Request, internal_error, call}

-- A number that is set if it is read without an error.
unfoldable pub query_int : String → ℤ
query_int v =
    if v == ""
    then pos 0
    else elim (parse_int (codes v)) [ value n ↦ n | range n ↦ pos 0 | syntax ↦ pos 0 ]

unfoldable pub audit_filter : (String → String) → AuditFilter
unfolding query_int
audit_filter q = record {
  identity_id = q "identity_id";
  resource_type = q "resource_type";
  decision = q "decision";
  risk_score_min = query_int (q "risk_score_min");
  type = q "type";
  since = q "since";
  until = q "until";
  limit = query_int (q "limit");
}

unfoldable pub handle_list_audit_events :
    (String → Option Time) → (String → String) → Request (List AuditEvent)
unfolding audit_filter Audit.list
handle_list_audit_events parse_time q =
    call (λ e. internal_error "failed to list audit events")
      (Audit.list parse_time (audit_filter q))

-- Whether the log is intact, and the number of events.
unfoldable pub handle_verify_audit : Hasher → Request (Bool × ℕ)
unfolding Audit.verify
handle_verify_audit h = call (λ e. internal_error "verification failed") (Audit.verify h)
