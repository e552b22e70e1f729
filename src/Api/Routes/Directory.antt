-- ===== src/Api/Routes/Directory.antt =====
-- The directory's events and inventory in the HTTP interface: core/internal/api/api.go.
use oiaf.Base.{ℕ, pos, Option, none, some, List, [], ◌∷◌, length}
use oiaf.Base.Action.{Result, ok, err, lift, ◌>>=◌}
use oiaf.Json.{number, string, integer}
use oiaf.Types.Enums.{Decision, ActorType, TargetType}
use oiaf.Types.Entities.{Time}
use oiaf.Types.Errors.{Error}
use oiaf.Types.Directory.{AdAuthEvent, AdEventDecision, BehaviouralProfile, AdInventorySummary}
use oiaf.Storage.State.{Store}
use oiaf.Storage.AuditLog.{Hasher}
use oiaf.Audit
use oiaf.Audit.{Stamp, Report}
use oiaf.Discovery
use oiaf.Discovery.{Engine}
use oiaf.Discovery.Profile.{Clock}
use oiaf.Inventory
use oiaf.Inventory.{Scan}
use oiaf.Inventory.Entry.{Attributes}
use oiaf.Api.{Request, internal_error, failed, unavailable, call, body_or_400}

abbrev event_report : AdAuthEvent → Report
event_report ev = record {
  type = "ad.auth_event";
  actor = record { type = ActorType.user; id = ev.account_name };
  target = record { type = TargetType.identity; id = ev.account_sid };
  decision = some Decision.allow;
  risk_score = 0;
  reasons = [];
  metadata =
      ("event_id", number (integer ev.event_id))
      ∷ ("logon_type", number (integer ev.logon_type))
      ∷ ("auth_package", string ev.auth_package)
      ∷ ("source_ip", string ev.source_ip)
      ∷ ("target_spn", string ev.target_spn)
      ∷ ("dc_name", string ev.dc_name)
      ∷ ("event_type", string ev.event_type)
      ∷ [];
}

abbrev deviation_report : AdEventDecision → Report
deviation_report d = record {
  type = "ad.baseline_deviation";
  actor = record { type = ActorType.user; id = d.account_name };
  target = record { type = TargetType.identity; id = d.account_sid };
  decision = some d.decision;
  risk_score = d.risk_score;
  reasons = d.reasons;
  metadata = [];
}

-- A loop of `Emit`, whose errors are dropped.
unfoldable pub emit_all :
    {A : Type 0} → Hasher → (A → Stamp) → (A → Report) → List A → Store → Store
emit_all h stamps report [] s = s
emit_all h stamps report (a ∷ r) s =
    emit_all h stamps report r (Audit.emit h (stamps a) (report a) s).1

-- The number of events, and the decisions.
abbrev Accepted : Type 0
Accepted = ℕ × List AdEventDecision

unfoldable pub handle_ad_events :
    Hasher
    → Engine
    → (AdAuthEvent → Clock)
    → (AdAuthEvent → Stamp)
    → (AdEventDecision → Stamp)
    → Option (List AdAuthEvent)
    → Request Accepted
unfolding Discovery.ingest emit_all
handle_ad_events h e clocks event_stamps decision_stamps body = do
  events ← body_or_400 body
  decisions ← call (λ x. internal_error "event ingestion failed") (Discovery.ingest e clocks events)
  λ s.
      let s1 = emit_all h event_stamps event_report events s in
      let s2 = emit_all h decision_stamps deviation_report decisions s1 in
      (ok (length events, decisions), s2)

unfoldable pub handle_ad_profiles : Request (List BehaviouralProfile)
unfolding Discovery.profiles
handle_ad_profiles = call (λ e. internal_error "failed to list profiles") Discovery.profiles

abbrev scan_report : AdInventorySummary → Report
scan_report summary = record {
  type = "ad.inventory_scan";
  actor = record { type = ActorType.system; id = "oiaf" };
  target = record { type = TargetType.identity; id = "ad-inventory" };
  decision = some Decision.allow;
  risk_score = 0;
  reasons = [];
  metadata =
      ("total_accounts", number (integer (pos summary.total_accounts)))
      ∷ ("service_accounts", number (integer (pos summary.service_accounts)))
      ∷ ("privileged_accounts", number (integer (pos summary.privileged_accounts)))
      ∷ ("stale_accounts", number (integer (pos summary.stale_accounts)))
      ∷ [];
}

-- The scanner is there if it is configured.
unfoldable pub handle_ad_inventory_scan :
    Hasher
    → Option Scan
    → Time
    → Result Error (List Attributes)
    → Stamp
    → Request AdInventorySummary
unfolding Inventory.scan_directory
handle_ad_inventory_scan h none now fetched stamp =
    lift (err (unavailable "inventory scanner not configured"))
handle_ad_inventory_scan h (some scan) now fetched stamp = do
  summary ←
      call (λ e. failed "inventory scan failed: " e) (Inventory.scan_directory scan now fetched)
  λ s. (ok summary, (Audit.emit h stamp (scan_report summary) s).1)
