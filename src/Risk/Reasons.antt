-- ===== src/Risk/Reasons.antt =====
-- The reasons of a score are the risk signals that the request shows.
use oiaf.Base.{pos, Bool, true, false, String, ◌==◌, ◌≡◌, List, [], ◌∷◌, if◌then◌else◌, ltb_ℤ}
use oiaf.Types.Access.{AccessRequest}
use oiaf.Risk.Signals.{IsPrivileged, IsFar, IsService, IsSpn, IsOldPrivileged}

-- The request shows the signal of this reason.
abbrev pub Shows : AccessRequest → String → Type 0
Shows req r =
    if r == "privileged_group"
    then IsPrivileged req
    else if r == "resource_sensitivity_high"
    then req.resource.sensitivity ≡ "high"
    else if r == "resource_sensitivity_critical"
    then req.resource.sensitivity ≡ "critical"
    else if r == "no_recent_mfa"
    then req.context.mfa_recent ≡ false
    else if r == "geo_mismatch"
    then IsFar req
    else if r == "weak_protocol_ntlm"
    then req.protocol.name ≡ "ntlm"
    else if r == "cleartext_ldap_bind"
    then req.protocol.name ≡ "ldap_simple_bind_cleartext"
    else if r == "service_account_interactive"
    then IsService req
    else if r == "service_account_baseline_deviation"
    then req.context.baseline_deviation ≡ true
    else if r == "stale_account"
    then ltb_ℤ (pos 90) req.identity.last_logon_days ≡ true
    else if r == "password_never_expires"
    then req.identity.password_never_expires ≡ true
    else if r == "spn_bearing_unmanaged"
    then IsSpn req
    else if r == "privileged_stale"
    then IsOldPrivileged req
    else if r == "unmanaged_device"
    then req.device.managed ≡ false
    else if r == "noncompliant_device"
    then req.device.compliant ≡ false
    else if r == "bad_ip_reputation"
    then req.source.reputation ≡ "bad"
    else if r == "unknown_ip_reputation"
    then req.source.reputation ≡ "unknown"
    else ⊥

-- All reasons, in the order of the rules.
abbrev pub catalogue : List String
catalogue =
    "privileged_group" ∷ "resource_sensitivity_high" ∷ "resource_sensitivity_critical"
    ∷ "no_recent_mfa" ∷ "geo_mismatch" ∷ "weak_protocol_ntlm" ∷ "cleartext_ldap_bind"
    ∷ "service_account_interactive" ∷ "service_account_baseline_deviation" ∷ "stale_account"
    ∷ "password_never_expires" ∷ "spn_bearing_unmanaged" ∷ "privileged_stale" ∷ "unmanaged_device"
    ∷ "noncompliant_device" ∷ "bad_ip_reputation" ∷ "unknown_ip_reputation" ∷ []
