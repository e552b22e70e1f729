-- ===== src/Risk.antt =====
-- The rule engine that scores an access request: core/internal/risk/engine.go. `Score` keeps a
-- running score and a list of reasons, which the closure `add` extends; here they are a `Tally`.
pub mod Points
pub mod Signals
pub mod Reasons
pub mod Levels
use oiaf.Base.{
  ℕ, ℤ, pos, ◌+◌, Bool, not, ◌&&◌, ◌||◌, String, ◌==◌, List, [], ◌∷◌, ◌++◌, ltb, leb, ltb_ℤ,
  exists_in, if◌then◌else◌,
}
use oiaf.Types.Access.{AccessRequest, RiskResult}

pub record Thresholds : Type 0 where
  pub low : ℤ
  pub elevated : ℤ
  pub high : ℤ
  pub very_high : ℤ

abbrev pub default_thresholds : Thresholds
default_thresholds = record { low = pos 24; elevated = pos 49; high = pos 74; very_high = pos 89 }

pub record Tally : Type 0 where
  pub score : ℕ
  pub reasons : List String

-- `add(points, reason)` under the test of the rule.
unfoldable pub add_if : Bool → ℕ → String → Tally → Tally
add_if test points reason t =
    if test then record { score = t.score + points; reasons = t.reasons ++ reason ∷ [] } else t

unfoldable pub contains_group : List String → String → Bool
contains_group groups target = exists_in (λ g. g == target) groups

-- The tests of the rules, in the order of the source. A `switch` with two cases is two of them.
unfoldable pub is_privileged_group : AccessRequest → Bool
is_privileged_group req =
    req.identity.privileged
    || contains_group req.identity.groups "Admins"
    || contains_group req.identity.groups "Domain Admins"

unfoldable pub is_geo_mismatch : AccessRequest → Bool
is_geo_mismatch req =
    not (req.source.geo == "")
    && not (req.identity.usual_geo == "")
    && not (req.source.geo == req.identity.usual_geo)

-- Rules for the identity's groups, the resource, recent MFA, geography and protocol.
unfoldable pub request_rules : AccessRequest → Tally → Tally
request_rules req t0 =
    let t1 = add_if (is_privileged_group req) 25 "privileged_group" t0 in
    let t2 = add_if (req.resource.sensitivity == "high") 20 "resource_sensitivity_high" t1 in
    let t3 =
      add_if (req.resource.sensitivity == "critical") 30 "resource_sensitivity_critical" t2 in
    let t4 = add_if (not req.context.mfa_recent) 15 "no_recent_mfa" t3 in
    let t5 = add_if (is_geo_mismatch req) 30 "geo_mismatch" t4 in
    let t6 = add_if (req.protocol.name == "ntlm") 20 "weak_protocol_ntlm" t5 in
    add_if (req.protocol.name == "ldap_simple_bind_cleartext") 30 "cleartext_ldap_bind" t6

-- Rules for the account: service use, baseline, staleness, password and service principal.
unfoldable pub account_rules : AccessRequest → Tally → Tally
account_rules req t0 =
    let t1 =
      add_if (req.identity.type == "service_account" && req.context.interactive) 60
        "service_account_interactive" t0 in
    let t2 = add_if req.context.baseline_deviation 50 "service_account_baseline_deviation" t1 in
    let t3 = add_if (ltb_ℤ (pos 90) req.identity.last_logon_days) 20 "stale_account" t2 in
    let t4 = add_if req.identity.password_never_expires 15 "password_never_expires" t3 in
    let t5 =
      add_if (req.identity.has_spn && not req.identity.is_gmsa) 25 "spn_bearing_unmanaged" t4 in
    add_if (req.identity.privileged && ltb_ℤ (pos 30) req.identity.last_logon_days) 40
      "privileged_stale" t5

-- Rules for the device and the reputation of the source address.
unfoldable pub device_rules : AccessRequest → Tally → Tally
device_rules req t0 =
    let t1 = add_if (not req.device.managed) 15 "unmanaged_device" t0 in
    let t2 = add_if (not req.device.compliant) 25 "noncompliant_device" t1 in
    let t3 = add_if (req.source.reputation == "bad") 40 "bad_ip_reputation" t2 in
    add_if (req.source.reputation == "unknown") 5 "unknown_ip_reputation" t3

unfoldable pub tally : AccessRequest → Tally
tally req =
    device_rules req (account_rules req (request_rules req (record { score = 0; reasons = [] })))

-- `if score > 100 { score = 100 }`
unfoldable pub capped : ℕ → ℕ
capped n = if ltb 100 n then 100 else n

-- score <= bound, for a score that is not negative
abbrev within : ℕ → ℤ → Bool
within n bound = not (ltb_ℤ bound (pos n))

unfoldable pub level : Thresholds → ℕ → String
unfolding ltb_ℤ
level t n =
    if within n t.low
    then "low"
    else if within n t.elevated
    then "elevated"
    else if within n t.high
    then "high"
    else if within n t.very_high
    then "very_high"
    else "critical"

unfoldable pub score : Thresholds → AccessRequest → RiskResult
unfolding tally capped
score t req =
    let n = capped (tally req).score in
    record { score = n; level = level t n; reasons = (tally req).reasons }
