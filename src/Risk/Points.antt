-- ===== src/Risk/Points.antt =====
-- The score of a request is accounted for by its reasons.
use oiaf.Base.{
  ℕ, ◌+◌, Bool, true, false, String, ◌==◌, ◌≡◌, refl, List, [], ◌∷◌, ◌++◌, arith, if◌then◌else◌,
}
use oiaf.Types.Access.{AccessRequest}
use oiaf.Risk.{Tally, add_if, request_rules, account_rules, device_rules, tally}

-- The points of a reason, in the rules of the engine.
abbrev pub points : String → ℕ
points r =
    if r == "privileged_group"
    then 25
    else if r == "resource_sensitivity_high"
    then 20
    else if r == "resource_sensitivity_critical"
    then 30
    else if r == "no_recent_mfa"
    then 15
    else if r == "geo_mismatch"
    then 30
    else if r == "weak_protocol_ntlm"
    then 20
    else if r == "cleartext_ldap_bind"
    then 30
    else if r == "service_account_interactive"
    then 60
    else if r == "service_account_baseline_deviation"
    then 50
    else if r == "stale_account"
    then 20
    else if r == "password_never_expires"
    then 15
    else if r == "spn_bearing_unmanaged"
    then 25
    else if r == "privileged_stale"
    then 40
    else if r == "unmanaged_device"
    then 15
    else if r == "noncompliant_device"
    then 25
    else if r == "bad_ip_reputation"
    then 40
    else if r == "unknown_ip_reputation"
    then 5
    else 0

pub total : List String → ℕ
total [] = 0
total (r ∷ rs) = points r + total rs

total-append : (xs : List String) (r : String) → total (xs ++ r ∷ []) ≡ total xs + points r
unfolding total
total-append [] r = omega arith
total-append (x ∷ xs) r = omega (arith, total-append xs r)

-- A tally whose score is the sum of the points of its reasons.
abbrev IsTallied : Tally → Type 0
IsTallied t = t.score ≡ total t.reasons

add_if-IsTallied :
    (test : Bool) (n : ℕ) (r : String) (t : Tally)
    → points r ≡ n
    → IsTallied t
    → IsTallied (add_if test n r t)
unfolding add_if
add_if-IsTallied true n r t e h = omega (arith, total-append t.reasons r)
add_if-IsTallied false n r t e h = h

request_rules-IsTallied :
    (req : AccessRequest) (t : Tally) → IsTallied t → IsTallied (request_rules req t)
unfolding request_rules
request_rules-IsTallied req t h = add_if-IsTallied _ 30 "cleartext_ldap_bind" _ refl (
    add_if-IsTallied _ 20 "weak_protocol_ntlm" _ refl (
      add_if-IsTallied _ 30 "geo_mismatch" _ refl (
        add_if-IsTallied _ 15 "no_recent_mfa" _ refl (
          add_if-IsTallied _ 30 "resource_sensitivity_critical" _ refl (
            add_if-IsTallied _ 20 "resource_sensitivity_high" _ refl
              (add_if-IsTallied _ 25 "privileged_group" t refl h))))))

account_rules-IsTallied :
    (req : AccessRequest) (t : Tally) → IsTallied t → IsTallied (account_rules req t)
unfolding account_rules
account_rules-IsTallied req t h = add_if-IsTallied _ 40 "privileged_stale" _ refl (
    add_if-IsTallied _ 25 "spn_bearing_unmanaged" _ refl (
      add_if-IsTallied _ 15 "password_never_expires" _ refl (
        add_if-IsTallied _ 20 "stale_account" _ refl (
          add_if-IsTallied _ 50 "service_account_baseline_deviation" _ refl
            (add_if-IsTallied _ 60 "service_account_interactive" t refl h)))))

device_rules-IsTallied :
    (req : AccessRequest) (t : Tally) → IsTallied t → IsTallied (device_rules req t)
unfolding device_rules
device_rules-IsTallied req t h = add_if-IsTallied _ 5 "unknown_ip_reputation" _ refl (
    add_if-IsTallied _ 40 "bad_ip_reputation" _ refl (
      add_if-IsTallied _ 25 "noncompliant_device" _ refl
        (add_if-IsTallied _ 15 "unmanaged_device" t refl h)))

pub tally-IsTallied : (req : AccessRequest) → IsTallied (tally req)
unfolding tally total
tally-IsTallied req =
    device_rules-IsTallied req _
      (account_rules-IsTallied req _ (request_rules-IsTallied req _ refl))
