-- ===== src/Okta/Memory.antt =====
-- What the detector remembers of an event: adapters/okta/signals.go, `Commit`.
use oiaf.Base.{
  ℕ, ◌-◌, true, not, ◌&&◌, ◌||◌, String, ◌==◌, none, some, List, [], ◌∷◌, ◌++◌, length, ltb,
  filter_by, if◌then◌else◌,
}
use oiaf.Okta.Events.{LogEvent, actor_login, device_fingerprint, geo_label}
use oiaf.Okta.State.{
  IdentityState, State, identity, write_identity, drop, max_geos_per_identity,
  max_devices_per_identity, max_mfa_fails_per_identity,
}
use oiaf.Okta.Signals.{
  Detector, is_mfa_event, is_admin_event, is_failure, is_denied, recent_fails, prune_mfa_times,
}

-- The last `max` entries.
abbrev last_entries : {A : Type 0} → ℕ → List A → List A
last_entries max out = if ltb max (length out) then drop (length out - max) out else out

unfoldable pub append_bounded : List String → String → ℕ → List String
unfolding drop
append_bounded list v max = last_entries max (filter_by (λ s. not (s == v)) list ++ v ∷ [])

abbrev with_geo : LogEvent → IdentityState → IdentityState
with_geo ev id =
    let geo = geo_label ev in
    if geo == ""
    then id
    else record id { last_geo = geo; geos = append_bounded id.geos geo max_geos_per_identity }

abbrev with_location : LogEvent → IdentityState → IdentityState
with_location ev id = elim ev.client.geographic.geolocation [
  | none ↦ id
  | some loc ↦ record id { last_lat = loc.lat; last_lon = loc.lon; has_geo = true }
]

abbrev with_device : LogEvent → IdentityState → IdentityState
with_device ev id =
    let fp = device_fingerprint ev in
    if fp == ""
    then id
    else record id { devices = append_bounded id.devices fp max_devices_per_identity }

abbrev with_admin : LogEvent → IdentityState → IdentityState
with_admin ev id = if is_admin_event ev then record id { admin = true } else id

abbrev with_fails : Detector → LogEvent → IdentityState → IdentityState
with_fails d ev id =
    if is_mfa_event ev && (is_failure ev || is_denied ev)
    then record id { mfa_fails = last_entries max_mfa_fails_per_identity (recent_fails d ev id) }
    else id

unfoldable pub remembered : Detector → LogEvent → IdentityState → IdentityState
unfolding append_bounded drop is_admin_event is_mfa_event prune_mfa_times geo_label
    device_fingerprint
remembered d ev id =
    let id0 = record id { last_seen = ev.published } in
    let id1 = with_geo ev id0 in
    let id2 = with_location ev id1 in
    let id3 = with_device ev id2 in with_fails d ev (with_admin ev id3)

-- An event before the last one does not take the memory back.
unfoldable pub commit : Detector → LogEvent → State → State
unfolding actor_login identity write_identity remembered
commit d ev st =
    let login = actor_login ev in
    let (id, st') = identity d.sort st login in
    if login == ""
    then st
    else if ltb ev.published id.last_seen
    then st'
    else write_identity login (remembered d ev id) st'
