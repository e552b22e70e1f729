-- ===== src/Okta/Signals.antt =====
-- The risk signals of an event: adapters/okta/signals.go. The arithmetic on float64 and the texts of
-- numbers and durations are parameters.
use oiaf.Base.{
  ℕ, ◌+◌, ◌-◌, Bool, true, not, ◌&&◌, ◌||◌, String, ◌==◌, none, some, List, [], ◌∷◌, ◌++◌, codes,
  map, length, is_empty, eqb, leb, ltb, exists_in, filter_by, bytes_eq, if◌then◌else◌,
}
use oiaf.Policy.Values.{is_prefix, contains, lower}
use oiaf.Types.Entities.{Time}
use oiaf.Types.Directory.{Float64}
use oiaf.Okta.Events.{LogEvent, Target, actor_login, device_fingerprint, geo_label}
use oiaf.Okta.State.{IdentityState, State, Sort, identity}

-- `haversineKm`, `Sub(…).Hours()`, the division, the order, and `FormatFloat`, `Itoa`, `String`,
-- `Join`.
pub record SignalLib : Type 0 where
  pub haversine_km : Float64 → Float64 → Float64 → Float64 → Float64
  pub hours_between : Time → Time → Float64
  pub div : Float64 → Float64 → Float64
  pub exceeds : Float64 → Float64 → Bool
  pub zero : Float64
  pub format_float : Float64 → String
  pub itoa : ℕ → String
  pub duration : Time → String
  pub join : List String → String

pub record SignalParams : Type 0 where
  pub fatigue_threshold : ℕ
  pub fatigue_window : Time
  pub max_travel_speed_kmh : Float64

pub record Detector : Type 0 where
  pub lib : SignalLib
  pub sort : Sort
  pub params : SignalParams

pub record Signal : Type 0 where
  pub type : String
  pub login : String
  pub time : Time
  pub ip : String
  pub geo : String
  pub details : List (String × String)

abbrev starts_with : String → String → Bool
starts_with s prefix = is_prefix (codes prefix) (codes s)

abbrev starts_with_one : List String → String → Bool
starts_with_one prefixes s = exists_in (λ p. starts_with s p) prefixes

abbrev admin_event_type_prefixes : List String
admin_event_type_prefixes =
    "user.account." ∷ "user.mfa.factor." ∷ "user.role." ∷ "system.role." ∷ "group.user_membership."
    ∷ "group.privilege." ∷ "policy.lifecycle." ∷ "policy.rule." ∷ "application.user_management."
    ∷ "user.session.clear" ∷ "zone." ∷ []

abbrev mfa_event_type_prefixes : List String
mfa_event_type_prefixes = "user.mfa." ∷ "system.mfa." ∷ "user.authentication.mfa." ∷ []

unfoldable pub is_mfa_event : LogEvent → Bool
is_mfa_event ev = starts_with_one mfa_event_type_prefixes ev.event_type

unfoldable pub is_admin_event : LogEvent → Bool
is_admin_event ev = starts_with_one admin_event_type_prefixes ev.event_type

unfoldable pub is_auth_event : LogEvent → Bool
is_auth_event ev =
    starts_with ev.event_type "user.session."
    || starts_with ev.event_type "user.authentication."
    || starts_with ev.event_type "policy.evaluate_sign_on"

-- The text in lower case, as far as it is compared with Latin letters without marks.
abbrev lowered : String → List ℕ
lowered s = map lower (codes s)

-- `strings.ToUpper`, on the characters whose upper case is a Latin letter without a mark.
unfoldable pub upper : ℕ → ℕ
upper a =
    if leb b'a' a && leb a b'z'
    then a - 32
    else if eqb a 305
    then b'I'
    else if eqb a 383
    then b'S'
    else a

-- The letter that stands for the class of `strings.EqualFold`, for Latin letters without marks.
unfoldable pub fold_letter : ℕ → ℕ
fold_letter a =
    if leb b'A' a && leb a b'Z'
    then a + 32
    else if eqb a 383
    then b's'
    else if eqb a 8490
    then b'k'
    else a

abbrev is_legacy_text : List ℕ → Bool
is_legacy_text lv =
    contains lv (codes "grant_type=password")
    || is_prefix (codes "basic ") lv
    || contains lv (codes "/imap")
    || contains lv (codes "/pop")
    || contains lv (codes "/smtp")

unfoldable pub is_legacy_auth : LogEvent → Bool
is_legacy_auth ev =
    if bytes_eq (lowered ev.credential_type) (codes "password")
      || bytes_eq (lowered ev.credential_type) (codes "basic_auth")
    then true
    else exists_in (λ v. is_legacy_text (lowered v)) ev.debug_data

unfoldable pub contains_string : List String → String → Bool
contains_string list v = exists_in (λ s. s == v) list

-- `cutoff` is `now` less the window; no time lies before the zero time.
unfoldable pub prune_mfa_times : List Time → Time → Time → List Time
prune_mfa_times times now window = filter_by (λ t. leb (now - window) t) times

abbrev pub is_failure : LogEvent → Bool
is_failure ev = bytes_eq (map upper (codes ev.outcome.result)) (codes "FAILURE")

abbrev pub is_denied : LogEvent → Bool
is_denied ev = bytes_eq (map fold_letter (codes ev.event_type)) (codes "user.mfa.okta_verify.deny")

abbrev signal : LogEvent → String → List (String × String) → Signal
signal ev type details = record {
  type = type;
  login = actor_login ev;
  time = ev.published;
  ip = ev.client.ip_address;
  geo = geo_label ev;
  details = details;
}

-- The speed between the last place and this one, where both are known and time has passed.
unfoldable pub travel_signals : Detector → LogEvent → IdentityState → List Signal
travel_signals d ev id = elim ev.client.geographic.geolocation [
  | none ↦ []
  | some loc ↦
      let km = d.lib.haversine_km id.last_lat id.last_lon loc.lat loc.lon in
      let hrs = d.lib.hours_between ev.published id.last_seen in
      let speed = d.lib.div km hrs in
      if id.has_geo
        && d.lib.exceeds hrs d.lib.zero
        && d.lib.exceeds speed d.params.max_travel_speed_kmh
      then signal ev "impossible_travel" (
          ("from_geo", id.last_geo)
          ∷ ("to_geo", geo_label ev)
          ∷ ("distance_km", d.lib.format_float km)
          ∷ ("speed_kmh", d.lib.format_float speed)
          ∷ [])
        ∷ []
      else []
]

unfoldable pub geo_signals : Detector → LogEvent → IdentityState → List Signal
unfolding contains_string
geo_signals d ev id =
    let geo = geo_label ev in
    if not (geo == "") && not (is_empty id.geos) && not (contains_string id.geos geo)
    then signal ev "new_geo" (("geo", geo) ∷ ("known_geos", d.lib.join id.geos) ∷ []) ∷ []
    else []

unfoldable pub device_signals : LogEvent → IdentityState → List Signal
unfolding contains_string
device_signals ev id =
    let fp = device_fingerprint ev in
    if not (fp == "") && not (is_empty id.devices) && not (contains_string id.devices fp)
    then signal ev "new_device" (("user_agent", ev.client.user_agent.raw_user_agent) ∷ []) ∷ []
    else []

unfoldable pub legacy_signals : LogEvent → List Signal
unfolding is_legacy_auth
legacy_signals ev =
    if is_legacy_auth ev
    then signal ev "legacy_auth"
        (("event_type", ev.event_type) ∷ ("credential_type", ev.credential_type) ∷ [])
      ∷ []
    else []

-- The failures of the window, this event's included.
abbrev pub recent_fails : Detector → LogEvent → IdentityState → List Time
recent_fails d ev id =
    prune_mfa_times (id.mfa_fails ++ ev.published ∷ []) ev.published d.params.fatigue_window

unfoldable pub fatigue_signals : Detector → LogEvent → IdentityState → List Signal
unfolding prune_mfa_times
fatigue_signals d ev id =
    let fails = recent_fails d ev id in
    if (is_denied ev || is_failure ev) && leb d.params.fatigue_threshold (length fails)
    then signal ev "mfa_fatigue" (
        ("fail_count", d.lib.itoa (length fails))
        ∷ ("window", d.lib.duration d.params.fatigue_window)
        ∷ [])
      ∷ []
    else []

unfoldable pub mfa_signals : Detector → LogEvent → IdentityState → List Signal
unfolding is_mfa_event fatigue_signals
mfa_signals d ev id =
    let own =
      if is_denied ev
      then signal ev "mfa_deny" (("event_type", ev.event_type) ∷ []) ∷ []
      else if is_failure ev
      then signal ev "mfa_fail" (("event_type", ev.event_type) ∷ ("reason", ev.outcome.reason) ∷ [])
        ∷ []
      else [] in
    if is_mfa_event ev then own ++ fatigue_signals d ev id else []

-- The first target that is named and is not the actor.
unfoldable pub first_target : String → List Target → String
first_target login [] = ""
first_target login (t ∷ r) =
    let rest = first_target login r in
    if not (t.alternate_id == "") && not (t.alternate_id == login) then t.alternate_id else rest

unfoldable pub admin_signals : LogEvent → List Signal
unfolding is_admin_event first_target
admin_signals ev =
    if is_admin_event ev
    then signal ev "admin_action" (
        ("event_type", ev.event_type)
        ∷ ("target", first_target (actor_login ev) ev.targets)
        ∷ ("outcome", ev.outcome.result)
        ∷ [])
      ∷ []
    else []

unfoldable pub failure_signals : LogEvent → List Signal
unfolding is_auth_event is_mfa_event
failure_signals ev =
    if is_failure ev && is_auth_event ev && not (is_mfa_event ev)
    then signal ev "auth_failure"
        (("event_type", ev.event_type) ∷ ("reason", ev.outcome.reason) ∷ [])
      ∷ []
    else []

-- The places are compared only if the event is later than the last one.
unfoldable pub signals_of : Detector → LogEvent → IdentityState → List Signal
unfolding travel_signals geo_signals device_signals legacy_signals mfa_signals admin_signals
    failure_signals
signals_of d ev id =
    let places =
      if ltb id.last_seen ev.published || eqb id.last_seen 0
      then travel_signals d ev id ++ geo_signals d ev id
      else [] in
    places
    ++ device_signals ev id
    ++ legacy_signals ev
    ++ mfa_signals d ev id
    ++ admin_signals ev
    ++ failure_signals ev

-- The memory of the login is made if it is not there, so the state comes back too.
unfoldable pub detect : Detector → LogEvent → State → List Signal × State
unfolding actor_login signals_of identity
detect d ev st =
    let login = actor_login ev in
    let (id, st') = identity d.sort st login in
    if login == "" then ([], st) else (signals_of d ev id, st')
