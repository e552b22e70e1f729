-- ===== src/Discovery/Profile.antt =====
-- The counts of a profile: core/internal/discovery/engine.go, `newProfile` and `updateProfile`.
use oiaf.Base.{
  ℕ, ℤ, pos, negsuc, zero, suc, ◌+◌, Bool, false, not, String, ◌==◌, Option, none, some, List, [],
  ◌∷◌, ltb, eqb, if◌then◌else◌,
}
use oiaf.Base.Table
use oiaf.Base.Table.{Table}
use oiaf.Types.Entities.{Time}
use oiaf.Types.Directory.{AdAuthEvent, BehaviouralProfile}
use oiaf.Discovery.Score.{FloatLib}

-- What a clock shows at an event's timestamp in the timestamp's own location, and at a time in UTC.
pub record Face : Type 0 where
  pub hour : ℕ
  pub minute : ℕ
  pub weekday : ℕ

pub record Calendar : Type 0 where
  pub of_event : AdAuthEvent → Face
  pub of_time : Time → Face

-- The readings of `time.Now()` during one event.
pub record Clock : Type 0 where
  pub created : Time
  pub observed : Time
  pub classified : Time

unfoldable pub new_profile : Clock → AdAuthEvent → BehaviouralProfile
new_profile clock ev = record {
  account_sid = ev.account_sid;
  sam_account_name = ev.account_name;
  observation_start = clock.created;
  observation_end = clock.created;
  total_auth_count = 0;
  time_of_day_histogram =
      0 ∷ 0 ∷ 0 ∷ 0 ∷ 0 ∷ 0 ∷ 0 ∷ 0 ∷ 0 ∷ 0 ∷ 0 ∷ 0 ∷ 0 ∷ 0 ∷ 0 ∷ 0 ∷ 0 ∷ 0 ∷ 0 ∷ 0 ∷ 0 ∷ 0 ∷ 0 ∷ 0
      ∷ [];
  day_of_week_histogram = 0 ∷ 0 ∷ 0 ∷ 0 ∷ 0 ∷ 0 ∷ 0 ∷ [];
  source_ips = [];
  target_spns = [];
  logon_types = [];
  auth_packages = [];
  last_event_time = 0;
  inter_arrival_sum = 0;
  inter_arrival_sum_sq = 0;
  inter_arrival_count = 0;
  classification_score = 0;
  classified = false;
  classified_at = 0;
  baseline = none;
}

-- `h[i]++` on an array; an index that is out of range, which stops the program, changes nothing.
unfoldable pub increment : ℕ → List ℕ → List ℕ
increment i [] = []
increment zero (n ∷ r) = (n + 1) ∷ r
increment (suc i) (n ∷ r) = n ∷ increment i r

abbrev pub or_zero : Option ℕ → ℕ
or_zero none = 0
or_zero (some n) = n

-- `if key != "" { m[key]++ }`
unfoldable pub count_key : Table ℕ → String → Table ℕ
count_key t k = if k == "" then t else Table.put t k (or_zero (Table.get t k) + 1)

unfoldable pub int_eq : ℤ → ℤ → Bool
int_eq (pos a) (pos b) = eqb a b
int_eq (negsuc a) (negsuc b) = eqb a b
int_eq _ _ = false

-- `m[n]++` on a map from integers
unfoldable pub count_int : List (ℤ × ℕ) → ℤ → List (ℤ × ℕ)
count_int [] n = (n, 1) ∷ []
count_int ((m, c) ∷ r) n =
    let rest = count_int r n in if int_eq m n then (m, c + 1) ∷ r else (m, c) ∷ rest

-- The time since the last event, if it is positive, and the time of the last event.
unfoldable pub with_arrival : FloatLib → Time → BehaviouralProfile → BehaviouralProfile
with_arrival lib now p =
    let delta = lib.seconds_between now p.last_event_time in
    if not (eqb p.last_event_time 0)
    then (if lib.positive delta
        then record p {
          inter_arrival_sum = lib.add p.inter_arrival_sum delta;
          inter_arrival_sum_sq = lib.add p.inter_arrival_sum_sq (lib.mul delta delta);
          inter_arrival_count = p.inter_arrival_count + 1;
          last_event_time = now;
        }
        else record p { last_event_time = now })
    else record p { last_event_time = now }

-- A timestamp that is zero is replaced by the clock.
abbrev pub event_time : Clock → AdAuthEvent → Time
event_time clock ev = if eqb ev.timestamp 0 then clock.observed else ev.timestamp

abbrev pub event_face : Calendar → Clock → AdAuthEvent → Face
event_face cal clock ev = if eqb ev.timestamp 0 then cal.of_time clock.observed else cal.of_event ev

unfoldable pub counted : Face → Time → AdAuthEvent → BehaviouralProfile → BehaviouralProfile
counted face now ev p = record p {
  total_auth_count = p.total_auth_count + 1;
  observation_end = if ltb p.observation_end now then now else p.observation_end;
  observation_start = if ltb now p.observation_start then now else p.observation_start;
  time_of_day_histogram = increment face.hour p.time_of_day_histogram;
  day_of_week_histogram = increment face.weekday p.day_of_week_histogram;
  source_ips = count_key p.source_ips ev.source_ip;
  target_spns = count_key p.target_spns ev.target_spn;
  logon_types =
      if int_eq ev.logon_type (pos 0) then p.logon_types else count_int p.logon_types ev.logon_type;
  auth_packages = count_key p.auth_packages ev.auth_package;
}

unfoldable pub update_profile :
    FloatLib → Calendar → Clock → BehaviouralProfile → AdAuthEvent → BehaviouralProfile
unfolding counted with_arrival
update_profile lib cal clock p ev =
    with_arrival lib (event_time clock ev)
      (counted (event_face cal clock ev) (event_time clock ev) ev p)
