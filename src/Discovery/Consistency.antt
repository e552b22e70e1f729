-- ===== src/Discovery/Consistency.antt =====
-- The counts of one profile in core/internal/discovery/engine.go.
use oiaf.Base.{
  ℕ, ℤ, pos, zero, suc, ◌+◌, ◌≤◌, ◌<◌, ◌≡◌, refl, ◌∙◌, Bool, true, false, not, ◌&&◌, String, ◌==◌,
  Option, none, some, List, [], ◌∷◌, length, eqb, arith, Bool-cases, inl, inr, if◌then◌else◌,
}
use oiaf.Base.Table
use oiaf.Base.Table.{Table, get-put}
use oiaf.Types.Entities.{Time}
use oiaf.Types.Directory.{Float64, AdAuthEvent, BehaviouralProfile, ServiceAccountBaseline}
use oiaf.Discovery.Score.{FloatLib, classify, sum, int_counts}
use oiaf.Discovery.Profile.{
  Calendar, Clock, Face, new_profile, update_profile, increment, count_key, count_int, int_eq,
  counted, with_arrival, event_face, or_zero,
}
use oiaf.Discovery.{Engine, observation_window_met, reclassify, classified_profile}

abbrev pub is_known : Option ServiceAccountBaseline → Bool
is_known none = false
is_known (some b) = true

-- The events by hour and by day are all the events; the events that name a source, a target, a kind
-- of logon or a protocol are no more than all; the window of observation does not end before it
-- starts; and the baseline is there exactly if the account is classified.
pub record Consistent (p : BehaviouralProfile) : Type 0 where
  pub hours : length p.time_of_day_histogram ≡ 24
  pub days : length p.day_of_week_histogram ≡ 7
  pub by_hour : sum p.time_of_day_histogram ≡ p.total_auth_count
  pub by_day : sum p.day_of_week_histogram ≡ p.total_auth_count
  pub sources : sum (Table.values p.source_ips) ≤ p.total_auth_count
  pub targets : sum (Table.values p.target_spns) ≤ p.total_auth_count
  pub types : sum (int_counts p.logon_types) ≤ p.total_auth_count
  pub protocols : sum (Table.values p.auth_packages) ≤ p.total_auth_count
  pub window : p.observation_start ≤ p.observation_end
  pub baselined : is_known p.baseline ≡ p.classified

-- The clock shows an hour of the day and a day of the week.
pub record IsFace (f : Face) : Type 0 where
  pub hour_fits : f.hour < 24
  pub weekday_fits : f.weekday < 7

pub record IsCalendar (cal : Calendar) : Type 0 where
  pub events_fit : (ev : AdAuthEvent) → IsFace (cal.of_event ev)
  pub times_fit : (t : Time) → IsFace (cal.of_time t)

pub length-increment : (i : ℕ) (h : List ℕ) → length (increment i h) ≡ length h
unfolding increment
length-increment i [] = refl
length-increment zero (n ∷ h) = refl
length-increment (suc i) (n ∷ h) = omega (arith, length-increment i h)

pub sum-increment : (i : ℕ) (h : List ℕ) → i < length h → sum (increment i h) ≡ sum h + 1
unfolding increment sum
sum-increment i [] l = absurd (omega arith)
sum-increment zero (n ∷ h) l = omega arith
sum-increment (suc i) (n ∷ h) l = omega (arith, sum-increment i h (omega arith))

pub sum-put :
    (t : Table ℕ) (k : String)
    → sum (Table.values (Table.put t k (or_zero (Table.get t k) + 1))) ≡ sum (Table.values t) + 1
unfolding Table.values Table.put Table.get sum
sum-put [] k = refl
sum-put ((j, n) ∷ t) k = elim (Bool-cases (j == k)) [
  | inl p ↦ rw p (omega arith)
  | inr p ↦ rw p (omega (arith, sum-put t k))
]

pub sum-count_key :
    (t : Table ℕ) (k : String) (n : ℕ)
    → sum (Table.values t) ≤ n
    → sum (Table.values (count_key t k)) ≤ n + 1
unfolding count_key
sum-count_key t k n h = ground (arith, sum-put t k)

pub sum-count_int :
    (t : List (ℤ × ℕ)) (m : ℤ) → sum (int_counts (count_int t m)) ≡ sum (int_counts t) + 1
unfolding int_counts count_int sum
sum-count_int [] m = refl
sum-count_int ((j, n) ∷ t) m = ground (arith, sum-count_int t m)

pub types_fit :
    (t : List (ℤ × ℕ)) (m : ℤ) (n : ℕ)
    → sum (int_counts t) ≤ n
    → sum (int_counts (if int_eq m (pos 0) then t else count_int t m)) ≤ n + 1
types_fit t m n h = ground (arith, sum-count_int t m)

pub event_face-IsFace :
    (cal : Calendar) (clock : Clock) (ev : AdAuthEvent)
    → IsCalendar cal
    → IsFace (event_face cal clock ev)
event_face-IsFace cal clock ev c = elim (Bool-cases (eqb ev.timestamp 0)) [
  | inl z ↦ rw z (c.times_fit clock.observed)
  | inr z ↦ rw z (c.events_fit ev)
]

pub counted-Consistent :
    (face : Face) (now : Time) (ev : AdAuthEvent) (p : BehaviouralProfile)
    → IsFace face
    → Consistent p
    → Consistent (counted face now ev p)
unfolding counted
counted-Consistent face now ev p f c = record {
  hours = length-increment face.hour _ ∙ c.hours;
  days = length-increment face.weekday _ ∙ c.days;
  by_hour = omega (
    arith,
    sum-increment face.hour p.time_of_day_histogram (omega (arith, f.hour_fits, c.hours)),
    c.by_hour,
  );
  by_day = omega (
    arith,
    sum-increment face.weekday p.day_of_week_histogram (omega (arith, f.weekday_fits, c.days)),
    c.by_day,
  );
  sources = sum-count_key p.source_ips ev.source_ip _ c.sources;
  targets = sum-count_key p.target_spns ev.target_spn _ c.targets;
  types = types_fit p.logon_types ev.logon_type _ c.types;
  protocols = sum-count_key p.auth_packages ev.auth_package _ c.protocols;
  window = ground (arith, c.window);
  baselined = c.baselined;
}

-- The times between the events and the score are no part of it.
pub other_fields :
    (p : BehaviouralProfile) (a b s : Float64) (n : ℕ) (t : Time)
    → Consistent p
    → Consistent (record p {
      inter_arrival_sum = a;
      inter_arrival_sum_sq = b;
      inter_arrival_count = n;
      last_event_time = t;
      classification_score = s;
    })
other_fields p a b s n t c = record {
  hours = c.hours;
  days = c.days;
  by_hour = c.by_hour;
  by_day = c.by_day;
  sources = c.sources;
  targets = c.targets;
  types = c.types;
  protocols = c.protocols;
  window = c.window;
  baselined = c.baselined;
}

pub with_arrival-Consistent :
    (lib : FloatLib) (now : Time) (p : BehaviouralProfile)
    → Consistent p
    → Consistent (with_arrival lib now p)
unfolding with_arrival
with_arrival-Consistent lib now p c = elim (Bool-cases (eqb p.last_event_time 0)) [
  | inl z ↦ rw z (other_fields p _ _ _ _ now c)
  | inr z ↦ elim (Bool-cases (lib.positive (lib.seconds_between now p.last_event_time))) [
    | inl q ↦ rw (z, q) (other_fields p _ _ _ _ now c)
    | inr q ↦ rw (z, q) (other_fields p _ _ _ _ now c)
  ]
]

pub update_profile-Consistent :
    (lib : FloatLib) (cal : Calendar) (clock : Clock) (p : BehaviouralProfile) (ev : AdAuthEvent)
    → IsCalendar cal
    → Consistent p
    → Consistent (update_profile lib cal clock p ev)
unfolding update_profile
update_profile-Consistent lib cal clock p ev f c =
    with_arrival-Consistent lib _ _
      (counted-Consistent _ _ ev p (event_face-IsFace cal clock ev f) c)

pub classified-Consistent :
    (e : Engine) (clock : Clock) (p : BehaviouralProfile)
    → Consistent p
    → Consistent (classified_profile e clock p)
classified-Consistent e clock p c = record {
  hours = c.hours;
  days = c.days;
  by_hour = c.by_hour;
  by_day = c.by_day;
  sources = c.sources;
  targets = c.targets;
  types = c.types;
  protocols = c.protocols;
  window = c.window;
  baselined = refl;
}

pub reclassify-Consistent :
    (e : Engine) (clock : Clock) (p : BehaviouralProfile)
    → Consistent p
    → Consistent (reclassify e clock p)
unfolding reclassify
reclassify-Consistent e clock p c =
    elim (Bool-cases (not p.classified && observation_window_met p)) [
      | inr w ↦ rw w c
      | inl w ↦
          elim (Bool-cases
            (e.floats.at_least (classify e.floats e.weights p) (e.floats.hundredths 75))) [
              | inl q ↦
                  rw (w, q)
                    (classified-Consistent e clock _ (other_fields p _ _ _ _ p.last_event_time c))
              | inr q ↦ rw (w, q) (other_fields p _ _ _ _ p.last_event_time c)
            ]
    ]

pub new_profile-Consistent : (clock : Clock) (ev : AdAuthEvent) → Consistent (new_profile clock ev)
unfolding new_profile Table.values int_counts sum
new_profile-Consistent clock ev = record {
  hours = refl;
  days = refl;
  by_hour = refl;
  by_day = refl;
  sources = omega arith;
  targets = omega arith;
  types = omega arith;
  protocols = omega arith;
  window = omega arith;
  baselined = refl;
}
