-- ===== src/Discovery/Baseline.antt =====
-- The baseline of a profile and the test of an event against it: core/internal/discovery/engine.go,
-- `buildBaseline` and `deviates`.
use oiaf.Base.{
  ℕ, ℤ, pos, ◌+◌, ◌*◌, Bool, true, not, ◌&&◌, String, ◌==◌, List, [], ◌∷◌, is_empty, leb, ltb,
  exists_in, if◌then◌else◌,
}
use oiaf.Types.Directory.{AdAuthEvent, BehaviouralProfile, ServiceAccountBaseline, TimeWindow}
use oiaf.Discovery.Score.{FloatLib}
use oiaf.Discovery.Profile.{Calendar, Face, int_eq}

-- The keys that are counted often enough.
unfoldable pub frequent {ℓ} : {K : Type ℓ} → ℕ → List (K × ℕ) → List K
frequent threshold [] = []
frequent threshold ((k, count) ∷ r) =
    let rest = frequent threshold r in if leb threshold count then k ∷ rest else rest

abbrev hour_window : ℕ → TimeWindow
hour_window hour = record {
  start_minute_of_day = hour * 60;
  end_minute_of_day = (hour + 1) * 60;
  days_of_week = [];
}

-- The windows of the hours from this one on.
unfoldable pub frequent_hours : ℕ → ℕ → List ℕ → List TimeWindow
frequent_hours threshold hour [] = []
frequent_hours threshold hour (count ∷ r) =
    let rest = frequent_hours threshold (hour + 1) r in
    if leb threshold count then hour_window hour ∷ rest else rest

abbrev pub empty_baseline : ServiceAccountBaseline
empty_baseline = record {
  allowed_source_ips = [];
  allowed_target_spns = [];
  allowed_logon_types = [];
  allowed_time_windows = [];
  allowed_protocols = [];
}

abbrev pub frequency_threshold : FloatLib → BehaviouralProfile → ℕ
frequency_threshold lib p = lib.ceil (lib.mul (lib.of_int p.total_auth_count) (lib.hundredths 5))

unfoldable pub build_baseline : FloatLib → BehaviouralProfile → ServiceAccountBaseline
build_baseline lib p =
    let threshold = frequency_threshold lib p in
    if lib.equal (lib.of_int p.total_auth_count) (lib.of_int 0) then empty_baseline else record {
      allowed_source_ips = frequent threshold p.source_ips;
      allowed_target_spns = frequent threshold p.target_spns;
      allowed_logon_types = frequent threshold p.logon_types;
      allowed_time_windows = frequent_hours threshold 0 p.time_of_day_histogram;
      allowed_protocols = frequent threshold p.auth_packages;
    }

unfoldable pub contains_str : List String → String → Bool
contains_str slice s = exists_in (λ v. v == s) slice

unfoldable pub contains_int : List ℤ → ℤ → Bool
contains_int slice n = exists_in (λ v. int_eq v n) slice

-- `v != "" && len(allowed) > 0 && !containsStr(allowed, v)`
unfoldable pub strange : List String → String → Bool
strange allowed v = not (v == "") && not (is_empty allowed) && not (contains_str allowed v)

unfoldable pub strange_int : List ℤ → ℤ → Bool
strange_int allowed n =
    not (int_eq n (pos 0)) && not (is_empty allowed) && not (contains_int allowed n)

unfoldable pub in_window : ℕ → List TimeWindow → Bool
in_window minute_of_day windows =
    exists_in
      (λ w. leb w.start_minute_of_day minute_of_day && ltb minute_of_day w.end_minute_of_day)
      windows

abbrev pub minute_of_day : Face → ℕ
minute_of_day face = face.hour * 60 + face.minute

-- The hour of the event's own timestamp, also where it is the zero time.
unfoldable pub deviates : Calendar → ServiceAccountBaseline → AdAuthEvent → Bool
deviates cal b ev =
    if strange b.allowed_source_ips ev.source_ip
    then true
    else if strange b.allowed_target_spns ev.target_spn
    then true
    else if strange_int b.allowed_logon_types ev.logon_type
    then true
    else if strange b.allowed_protocols ev.auth_package
    then true
    else not (is_empty b.allowed_time_windows)
      && not (in_window (minute_of_day (cal.of_event ev)) b.allowed_time_windows)
