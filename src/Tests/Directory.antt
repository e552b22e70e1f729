-- ===== src/Tests/Directory.antt =====
-- A directory with two accounts, an observed service account, and the identities of the interface.
use oiaf.Base.{
  ◌↔◌, bytes_eq, ℕ, ◌+◌, ◌-◌, ◌*◌, ◌≡◌, refl, ◌⊎◌, inl, inr, pos, true, false, not, ◌==◌, Option,
  none, some, List, [], ◌∷◌, arith, codes, Bool-cases, eqb, leb, str_eq→eq,
}
use oiaf.Base.Table
use oiaf.Base.Table.{get-empty}
use oiaf.Strconv.{
  trim_space, trim_right, trim_left, is_space, parse_int, signed, parse_uint, parse_digits,
  is_digit,
}
use oiaf.Types.Entities.{Identity}
use oiaf.Types.Directory.{AdInventoryRecord, AdAuthEvent, BehaviouralProfile}
use oiaf.Storage.State.{Store, new_memory_store}
use oiaf.Inventory.{tally, tally_all, summarize, no_accounts, is_stale}
use oiaf.Inventory.FileTime.{parse_file_time, instant, is_never, unix_time, difference}
use oiaf.Inventory.Instants.{IsUnknown, IsInstant, parse_file_time_cases}
use oiaf.Inventory.Counts.{Counted, StaleFor, summarize-Counted}
use oiaf.Discovery.{Engine, ingest}
use oiaf.Discovery.Score.{FloatLib}
use oiaf.Discovery.Profile.{Calendar, Clock}
use oiaf.Discovery.Baseline.{empty_baseline}
use oiaf.Discovery.Consistency.{IsCalendar}
use oiaf.Discovery.Invariant.{AreConsistent, ingest-AreConsistent}
use oiaf.Discovery.Settled.{HasBaseline, AreKeyed, ingest-HasBaseline}
use oiaf.Api.Routes.Collection.{
  Call, creates, reads, updates, deletes, Collection, Represents, serve_all, spec_all,
  serve_all-Represents,
}

-- The first of January 2020 in ticks.
year_2020 : instant (parse_file_time " 132223104000000000") ≡ 63713433600000000000
unfolding parse_file_time instant is_never trim_space trim_right trim_left is_space bytes_eq
    parse_int signed parse_uint parse_digits is_digit unix_time difference
year_2020 = refl

parse_file_time_cases_example :
    ((parse_file_time "132223104000000000" ≡ none)
      × IsUnknown (trim_space (codes "132223104000000000")))
    ⊎ IsInstant (trim_space (codes "132223104000000000")) (parse_file_time "132223104000000000")
parse_file_time_cases_example = parse_file_time_cases "132223104000000000"

abbrev laptop : AdInventoryRecord
laptop = record {
  sid = "S-1-5-21-1-1001";
  sam_account_name = "PC1$";
  display_name = "";
  object_class = "computer";
  user_account_control = pos 4096;
  spns = "HOST/pc1" ∷ [];
  member_of = [];
  last_logon_timestamp = 63713433600000000000;
  pwd_last_set = 0;
  enabled = true;
  ou = "PCs";
  is_gmsa = false;
  is_privileged = false;
}

abbrev scanned : ℕ
scanned = 63813433600000000000

one_stale : (summarize (laptop ∷ []) scanned).stale_accounts ≡ 1
unfolding summarize tally_all tally is_stale
one_stale = refl

summarize-Counted_example :
    Counted scanned (no_accounts scanned) (laptop ∷ []) (summarize (laptop ∷ []) scanned)
    × ((rec : AdInventoryRecord)
        → is_stale scanned rec.last_logon_timestamp ≡ true ↔ StaleFor scanned rec)
summarize-Counted_example = summarize-Counted (laptop ∷ []) scanned

-- Stand-ins for float64: whole numbers.
abbrev floats : FloatLib
floats = record {
  of_int = λ n. n;
  hundredths = λ n. 0;
  add = λ a b. a + b;
  sub = λ a b. a - b;
  mul = λ a b. a * b;
  div = λ a b. a;
  log2 = λ a. a;
  ceil = λ a. a;
  equal = eqb;
  at_least = λ a b. leb b a;
  positive = λ a. not (eqb a 0);
  seconds_between = λ a b. a - b;
}

abbrev calendar : Calendar
calendar = record {
  of_event = λ ev. record { hour = 3; minute = 30; weekday = 1 };
  of_time = λ t. record { hour = 0; minute = 0; weekday = 0 };
}

abbrev engine : Engine
engine = record {
  floats = floats;
  calendar = calendar;
  weights = record {
    temporal = 0;
    source = 0;
    target = 0;
    logon_type = 0;
    protocol = 0;
    ad_attrs = 0;
  };
}

abbrev clock : Clock
clock = record { created = 100; observed = 101; classified = 102 }

abbrev logon : AdAuthEvent
logon = record {
  event_id = pos 4624;
  timestamp = 100;
  account_name = "svc";
  account_domain = "CORP";
  account_sid = "S-1";
  logon_type = pos 3;
  logon_process = "";
  auth_package = "Kerberos";
  source_ip = "10.0.0.1";
  source_port = pos 0;
  target_server = "";
  target_spn = "";
  status = "";
  sub_status = "";
  dc_name = "dc1";
  event_type = "logon";
}

calendar-IsCalendar : IsCalendar calendar
calendar-IsCalendar = record {
  events_fit = λ ev. record { hour_fits = omega arith; weekday_fits = omega arith };
  times_fit = λ t. record { hour_fits = omega arith; weekday_fits = omega arith };
}

new-AreConsistent : AreConsistent new_memory_store
unfolding AreConsistent
new-AreConsistent k p h = cc (get-empty {V = BehaviouralProfile} k)

ingest-AreConsistent_example :
    AreConsistent (ingest engine (λ ev. clock) (logon ∷ logon ∷ []) new_memory_store).1
ingest-AreConsistent_example =
    ingest-AreConsistent engine (λ ev. clock) (logon ∷ logon ∷ []) new_memory_store
      calendar-IsCalendar new-AreConsistent

abbrev settled : BehaviouralProfile
settled = record {
  account_sid = "S-1";
  sam_account_name = "svc";
  observation_start = 1;
  observation_end = 90;
  total_auth_count = 0;
  time_of_day_histogram = [];
  day_of_week_histogram = [];
  source_ips = [];
  target_spns = [];
  logon_types = [];
  auth_packages = [];
  last_event_time = 0;
  inter_arrival_sum = 0;
  inter_arrival_sum_sq = 0;
  inter_arrival_count = 0;
  classification_score = 1;
  classified = true;
  classified_at = 95;
  baseline = some empty_baseline;
}

abbrev with_profile : Store
with_profile = record new_memory_store { behavioural_profiles = ("S-1", settled) ∷ [] }

with_profile-AreKeyed : AreKeyed with_profile
unfolding AreKeyed Table.get
with_profile-AreKeyed k p h = elim (Bool-cases ("S-1" == k)) [
  | inl e ↦ let q : some settled ≡ some p = rw e at h in cc (q, str_eq→eq "S-1" k e)
  | inr e ↦ let q : ◌≡◌ {A = Option BehaviouralProfile} none (some p) = rw e at h in cc q
]

stored : Table.get with_profile.behavioural_profiles "S-1" ≡ some settled
unfolding Table.get
stored = refl

ingest-HasBaseline_example :
    (q : BehaviouralProfile) × (Table.get
        (ingest engine (λ ev. clock) (logon ∷ []) with_profile).1.behavioural_profiles
        "S-1"
      ≡ some q)
    × HasBaseline empty_baseline q
    × AreKeyed (ingest engine (λ ev. clock) (logon ∷ []) with_profile).1
ingest-HasBaseline_example =
    ingest-HasBaseline engine (λ ev. clock) (logon ∷ []) with_profile "S-1" settled empty_baseline
      with_profile-AreKeyed stored (record { is_classified = refl; has_baseline = refl })

abbrev alice : Identity
alice = record {
  id = "";
  username = "alice";
  display_name = "Alice";
  type = "person";
  groups = [];
  email = "";
  privileged = false;
  usual_geo = "";
  attributes = [];
  created_at = 0;
  updated_at = 0;
}

abbrev nobody : Collection
nobody k = none

new-Represents : Represents new_memory_store nobody
new-Represents = record { same = λ k. get-empty k; keyed = λ k v h. cc }

abbrev calls : List Call
calls =
    creates "i1" 5 (some alice)
    ∷ updates 6 "i1" none
    ∷ updates 7 "i2" (some alice)
    ∷ deletes "i1"
    ∷ reads "i1"
    ∷ []

serve_all-Represents_example :
    ((serve_all calls new_memory_store).0 ≡ (spec_all calls nobody).0)
    × Represents (serve_all calls new_memory_store).1 (spec_all calls nobody).1
serve_all-Represents_example = serve_all-Represents calls new_memory_store nobody new-Represents
