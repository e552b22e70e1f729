-- ===== src/Discovery.antt =====
-- Behavioural profiles of directory accounts: core/internal/discovery/engine.go. The arithmetic on
-- float64 and the face of a clock are parameters.
pub mod Profile
pub mod Baseline
pub mod Score
pub mod Consistency
pub mod Invariant
pub mod Settled
use oiaf.Base.{
  ℕ, ◌-◌, ◌*◌, Bool, true, false, not, ◌&&◌, String, ◌==◌, Option, none, some, List, [], ◌∷◌, ◌++◌,
  leb, if◌then◌else◌,
}
use oiaf.Base.Action.{Result, ok, err, Action, pure, ◌>>=◌, ◌>>◌}
use oiaf.Types.Enums.{Decision}
use oiaf.Types.Entities.{Time}
use oiaf.Types.Directory.{AdAuthEvent, AdEventDecision, BehaviouralProfile, ServiceAccountBaseline}
use oiaf.Types.Errors.{Error}
use oiaf.Storage.State.{Store, Db}
use oiaf.Storage.Profiles
use Profile.{Calendar, Clock, new_profile, update_profile}
use Score.{FloatLib, Weights, classify}
use Baseline.{build_baseline, deviates}

pub record Engine : Type 0 where
  pub floats : FloatLib
  pub calendar : Calendar
  pub weights : Weights

-- Seven days in nanoseconds. A difference of times that does not fit 64 bits is greater too.
abbrev pub observation_window : ℕ
observation_window = 7 * 86400000000000

unfoldable pub observation_window_met : BehaviouralProfile → Bool
observation_window_met p =
    leb observation_window (p.observation_end - p.observation_start) && leb 10 p.total_auth_count

abbrev pub classified_profile : Engine → Clock → BehaviouralProfile → BehaviouralProfile
classified_profile e clock p = record p {
  classified = true;
  classified_at = clock.classified;
  baseline = some (build_baseline e.floats p);
}

abbrev pub scored : Engine → BehaviouralProfile → BehaviouralProfile
scored e p = record p { classification_score = classify e.floats e.weights p }

-- The score is taken as long as the account is not classified and has been observed for long enough.
unfoldable pub reclassify : Engine → Clock → BehaviouralProfile → BehaviouralProfile
unfolding build_baseline
reclassify e clock p =
    if not p.classified && observation_window_met p
    then (if e.floats.at_least (classify e.floats e.weights p) (e.floats.hundredths 75)
        then classified_profile e clock (scored e p)
        else scored e p)
    else p

abbrev deviation : AdAuthEvent → AdEventDecision
deviation ev = record {
  account_sid = ev.account_sid;
  account_name = ev.account_name;
  decision = Decision.deny;
  risk_score = 100;
  reasons = "service_account_baseline_deviation" ∷ [];
}

-- `profile.Classified && profile.Baseline != nil` and the event deviates.
unfoldable pub verdict : Engine → BehaviouralProfile → AdAuthEvent → List AdEventDecision
verdict e p ev = elim p.baseline [
  | none ↦ []
  | some b ↦ if p.classified && deviates e.calendar b ev then deviation ev ∷ [] else []
]

abbrev pub profile_or : BehaviouralProfile → Result Error BehaviouralProfile → BehaviouralProfile
profile_or p (ok q) = q
profile_or p (err e) = p

-- The profile after an event of its account.
unfoldable pub observed : Engine → Clock → BehaviouralProfile → AdAuthEvent → BehaviouralProfile
unfolding reclassify update_profile
observed e clock p ev = reclassify e clock (update_profile e.floats e.calendar clock p ev)

-- One turn of the loop. The clock is read anew for each event.
unfoldable pub ingest_event : Engine → Clock → AdAuthEvent → Db (List AdEventDecision)
unfolding observed new_profile Profiles.upsert Profiles.get
ingest_event e clock ev s =
    if ev.account_sid == ""
    then (ok [], s)
    else (do
      let before = profile_or (new_profile clock ev) (Profiles.get ev.account_sid s).0
      let after = observed e clock before ev
      Profiles.upsert after
      pure (verdict e after ev))
        s

unfoldable pub ingest :
    Engine → (AdAuthEvent → Clock) → List AdAuthEvent → Db (List AdEventDecision)
ingest e clocks [] = pure []
ingest e clocks (ev ∷ r) = do
  decisions ← ingest_event e (clocks ev) ev
  rest ← ingest e clocks r
  pure (decisions ++ rest)

unfoldable pub profiles : Db (List BehaviouralProfile)
unfolding Profiles.list
profiles = Profiles.list
