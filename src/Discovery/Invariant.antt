-- ===== src/Discovery/Invariant.antt =====
-- The profiles that core/internal/discovery/engine.go keeps are consistent.
use oiaf.Base.{
  ◌≡◌, refl, sym, ◌∙◌, true, String, ◌==◌, some, List, [], ◌∷◌, arith, Bool-cases, Option-cases,
  inl, inr,
}
use oiaf.Base.Table
use oiaf.Base.Table.{Table, get-put}
use oiaf.Types.Directory.{AdAuthEvent, BehaviouralProfile}
use oiaf.Storage.State.{Store}
use oiaf.Storage.Profiles
use oiaf.Discovery.Profile.{Clock, new_profile}
use oiaf.Discovery.{Engine, observed, ingest_event, ingest, profile_or}
use oiaf.Discovery.Consistency.{
  Consistent, IsCalendar, update_profile-Consistent, reclassify-Consistent, new_profile-Consistent,
}

-- Every profile that the store holds is consistent.
unfoldable pub AreConsistent : Store → Type 0
AreConsistent s =
    (k : String) (p : BehaviouralProfile)
    → Table.get s.behavioural_profiles k ≡ some p
    → Consistent p

put_value :
    (t : Table BehaviouralProfile) (k j : String) (p q : BehaviouralProfile)
    → (k == j) ≡ true
    → Table.get (Table.put t k p) j ≡ some q
    → p ≡ q
put_value t k j p q same e = cc (get-put t k j p, e, same)

put-AreConsistent :
    (s : Store) (k : String) (p : BehaviouralProfile)
    → Consistent p
    → AreConsistent s
    → AreConsistent (record s { behavioural_profiles = Table.put s.behavioural_profiles k p })
unfolding AreConsistent
put-AreConsistent s k p c h j q e = elim (Bool-cases (k == j)) [
  | inl same ↦ rw (← put_value s.behavioural_profiles k j p q same e) c
  | inr other ↦ h j q (sym (get-put s.behavioural_profiles k j p ∙ rw other refl) ∙ e)
]

before-Consistent :
    (s : Store) (clock : Clock) (ev : AdAuthEvent)
    → AreConsistent s
    → Consistent (profile_or (new_profile clock ev) (Profiles.get ev.account_sid s).0)
unfolding AreConsistent Profiles.get
before-Consistent s clock ev h =
    elim (Option-cases (Table.get s.behavioural_profiles ev.account_sid)) [
      | inl e ↦ rw e (new_profile-Consistent clock ev)
      | inr (p, e) ↦ rw e (h ev.account_sid p e)
    ]

ingest_event-AreConsistent :
    (e : Engine) (clock : Clock) (ev : AdAuthEvent) (s : Store)
    → IsCalendar e.calendar
    → AreConsistent s
    → AreConsistent (ingest_event e clock ev s).1
unfolding ingest_event observed Profiles.upsert
ingest_event-AreConsistent e clock ev s f h = elim (Bool-cases (ev.account_sid == "")) [
  | inl anonymous ↦ rw anonymous h
  | inr named ↦ rw named (
      put-AreConsistent s _ _
        (reclassify-Consistent e clock _ (
          update_profile-Consistent e.floats e.calendar clock _ ev f
            (before-Consistent s clock ev h)))
        h)
]

pub ingest_step :
    (e : Engine) (clocks : AdAuthEvent → Clock) (ev : AdAuthEvent) (r : List AdAuthEvent)
    (s : Store)
    → (ingest e clocks (ev ∷ r) s).1 ≡ (ingest e clocks r (ingest_event e (clocks ev) ev s).1).1
unfolding ingest ingest_event Profiles.upsert
ingest_step e clocks ev r s = ground arith

-- Whatever events are ingested, and in whatever order, every profile that is kept stays consistent:
-- the histograms by hour and by day add up to the number of events, no table counts more than that,
-- the window of observation does not end before it starts, and a baseline is there exactly if the
-- account is classified. The clock is assumed to show hours below 24 and weekdays below 7.
pub ingest-AreConsistent :
    (e : Engine) (clocks : AdAuthEvent → Clock) (events : List AdAuthEvent) (s : Store)
    → IsCalendar e.calendar
    → AreConsistent s
    → AreConsistent (ingest e clocks events s).1
unfolding ingest
ingest-AreConsistent e clocks [] s f h = h
ingest-AreConsistent e clocks (ev ∷ r) s f h =
    rw (ingest_step e clocks ev r s)
      (ingest-AreConsistent e clocks r _ f (ingest_event-AreConsistent e (clocks ev) ev s f h))
