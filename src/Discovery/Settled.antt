-- ===== src/Discovery/Settled.antt =====
-- What core/internal/discovery/engine.go leaves of an account that is classified.
use oiaf.Base.{
  ◌≡◌, refl, sym, ap, ◌∙◌, true, false, String, ◌==◌, some, List, [], ◌∷◌, arith, Bool-cases,
  Option-cases, inl, inr, str_eq→eq, if◌then◌else◌,
}
use oiaf.Base.Table
use oiaf.Base.Table.{Table, get-put, get-put_self}
use oiaf.Types.Directory.{AdAuthEvent, BehaviouralProfile, ServiceAccountBaseline}
use oiaf.Storage.State.{Store}
use oiaf.Storage.Profiles
use oiaf.Discovery.Score.{FloatLib}
use oiaf.Discovery.Profile.{Calendar, Clock, new_profile, update_profile, counted, with_arrival}
use oiaf.Discovery.{Engine, observed, reclassify, ingest_event, ingest, profile_or}
use oiaf.Discovery.Invariant.{ingest_step}

-- The account is classified, with this baseline.
pub record HasBaseline (b : ServiceAccountBaseline) (p : BehaviouralProfile) : Type 0 where
  pub is_classified : p.classified ≡ true
  pub has_baseline : p.baseline ≡ some b

-- Every profile stands under its account.
unfoldable pub AreKeyed : Store → Type 0
AreKeyed s =
    (k : String) (p : BehaviouralProfile)
    → Table.get s.behavioural_profiles k ≡ some p
    → p.account_sid ≡ k

-- An event leaves these three fields of a profile.
same_account :
    (lib : FloatLib) (cal : Calendar) (clock : Clock) (p : BehaviouralProfile) (ev : AdAuthEvent)
    → (update_profile lib cal clock p ev).account_sid ≡ p.account_sid
unfolding update_profile with_arrival counted
same_account lib cal clock p ev = ground arith

same_classified :
    (lib : FloatLib) (cal : Calendar) (clock : Clock) (p : BehaviouralProfile) (ev : AdAuthEvent)
    → (update_profile lib cal clock p ev).classified ≡ p.classified
unfolding update_profile with_arrival counted
same_classified lib cal clock p ev = ground arith

same_baseline :
    (lib : FloatLib) (cal : Calendar) (clock : Clock) (p : BehaviouralProfile) (ev : AdAuthEvent)
    → (update_profile lib cal clock p ev).baseline ≡ p.baseline
unfolding update_profile with_arrival counted
same_baseline lib cal clock p ev = ground arith

reclassify-account :
    (e : Engine) (clock : Clock) (p : BehaviouralProfile)
    → (reclassify e clock p).account_sid ≡ p.account_sid
unfolding reclassify
reclassify-account e clock p = ground arith

reclassify-classified :
    (e : Engine) (clock : Clock) (p : BehaviouralProfile)
    → p.classified ≡ true
    → reclassify e clock p ≡ p
unfolding reclassify
reclassify-classified e clock p h = rw h refl

observed-account :
    (e : Engine) (clock : Clock) (p : BehaviouralProfile) (ev : AdAuthEvent)
    → (observed e clock p ev).account_sid ≡ p.account_sid
unfolding observed
observed-account e clock p ev =
    reclassify-account e clock _ ∙ same_account e.floats e.calendar clock p ev

observed-HasBaseline :
    (e : Engine) (clock : Clock) (b : ServiceAccountBaseline) (p : BehaviouralProfile)
    (ev : AdAuthEvent)
    → HasBaseline b p
    → HasBaseline b (observed e clock p ev)
unfolding observed
observed-HasBaseline e clock b p ev h =
    rw
      (reclassify-classified e clock (update_profile e.floats e.calendar clock p ev)
        (same_classified e.floats e.calendar clock p ev ∙ h.is_classified))
      (record {
        is_classified = same_classified e.floats e.calendar clock p ev ∙ h.is_classified;
        has_baseline = same_baseline e.floats e.calendar clock p ev ∙ h.has_baseline;
      })

-- The profile that an event finds: the stored one, or a new one of its account.
before : Clock → AdAuthEvent → Store → BehaviouralProfile
before clock ev s = profile_or (new_profile clock ev) (Profiles.get ev.account_sid s).0

before-account :
    (clock : Clock) (ev : AdAuthEvent) (s : Store)
    → AreKeyed s
    → (before clock ev s).account_sid ≡ ev.account_sid
unfolding before AreKeyed Profiles.get new_profile
before-account clock ev s h =
    elim (Option-cases (Table.get s.behavioural_profiles ev.account_sid)) [
      | inl e ↦ rw e refl
      | inr (p, e) ↦ rw e (h ev.account_sid p e)
    ]

before-some :
    (clock : Clock) (ev : AdAuthEvent) (s : Store) (p : BehaviouralProfile)
    → Table.get s.behavioural_profiles ev.account_sid ≡ some p
    → before clock ev s ≡ p
unfolding before Profiles.get
before-some clock ev s p e = rw e refl

-- After an event that names an account, the profile of this account is the one that was observed, and
-- the others are as they were.
after_event :
    (e : Engine) (clock : Clock) (ev : AdAuthEvent) (s : Store) (k : String)
    → AreKeyed s
    → (ev.account_sid == "") ≡ false
    → Table.get (ingest_event e clock ev s).1.behavioural_profiles k ≡ (
        if ev.account_sid == k
        then some (observed e clock (before clock ev s) ev)
        else Table.get s.behavioural_profiles k)
unfolding before ingest_event Profiles.upsert
after_event e clock ev s k h named = rw named (
    get-put s.behavioural_profiles
      (observed e clock (profile_or (new_profile clock ev) (Profiles.get ev.account_sid s).0)
        ev).account_sid
      k _
    ∙ rw (observed-account e clock (before clock ev s) ev ∙ before-account clock ev s h) refl)

ignored_event :
    (e : Engine) (clock : Clock) (ev : AdAuthEvent) (s : Store)
    → (ev.account_sid == "") ≡ true
    → (ingest_event e clock ev s).1 ≡ s
unfolding ingest_event
ignored_event e clock ev s h = rw h refl

some_injective : (p q : BehaviouralProfile) → some p ≡ some q → p ≡ q
some_injective p q h = cc

module _ (e : Engine) (clock : Clock) (ev : AdAuthEvent) (s : Store) where
  -- The profile of the event's own account, afterwards.
  own_event :
      (k : String)
      → AreKeyed s
      → (ev.account_sid == "") ≡ false
      → (ev.account_sid == k) ≡ true
      → Table.get (ingest_event e clock ev s).1.behavioural_profiles k
        ≡ some (observed e clock (before clock ev s) ev)
  own_event k h named same = after_event e clock ev s k h named ∙ rw same refl

  other_event :
      (k : String)
      → AreKeyed s
      → (ev.account_sid == "") ≡ false
      → (ev.account_sid == k) ≡ false
      → Table.get (ingest_event e clock ev s).1.behavioural_profiles k
        ≡ Table.get s.behavioural_profiles k
  other_event k h named other = after_event e clock ev s k h named ∙ rw other refl

  named-AreKeyed :
      AreKeyed s → (ev.account_sid == "") ≡ false → AreKeyed (ingest_event e clock ev s).1
  unfolding AreKeyed
  named-AreKeyed h named k p q = elim (Bool-cases (ev.account_sid == k)) [
    | inl same ↦ rw (← some_injective _ p (sym (own_event k h named same) ∙ q)) (
        observed-account e clock (before clock ev s) ev
        ∙ before-account clock ev s h
        ∙ str_eq→eq ev.account_sid k same)
    | inr other ↦ h k p (sym (other_event k h named other) ∙ q)
  ]

  ingest_event-AreKeyed : AreKeyed s → AreKeyed (ingest_event e clock ev s).1
  ingest_event-AreKeyed h = elim (Bool-cases (ev.account_sid == "")) [
    | inl anonymous ↦ rw (ignored_event e clock ev s anonymous) h
    | inr named ↦ named-AreKeyed h named
  ]

  ingest_event-HasBaseline :
      (k : String) (p : BehaviouralProfile) (b : ServiceAccountBaseline)
      → AreKeyed s
      → Table.get s.behavioural_profiles k ≡ some p
      → HasBaseline b p
      → (q : BehaviouralProfile) × (Table.get (ingest_event e clock ev s).1.behavioural_profiles k
          ≡ some q)
        × HasBaseline b q
  ingest_event-HasBaseline k p b h g c = elim (Bool-cases (ev.account_sid == "")) [
    | inl anonymous ↦ (p, rw (ignored_event e clock ev s anonymous) g, c)
    | inr named ↦ elim (Bool-cases (ev.account_sid == k)) [
      | inl same ↦ (
        observed e clock p ev,
        own_event k h named same
            ∙ ap (λ x. some (observed e clock x ev))
                (before-some clock ev s p (rw (str_eq→eq ev.account_sid k same) g)),
        observed-HasBaseline e clock b p ev c,
      )
      | inr other ↦ (p, other_event k h named other ∙ g, c)
    ]
  ]

-- Once an account is classified, no later events, of whatever accounts and in whatever order, take
-- the classification back or change the baseline that its events are held against. The store is
-- assumed to keep each profile under the account that it names, and the events keep it so.
pub ingest-HasBaseline :
    (e : Engine) (clocks : AdAuthEvent → Clock) (events : List AdAuthEvent) (s : Store) (k : String)
    (p : BehaviouralProfile) (b : ServiceAccountBaseline)
    → AreKeyed s
    → Table.get s.behavioural_profiles k ≡ some p
    → HasBaseline b p
    → (q : BehaviouralProfile) × (Table.get (ingest e clocks events s).1.behavioural_profiles k
        ≡ some q)
      × HasBaseline b q
      × AreKeyed (ingest e clocks events s).1
unfolding ingest
ingest-HasBaseline e clocks [] s k p b h g c = (p, g, c, h)
ingest-HasBaseline e clocks (ev ∷ r) s k p b h g c =
    let (q, g', c') = ingest_event-HasBaseline e (clocks ev) ev s k p b h g c in
    rw (ingest_step e clocks ev r s) (
      ingest-HasBaseline e clocks r (ingest_event e (clocks ev) ev s).1 k q b
        (ingest_event-AreKeyed e (clocks ev) ev s h) g' c')
