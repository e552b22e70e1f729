-- ===== src/Okta/Poll/Window.antt =====
-- The cursor and the window of identifiers in one turn of the loop of adapters/okta/poller.go.
use oiaf.Base.{
  ◌-◌, ◌≡◌, refl, sym, ap, ◌∙◌, ◌⊎◌, inl, inr, Bool, true, String, ◌==◌, List, [], ◌∷◌, ◌++◌, ltb,
  arith, Bool-cases, str_eq→eq, length, take, if◌then◌else◌,
}
use oiaf.Base.Table
use oiaf.Base.Table.{Table, get-put, get-remove}
use oiaf.Okta.Events.{LogEvent}
use oiaf.Okta.State.{
  State, already_processed, mark_processed, trim_window, remove_all, identity, write_identity,
  is_there,
}
use oiaf.Okta.Signals.{Detector, detect}
use oiaf.Okta.Memory.{commit}
use oiaf.Okta.Poll.{advance, process}

-- Neither the memory of a login nor its update touches the cursor or the window.
module _ (d : Detector) (ev : LogEvent) (st : State) where
  pub detect-cursor : (detect d ev st).1.cursor ≡ st.cursor
  unfolding detect identity
  detect-cursor = ground arith

  pub detect-processed : (detect d ev st).1.processed ≡ st.processed
  unfolding detect identity
  detect-processed = ground arith

  pub commit-cursor : (commit d ev st).cursor ≡ st.cursor
  unfolding commit identity write_identity
  commit-cursor = ground arith

  pub commit-processed : (commit d ev st).processed ≡ st.processed
  unfolding commit identity write_identity
  commit-processed = ground arith

pub mark-cursor : (st : State) (u : String) → (mark_processed st u).cursor ≡ st.cursor
unfolding mark_processed trim_window
mark-cursor st u = ground arith

pub advance-processed : (ev : LogEvent) (st : State) → (advance ev st).processed ≡ st.processed
unfolding advance
advance-processed ev st = ground arith

pub process-cursor :
    (d : Detector) (ev : LogEvent) (st : State)
    → (process d ev st).cursor ≡ (if ltb st.cursor ev.published then ev.published else st.cursor)
unfolding process advance
process-cursor d ev st = ground (arith, mark-cursor (commit d ev st) ev.uuid, commit-cursor d ev st)

-- The window only ever learns the event's own identifier.
pub get-remove_all :
    (t : Table (Unit {0})) (us : List String) (v : String)
    → is_there (Table.get (remove_all t us) v) ≡ true
    → is_there (Table.get t v) ≡ true
unfolding remove_all
get-remove_all t [] v h = h
get-remove_all t (u ∷ r) v h =
    let g = get-remove_all (Table.remove t u) r v h in
    elim (Bool-cases (u == v)) [
      | inl p ↦ cc (get-remove t u v, p, g)
      | inr p ↦ cc (get-remove t u v, p, g)
    ]

pub there_after-put :
    (t : Table (Unit {0})) (u v : String)
    → is_there (Table.get (Table.put t u tt) v) ≡ true
    → (is_there (Table.get t v) ≡ true) ⊎ (u ≡ v)
there_after-put t u v h = elim (Bool-cases (u == v)) [
  | inl p ↦ inr (str_eq→eq u v p)
  | inr p ↦ inl (cc (get-put t u v tt, p, h))
]

-- A mark, before the window is trimmed.
pub added : State → String → State
added st u = record st {
  recent_uuids = st.recent_uuids ++ u ∷ [];
  processed = Table.put st.processed u tt;
}

pub trim_cases :
    (st : State)
    → ((trim_window st).processed ≡ st.processed)
      ⊎ ((us : List String) × ((trim_window st).processed ≡ remove_all st.processed us))
unfolding trim_window
trim_cases st = elim (Bool-cases (ltb 4096 (length st.recent_uuids))) [
  | inl p ↦ inr (take (length st.recent_uuids - 4096) st.recent_uuids, rw p refl)
  | inr p ↦ inl (rw p refl)
]

pub mark_cases :
    (st : State) (u : String)
    → (mark_processed st u ≡ st) ⊎ (mark_processed st u ≡ trim_window (added st u))
unfolding mark_processed already_processed added
mark_cases st u = elim (Bool-cases (u == "")) [
  | inl p ↦ inl (rw p refl)
  | inr p ↦ elim (Bool-cases (is_there (Table.get st.processed u))) [
    | inl q ↦ inl (rw (p, q) refl)
    | inr q ↦ inr (rw (p, q) refl)
  ]
]

abbrev pub knows : State → String → Bool
knows st v = is_there (Table.get st.processed v)

pub trim-knows : (st : State) (v : String) → knows (trim_window st) v ≡ true → knows st v ≡ true
trim-knows st v h = elim (trim_cases st) [
  | inl e ↦ ap (λ t. is_there (Table.get t v)) (sym e) ∙ h
  | inr (us, e) ↦ get-remove_all st.processed us v (ap (λ t. is_there (Table.get t v)) (sym e) ∙ h)
]

pub mark-knows :
    (st : State) (u v : String)
    → knows (mark_processed st u) v ≡ true
    → (knows st v ≡ true) ⊎ (u ≡ v)
unfolding added
mark-knows st u v h = elim (mark_cases st u) [
  | inl e ↦ inl (ap (λ t. knows t v) (sym e) ∙ h)
  | inr e ↦
      there_after-put st.processed u v (trim-knows (added st u) v (ap (λ t. knows t v) (sym e) ∙ h))
]

pub process-knows :
    (d : Detector) (ev : LogEvent) (st : State) (v : String)
    → knows (process d ev st) v ≡ true
    → (knows st v ≡ true) ⊎ (ev.uuid ≡ v)
unfolding process
process-knows d ev st v h =
    elim (mark-knows (commit d ev st) ev.uuid v (
      ap (λ t. is_there (Table.get t v))
        (sym (advance-processed ev (mark_processed (commit d ev st) ev.uuid)))
      ∙ h)) [
        | inl k ↦ inl (ap (λ t. is_there (Table.get t v)) (sym (commit-processed d ev st)) ∙ k)
        | inr e ↦ inr e
      ]

pub already-knows : (st : State) (u : String) → already_processed st u ≡ true → knows st u ≡ true
unfolding already_processed
already-knows st u h = ground arith
