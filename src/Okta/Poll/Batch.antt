-- ===== src/Okta/Poll/Batch.antt =====
-- The loop over the events of a batch in adapters/okta/poller.go.
use mathlib.Core.List.{append-nil, append_assoc}
use oiaf.Base.{
  sym, ◌∙◌, In-append_left, ◌≡◌, refl, inl, inr, Bool, true, false, List, [], ◌∷◌, ◌++◌, In,
  Bool-cases,
}
use oiaf.Okta.Events.{LogEvent}
use oiaf.Okta.State.{State, already_processed}
use oiaf.Okta.Signals.{Detector, Signal, detect}
use oiaf.Okta.Poll.{Sink, Progress, emit_all, process, run_batch}
use oiaf.Okta.Poll.Emission.{emit_all-keeps}

-- One event of the batch.
module _ (d : Detector) (sink : Sink) (ev : LogEvent) (r : List LogEvent) (p : Progress) where
  abbrev pub detected : List Signal × State
  detected = detect d ev p.state

  abbrev pub offered : List Signal × Bool
  offered = emit_all sink p.sent detected.0

  abbrev pub processed : Progress
  processed = record { state = process d ev detected.1; sent = offered.0; done = p.done ++ ev ∷ [] }

  abbrev pub stopped : Progress
  stopped = record p { state = detected.1; sent = offered.0 }

  pub batch-known :
      already_processed p.state ev.uuid ≡ true → run_batch d sink (ev ∷ r) p ≡ run_batch d sink r p
  unfolding run_batch
  batch-known h = rw h refl

  pub batch-processed :
      already_processed p.state ev.uuid ≡ false
      → offered.1 ≡ true
      → run_batch d sink (ev ∷ r) p ≡ run_batch d sink r processed
  unfolding run_batch
  batch-processed h k = rw (h, k) refl

  pub batch-stopped :
      already_processed p.state ev.uuid ≡ false
      → offered.1 ≡ false
      → run_batch d sink (ev ∷ r) p ≡ stopped
  unfolding run_batch
  batch-stopped h k = rw (h, k) refl

  -- What holds in each of the three cases holds of the batch.
  pub batch_cases :
      (P : Progress → Type 0)
      → (already_processed p.state ev.uuid ≡ true → P (run_batch d sink r p))
      → (offered.1 ≡ true → P (run_batch d sink r processed))
      → (offered.1 ≡ false → P stopped)
      → P (run_batch d sink (ev ∷ r) p)
  batch_cases P known done stop = elim (Bool-cases (already_processed p.state ev.uuid)) [
    | inl h ↦ rw (batch-known h) (known h)
    | inr h ↦ elim (Bool-cases offered.1) [
      | inl k ↦ rw (batch-processed h k) (done k)
      | inr k ↦ rw (batch-stopped h k) (stop k)
    ]
  ]

-- What was processed stays so, in its order.
pub done-extends :
    (d : Detector) (sink : Sink) (events : List LogEvent) (p : Progress)
    → (more : List LogEvent) × ((run_batch d sink events p).done ≡ p.done ++ more)
unfolding run_batch
done-extends d sink [] p = ([], sym (append-nil p.done))
done-extends d sink (ev ∷ r) p =
    batch_cases d sink ev r p (λ q. (more : List LogEvent) × (q.done ≡ p.done ++ more))
      (λ h. done-extends d sink r p)
      (λ k.
        let (more, e) = done-extends d sink r (processed d sink ev r p) in
        (ev ∷ more, e ∙ append_assoc p.done (ev ∷ []) more))
      (λ k. ([], sym (append-nil p.done)))

pub done-keeps :
    (d : Detector) (sink : Sink) (events : List LogEvent) (p : Progress) (e : LogEvent)
    → In e p.done
    → In e (run_batch d sink events p).done
done-keeps d sink events p e i =
    let (more, q) = done-extends d sink events p in rw q (In-append_left e p.done more i)

pub sent-keeps :
    (d : Detector) (sink : Sink) (events : List LogEvent) (p : Progress) (sig : Signal)
    → In sig p.sent
    → In sig (run_batch d sink events p).sent
unfolding run_batch
sent-keeps d sink [] p sig i = i
sent-keeps d sink (ev ∷ r) p sig i =
    let kept = emit_all-keeps sink sig p.sent (detect d ev p.state).0 i in
    batch_cases d sink ev r p (λ q. In sig q.sent) (λ h. sent-keeps d sink r p sig i)
      (λ k. sent-keeps d sink r (processed d sink ev r p) sig kept) (λ k. kept)
