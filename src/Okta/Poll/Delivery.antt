-- ===== src/Okta/Poll/Delivery.antt =====
-- What a poll cycle of adapters/okta/poller.go does with each event of its batch.
use mathlib.Core.List.{append_assoc}
use mathlib.Core.Path.{subst}
use oiaf.Base.{
  ◌<◌, ◌++◌, In-append_left, In-append_last, ◌+◌, ◌≤◌, ◌≡◌, refl, sym, ap, ◌∙◌, ◌⊎◌, inl, inr, Bool,
  true, false, String, List, [], ◌∷◌, In, arith,
}
use oiaf.Base.Table
use oiaf.Base.Table.{Table, get-put, get-remove}
use oiaf.Types.Entities.{Time}
use oiaf.Okta.Events.{LogEvent}
use oiaf.Okta.State.{State, is_there}
use oiaf.Okta.Signals.{Detector, Signal, detect}
use oiaf.Okta.Poll.{poll_once, fetched, Sink, Progress, process, run_batch}
use oiaf.Okta.Poll.Emission.{emit_all-delivers, emit_all-refuses}
use oiaf.Okta.Poll.Window.{
  detect-cursor, detect-processed, process-cursor, knows, process-knows, already-knows,
}
use oiaf.Okta.Poll.Batch.{
  offered, processed, stopped, batch_cases, done-extends, done-keeps, sent-keeps,
}

-- The order in which the source gives the events.
abbrev pub AreOrdered : List LogEvent → Type 0
AreOrdered [] = Unit
AreOrdered (ev ∷ r) = ((e : LogEvent) → In e r → ev.published ≤ e.published) × AreOrdered r

-- Okta is asked for the events after the cursor less a millisecond, in nanoseconds.
abbrev pub overlap : Time
overlap = 1000000

-- The next query gives this event again: it lies strictly after the time that is asked from.
abbrev pub IsFetchedAgain : State → LogEvent → Type 0
IsFetchedAgain st ev = st.cursor < ev.published + overlap

-- What the adapter remembers after it has processed these events, one after the other.
abbrev pub replay : Detector → State → List LogEvent → State
replay d st [] = st
replay d st (ev ∷ r) = replay d (process d ev (detect d ev st).1) r

replay-snoc :
    (d : Detector) (st : State) (done : List LogEvent) (ev : LogEvent)
    → replay d st (done ++ ev ∷ []) ≡ process d ev (detect d ev (replay d st done)).1
replay-snoc d st [] ev = refl
replay-snoc d st (x ∷ done) ev = replay-snoc d (process d x (detect d x st).1) done ev

-- An event of an earlier poll or of this batch has the identifier.
abbrev IsKnown : State → Progress → String → Type 0
IsKnown st0 p u = (knows st0 u ≡ true) ⊎ ((f : LogEvent) × In f p.done × (f.uuid ≡ u))

-- The event is processed, and the signals that are detected for it in the memory of the events that
-- were processed before it are delivered.
pub record IsDelivered (d : Detector) (st0 : State) (p : Progress) (e : LogEvent) : Type 0 where
  pub earlier : List LogEvent
  pub later : List LogEvent
  pub is_done : p.done ≡ earlier ++ e ∷ later
  pub all_sent : (sig : Signal) → In sig (detect d e (replay d st0 earlier)).0 → In sig p.sent

-- The sink refused, after all that was delivered, a signal that is detected for an event of the batch
-- in the memory of all that was processed, and the next query gives this event again.
pub record IsDeferred (d : Detector) (sink : Sink) (st0 : State) (batch : List LogEvent)
    (p : Progress) (e : LogEvent) : Type 0 where
  pub failed : LogEvent
  pub in_batch : In failed batch
  pub refused : Signal
  pub detected : In refused (detect d failed (replay d st0 p.done)).0
  pub is_refused : sink p.sent refused ≡ false
  pub again : IsFetchedAgain p.state e

abbrev pub IsHandled : Detector → Sink → State → List LogEvent → Progress → LogEvent → Type 0
IsHandled d sink st0 batch p e =
    IsKnown st0 p e.uuid ⊎ IsDelivered d st0 p e ⊎ IsDeferred d sink st0 batch p e

-- Every identifier of the window is known.
abbrev Explains : State → Progress → Type 0
Explains st0 p = (u : String) → knows p.state u ≡ true → IsKnown st0 p u

module _ (d : Detector) (sink : Sink) (st0 : State) where
  processed-Explains :
      (ev : LogEvent) (r : List LogEvent) (p : Progress)
      → Explains st0 p
      → Explains st0 (processed d sink ev r p)
  processed-Explains ev r p x u h = elim (process-knows d ev (detect d ev p.state).1 u h) [
    | inr e ↦ inr (ev, In-append_last ev p.done, e)
    | inl k ↦
        elim (x u (ap (λ t. is_there (Table.get t u)) (sym (detect-processed d ev p.state)) ∙ k)) [
          | inl q ↦ inl q
          | inr (f, i, e) ↦ inr (f, In-append_left f p.done (ev ∷ []) i, e)
        ]
  ]

  processed-cursor :
      (ev e : LogEvent) (r : List LogEvent) (p : Progress)
      → ev.published ≤ e.published
      → IsFetchedAgain p.state e
      → IsFetchedAgain (processed d sink ev r p).state e
  processed-cursor ev e r p o c =
      ground (arith, process-cursor d ev (detect d ev p.state).1, detect-cursor d ev p.state)

  -- The memory is that of the events that were processed.
  abbrev IsReplayed : Progress → Type 0
  IsReplayed p = p.state ≡ replay d st0 p.done

  processed-IsReplayed :
      (ev : LogEvent) (r : List LogEvent) (p : Progress)
      → IsReplayed p
      → IsReplayed (processed d sink ev r p)
  processed-IsReplayed ev r p m =
      ap (λ st. process d ev (detect d ev st).1) m ∙ sym (replay-snoc d st0 p.done ev)

  module _ (batch : List LogEvent) where
    stopped-IsDeferred :
        (ev e : LogEvent) (r : List LogEvent) (p : Progress)
        → IsReplayed p
        → In ev batch
        → (offered d sink ev r p).1 ≡ false
        → IsFetchedAgain p.state e
        → IsDeferred d sink st0 batch (stopped d sink ev r p) e
    stopped-IsDeferred ev e r p m b k c =
        let (sig, i, n) = emit_all-refuses sink p.sent (detect d ev p.state).0 k in
        record {
          failed = ev;
          in_batch = b;
          refused = sig;
          detected = subst (λ st. In sig (detect d ev st).0) m i;
          is_refused = n;
          again = rw (detect-cursor d ev p.state) c;
        }

    known-IsHandled :
        (ev : LogEvent) (r : List LogEvent) (p : Progress)
        → IsKnown st0 p ev.uuid
        → IsHandled d sink st0 batch (run_batch d sink r p) ev
    known-IsHandled ev r p (inl k) = inl (inl k)
    known-IsHandled ev r p (inr (f, i, e)) = inl (inr (f, done-keeps d sink r p f i, e))

    processed-IsDelivered :
        (ev : LogEvent) (r : List LogEvent) (p : Progress)
        → IsReplayed p
        → (offered d sink ev r p).1 ≡ true
        → IsDelivered d st0 (run_batch d sink r (processed d sink ev r p)) ev
    processed-IsDelivered ev r p m k =
        let (more, e) = done-extends d sink r (processed d sink ev r p) in
        record {
          earlier = p.done;
          later = more;
          is_done = e ∙ append_assoc p.done (ev ∷ []) more;
          all_sent = λ sig i. sent-keeps d sink r (processed d sink ev r p) sig (
              emit_all-delivers sink sig p.sent (detect d ev p.state).0 k
                (subst (λ st. In sig (detect d ev st).0) (sym m) i));
        }

    run_batch-IsHandled :
        (events : List LogEvent) (p : Progress)
        → AreOrdered events
        → ((e : LogEvent) → In e events → In e batch)
        → ((e : LogEvent) → In e events → IsFetchedAgain p.state e)
        → IsReplayed p
        → Explains st0 p
        → (e : LogEvent) → In e events
        → IsHandled d sink st0 batch (run_batch d sink events p) e
    run_batch-IsHandled [] p o b c m x e i = absurd i
    run_batch-IsHandled (ev ∷ r) p o b c m x e (inl same) = rw (← same) (
        batch_cases d sink ev r p (λ q. IsHandled d sink st0 batch q ev)
          (λ h. known-IsHandled ev r p (x ev.uuid (already-knows p.state ev.uuid h)))
          (λ k. inr (inl (processed-IsDelivered ev r p m k)))
          (λ k. inr (inr (stopped-IsDeferred ev ev r p m (b ev (inl refl)) k (c ev (inl refl))))))
    run_batch-IsHandled (ev ∷ r) p (first, o) b c m x e (inr i) =
        batch_cases d sink ev r p (λ q. IsHandled d sink st0 batch q e)
          (λ h. run_batch-IsHandled r p o (λ f j. b f (inr j)) (λ f j. c f (inr j)) m x e i)
          (λ k.
            run_batch-IsHandled r (processed d sink ev r p) o (λ f j. b f (inr j))
              (λ f j. processed-cursor ev f r p (first f j) (c f (inr j)))
              (processed-IsReplayed ev r p m) (processed-Explains ev r p x) e i)
          (λ k. inr (inr (stopped-IsDeferred ev e r p m (b ev (inl refl)) k (c e (inr i)))))

-- No event of a poll is lost. If the source gives the events in the order of their times, and only
-- such as lie after the cursor less a millisecond, then each of them has an identifier that an event
-- processed by this or an earlier poll has; or it is processed, and every signal that is detected for
-- it in the memory of what was processed before it is delivered; or the sink refused a signal that
-- is detected for an event of the batch in the memory of what was processed, and the next query
-- gives the event again.
pub poll_once-IsHandled :
    (d : Detector) (sink : Sink) (saves : Bool) (events : List LogEvent) (st : State)
    → AreOrdered events
    → ((e : LogEvent) → In e events → IsFetchedAgain st e)
    → (e : LogEvent) → In e events
    → IsHandled d sink st events (poll_once d sink saves (fetched events) st).1 e
unfolding poll_once
poll_once-IsHandled d sink saves events st o c e i =
    run_batch-IsHandled d sink st events events (record { state = st; sent = []; done = [] }) o
      (λ f j. j) c refl (λ u k. inl k) e i
