-- ===== src/Okta/Poll.antt =====
-- One poll cycle: adapters/okta/poller.go. The sink decides about a signal with what it has got so far;
-- saving the state may fail.
pub mod Emission
pub mod Window
pub mod Batch
pub mod Delivery
use oiaf.Base.{
  ℕ, suc, ◌+◌, Bool, true, false, String, ◌==◌, Option, none, some, List, [], ◌∷◌, ◌++◌, length,
  ltb, if◌then◌else◌,
}
use oiaf.Types.Entities.{Time}
use oiaf.Okta.Events.{LogEvent}
use oiaf.Okta.State.{State, already_processed, mark_processed}
use oiaf.Okta.Signals.{Detector, Signal, detect}
use oiaf.Okta.Memory.{commit}

-- Whether `Emit` succeeds, by the signals that were delivered before.
abbrev pub Sink : Type 0
Sink = List Signal → Signal → Bool

-- The loop over the signals of one event: those delivered, and whether all were.
unfoldable pub emit_all : Sink → List Signal → List Signal → List Signal × Bool
emit_all sink sent [] = (sent, true)
emit_all sink sent (sig ∷ r) =
    let rest = emit_all sink (sent ++ sig ∷ []) r in if sink sent sig then rest else (sent, false)

-- The cursor moves to an event that is later.
unfoldable pub advance : LogEvent → State → State
advance ev st =
    if ltb st.cursor ev.published
    then record st { cursor = ev.published; last_uuid = ev.uuid }
    else st

-- The adapter's state, what was delivered, and the events that were processed.
pub record Progress : Type 0 where
  pub state : State
  pub sent : List Signal
  pub done : List LogEvent

unfoldable pub process : Detector → LogEvent → State → State
process d ev st = advance ev (mark_processed (commit d ev st) ev.uuid)

-- The loop of the batch. It stops at the first event of which a signal is not delivered.
unfoldable pub run_batch : Detector → Sink → List LogEvent → Progress → Progress
unfolding emit_all process
run_batch d sink [] p = p
run_batch d sink (ev ∷ r) p =
    let (signals, st) = detect d ev p.state in
    let (sent, delivered) = emit_all sink p.sent signals in
    let skip = run_batch d sink r p in
    let rest =
      run_batch d sink r
        (record { state = process d ev st; sent = sent; done = p.done ++ ev ∷ [] }) in
    if already_processed p.state ev.uuid
    then skip
    else if delivered
    then rest
    else record p { state = st; sent = sent }

-- What the source gives, and whether the state can be saved.
pub data Fetched : Type 0 where
  fetched : List LogEvent → Fetched
  fetch_failed : String → Fetched

-- The numbers of events processed and signals emitted, or an error.
pub data Polled : Type 0 where
  polled : ℕ → ℕ → Polled
  fetch_error : String → Polled
  save_error : ℕ → ℕ → Polled

unfoldable pub poll_once : Detector → Sink → Bool → Fetched → State → Polled × Progress
unfolding run_batch
poll_once d sink saves (fetch_failed e) st =
    (fetch_error e, record { state = st; sent = []; done = [] })
poll_once d sink saves (fetched events) st =
    let p = run_batch d sink events (record { state = st; sent = []; done = [] }) in
    let processed = length p.done in
    let emitted = length p.sent in
    (if saves then polled processed emitted else save_error processed emitted, p)
