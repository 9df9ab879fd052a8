-- ===== src/Web/RealtimeReconnect.antt =====
-- web/app/lib/realtimeReconnect.ts: the scheduler of reconnections, as a state machine. Whether the
-- browser allows a connection is a parameter of each step, and how long a timer runs is left open.
pub mod Bounded
pub mod Disposed
mod Examples
use volleyball_monitoring_ai.Base.{
  ℕ, zero, suc, ◌+◌, ◌≡◌, Bool, true, false, ◌||◌, not, if◌then◌else◌,
}

-- The variables of the closure; `timer` tells whether one is set.
pub record Scheduler : Type 0 where
  pub attempt : ℕ
  pub disposed : Bool
  pub waiting_for_availability : Bool
  pub timer : Bool

-- The state behind a callback, and how often it has called `reconnect`.
pub record Outcome : Type 0 where
  pub scheduler : Scheduler
  pub reconnects : ℕ

pub initial : Scheduler
initial = record { attempt = 0; disposed = false; waiting_for_availability = false; timer = false }

pub clear_timer : Scheduler → Scheduler
clear_timer s = record s { timer = false }

pub connected : Scheduler → Scheduler
unfolding clear_timer
connected s = clear_timer (record s { attempt = 0; waiting_for_availability = false })

pub dispose : Scheduler → Scheduler
unfolding clear_timer
dispose s = clear_timer (record s { disposed = true; waiting_for_availability = false })

pub schedule : Bool → Scheduler → Scheduler
schedule available s =
    if s.disposed || s.timer || s.waiting_for_availability
    then s
    else if not available
    then (record s { waiting_for_availability = true })
    else (record s { attempt = suc s.attempt; timer = true })

-- The callback of the timer.
pub fire : Bool → Scheduler → Outcome
fire available s =
    if not available
    then (record {
      scheduler = record s { timer = false; waiting_for_availability = true };
      reconnects = 0;
    })
    else (record { scheduler = record s { timer = false }; reconnects = 1 })

pub handle_availability_change : Bool → Scheduler → Outcome
unfolding clear_timer
handle_availability_change available s =
    let kept : Outcome = record { scheduler = s; reconnects = 0 } in
    let parked : Outcome = record {
      scheduler = record (clear_timer s) { waiting_for_availability = true };
      reconnects = 0;
    } in
    let resumed : Outcome = record {
      scheduler = record s { waiting_for_availability = false };
      reconnects = 1;
    } in
    if s.disposed
    then kept
    else if not available
    then (if s.timer then parked else kept)
    else if not s.waiting_for_availability
    then kept
    else resumed

-- The scheduler is reached by some sequence of calls and callbacks, with so many calls of
-- `schedule` and so many of `reconnect`. A timer fires only while it is set.
pub data Reachable : Scheduler → ℕ → ℕ → Type 0 where
  created : Reachable initial 0 0
  after_connected :
      {s : Scheduler} {schedules reconnects : ℕ}
      → Reachable s schedules reconnects
      → Reachable (connected s) schedules reconnects
  after_dispose :
      {s : Scheduler} {schedules reconnects : ℕ}
      → Reachable s schedules reconnects
      → Reachable (dispose s) schedules reconnects
  after_schedule :
      {s : Scheduler} {schedules reconnects : ℕ} (available : Bool)
      → Reachable s schedules reconnects
      → Reachable (schedule available s) (suc schedules) reconnects
  after_fire :
      {s : Scheduler} {schedules reconnects : ℕ} (available : Bool)
      → s.timer ≡ true
      → Reachable s schedules reconnects
      → Reachable
          (fire available s).scheduler
          schedules
          ((fire available s).reconnects + reconnects)
  after_change :
      {s : Scheduler} {schedules reconnects : ℕ} (available : Bool)
      → Reachable s schedules reconnects
      → Reachable
          (handle_availability_change available s).scheduler
          schedules
          ((handle_availability_change available s).reconnects + reconnects)

-- The later scheduler is reached from the first one by some sequence of calls and callbacks, with so
-- many calls of `reconnect`.
pub data Later (first : Scheduler) : Scheduler → ℕ → Type 0 where
  same : Later first first 0
  then_connected :
      {s : Scheduler} {reconnects : ℕ}
      → Later first s reconnects
      → Later first (connected s) reconnects
  then_dispose :
      {s : Scheduler} {reconnects : ℕ}
      → Later first s reconnects
      → Later first (dispose s) reconnects
  then_schedule :
      {s : Scheduler} {reconnects : ℕ} (available : Bool)
      → Later first s reconnects
      → Later first (schedule available s) reconnects
  then_fire :
      {s : Scheduler} {reconnects : ℕ} (available : Bool)
      → s.timer ≡ true
      → Later first s reconnects
      → Later first (fire available s).scheduler ((fire available s).reconnects + reconnects)
  then_change :
      {s : Scheduler} {reconnects : ℕ} (available : Bool)
      → Later first s reconnects
      → Later first
          (handle_availability_change available s).scheduler
          ((handle_availability_change available s).reconnects + reconnects)
