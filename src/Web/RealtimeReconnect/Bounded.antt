-- ===== src/Web/RealtimeReconnect/Bounded.antt =====
-- Proofs about the scheduler of web/app/lib/realtimeReconnect.ts.
use volleyball_monitoring_ai.Base.{
  ℕ, suc, ◌+◌, ◌≤◌, ◌≡◌, refl, Bool, true, false, ◌||◌, ◌&&◌, if◌then◌else◌, arith,
}
use volleyball_monitoring_ai.Web.RealtimeReconnect.{
  Scheduler, initial, connected, dispose, schedule, fire, handle_availability_change, Reachable,
  created, after_connected, after_dispose, after_schedule, after_fire, after_change,
}

-- How many reconnections are still to come.
abbrev pub pending : Scheduler → ℕ
pending s = if s.timer || s.waiting_for_availability then 1 else 0

-- The timer and the wait exclude each other, and a disposed scheduler has neither.
pub record IsSound (s : Scheduler) : Type 0 where
  pub exclusive : s.timer && s.waiting_for_availability ≡ false
  pub idle : s.disposed && (s.timer || s.waiting_for_availability) ≡ false

initial-IsSound : IsSound initial
unfolding initial
initial-IsSound = record { exclusive = refl; idle = refl }

connected-IsSound : (s : Scheduler) → IsSound s → IsSound (connected s)
unfolding connected
connected-IsSound s h =
    let exclusive = h.exclusive in
    let idle = h.idle in record { exclusive = ground arith; idle = ground arith }

dispose-IsSound : (s : Scheduler) → IsSound (dispose s)
unfolding dispose
dispose-IsSound s = record { exclusive = refl; idle = refl }

schedule-IsSound : (available : Bool) (s : Scheduler) → IsSound s → IsSound (schedule available s)
unfolding schedule
schedule-IsSound available s h =
    let exclusive = h.exclusive in
    let idle = h.idle in record { exclusive = ground arith; idle = ground arith }

fire-IsSound :
    (available : Bool) (s : Scheduler)
    → s.timer ≡ true
    → IsSound s
    → IsSound (fire available s).scheduler
unfolding fire
fire-IsSound available s set h =
    let exclusive = h.exclusive in
    let idle = h.idle in record { exclusive = ground arith; idle = ground arith }

change-IsSound :
    (available : Bool) (s : Scheduler)
    → IsSound s
    → IsSound (handle_availability_change available s).scheduler
unfolding handle_availability_change
change-IsSound available s h =
    let exclusive = h.exclusive in
    let idle = h.idle in record { exclusive = ground arith; idle = ground arith }

initial-pending : pending initial ≡ 0
unfolding initial
initial-pending = refl

connected-pending : (s : Scheduler) → pending (connected s) ≡ 0
unfolding connected
connected-pending s = refl

dispose-pending : (s : Scheduler) → pending (dispose s) ≡ 0
unfolding dispose
dispose-pending s = refl

schedule-pending :
    (available : Bool) (s : Scheduler) → pending (schedule available s) ≤ suc (pending s)
unfolding schedule
schedule-pending available s = ground arith

fire-pending :
    (available : Bool) (s : Scheduler)
    → s.timer ≡ true
    → IsSound s
    → (fire available s).reconnects + pending (fire available s).scheduler ≤ pending s
unfolding fire
fire-pending available s set h = let exclusive = h.exclusive in ground arith

change-pending :
    (available : Bool) (s : Scheduler)
    → IsSound s
    → (handle_availability_change available s).reconnects
        + pending (handle_availability_change available s).scheduler
      ≤ pending s
unfolding handle_availability_change
change-pending available s h = let exclusive = h.exclusive in ground arith

-- A scheduler that any sequence of calls and callbacks leads to never has a timer set while it
-- waits, has neither once it is disposed, and has called `reconnect` at most as often as `schedule`
-- was called, a reconnection that is still to come counted in.
pub Reachable-IsSound :
    (s : Scheduler) (schedules reconnects : ℕ)
    → Reachable s schedules reconnects
    → IsSound s × (reconnects + pending s ≤ schedules)
Reachable-IsSound s n m created = (initial-IsSound, omega (arith, initial-pending))
Reachable-IsSound s n m (after_connected {s = t} r) =
    let (sound, bound) = Reachable-IsSound t n m r in
    (connected-IsSound t sound, omega (arith, connected-pending t))
Reachable-IsSound s n m (after_dispose {s = t} r) =
    let (sound, bound) = Reachable-IsSound t n m r in
    (dispose-IsSound t, omega (arith, dispose-pending t))
Reachable-IsSound s n m (after_schedule {s = t} {schedules = k} available r) =
    let (sound, bound) = Reachable-IsSound t k m r in
    (schedule-IsSound available t sound, omega (arith, schedule-pending available t))
Reachable-IsSound s n m (after_fire {s = t} {reconnects = k} available set r) =
    let (sound, bound) = Reachable-IsSound t n k r in
    (fire-IsSound available t set sound, omega (arith, fire-pending available t set sound))
Reachable-IsSound s n m (after_change {s = t} {reconnects = k} available r) =
    let (sound, bound) = Reachable-IsSound t n k r in
    (change-IsSound available t sound, omega (arith, change-pending available t sound))
