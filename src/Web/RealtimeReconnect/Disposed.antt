-- ===== src/Web/RealtimeReconnect/Disposed.antt =====
-- Proofs about the disposed scheduler of web/app/lib/realtimeReconnect.ts.
use mathlib.Core.Bool.{true≢false}
use volleyball_monitoring_ai.Base.{ℕ, ◌≡◌, refl, sym, ◌∙◌, Bool, true, false, arith}
use volleyball_monitoring_ai.Web.RealtimeReconnect.{
  Scheduler, connected, dispose, schedule, handle_availability_change, Later, same, then_connected,
  then_dispose, then_schedule, then_fire, then_change,
}

-- The scheduler is disposed, and no reconnection of it is to come.
pub record IsOver (s : Scheduler) : Type 0 where
  pub is_disposed : s.disposed ≡ true
  pub no_timer : s.timer ≡ false
  pub no_wait : s.waiting_for_availability ≡ false

dispose-IsOver : (s : Scheduler) → IsOver (dispose s)
unfolding dispose
dispose-IsOver s = record { is_disposed = refl; no_timer = refl; no_wait = refl }

connected-IsOver : (s : Scheduler) → IsOver s → IsOver (connected s)
unfolding connected
connected-IsOver s h = record { is_disposed = h.is_disposed; no_timer = refl; no_wait = refl }

schedule-IsOver : (available : Bool) (s : Scheduler) → IsOver s → IsOver (schedule available s)
unfolding schedule
schedule-IsOver available s h =
    let is_disposed = h.is_disposed in
    let no_timer = h.no_timer in
    let no_wait = h.no_wait in
    record { is_disposed = ground arith; no_timer = ground arith; no_wait = ground arith }

change-IsOver :
    (available : Bool) (s : Scheduler)
    → IsOver s
    → IsOver (handle_availability_change available s).scheduler
      × ((handle_availability_change available s).reconnects ≡ 0)
unfolding handle_availability_change
change-IsOver available s h =
    let is_disposed = h.is_disposed in
    let no_timer = h.no_timer in
    let no_wait = h.no_wait in
    (
      record { is_disposed = ground arith; no_timer = ground arith; no_wait = ground arith },
      ground arith,
    )

-- Whatever calls and callbacks follow a call of `dispose` on any scheduler, calls of `connected` and
-- `schedule` and changes of the availability among them, the scheduler stays disposed, has no timer
-- set and does not wait, and `reconnect` is never called.
pub Later-dispose :
    (s t : Scheduler) (reconnects : ℕ)
    → Later (dispose s) t reconnects
    → IsOver t × (reconnects ≡ 0)
Later-dispose s t n same = (dispose-IsOver s, refl)
Later-dispose s t n (then_connected {s = u} l) =
    let (over, none_called) = Later-dispose s u n l in (connected-IsOver u over, none_called)
Later-dispose s t n (then_dispose {s = u} l) = (dispose-IsOver u, (Later-dispose s u n l).1)
Later-dispose s t n (then_schedule {s = u} available l) =
    let (over, none_called) = Later-dispose s u n l in
    (schedule-IsOver available u over, none_called)
Later-dispose s t n (then_fire {s = u} {reconnects = k} available set l) =
    let (over, none_called) = Later-dispose s u k l in
    let unset = over.no_timer in absurd (true≢false (sym set ∙ unset))
Later-dispose s t n (then_change {s = u} {reconnects = k} available l) =
    let (over, none_called) = Later-dispose s u k l in
    let (still, nothing) = change-IsOver available u over in
    (still, omega (arith, nothing, none_called))
