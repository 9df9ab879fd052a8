-- ===== src/Web/RealtimeReconnect/Examples.antt =====
-- A scheduled reconnection that fires, and a second one that dispose cancels.
use volleyball_monitoring_ai.Base.{ℕ, ◌+◌, ◌≤◌, ◌≡◌, refl, true}
use volleyball_monitoring_ai.Web.RealtimeReconnect.{
  Scheduler, initial, connected, dispose, schedule, fire, handle_availability_change, Reachable,
  created, after_schedule, after_fire, Later, same, then_connected, then_schedule, then_change,
}
use volleyball_monitoring_ai.Web.RealtimeReconnect.Disposed.{IsOver, Later-dispose}
use volleyball_monitoring_ai.Web.RealtimeReconnect.Bounded.{pending, IsSound, Reachable-IsSound}

abbrev fired : Scheduler
fired = (fire true (schedule true initial)).scheduler

fired_once : Reachable fired 1 1
unfolding schedule fire initial
fired_once = after_fire true refl (after_schedule true created)

fired_example : IsSound fired × (1 + pending fired ≤ 1)
fired_example = Reachable-IsSound fired 1 1 fired_once

abbrev cancelled : Scheduler
cancelled = dispose (schedule true fired)

-- After it is disposed, a connection opens, a reconnection is asked for and the page is shown again.
abbrev cancelled_later : Scheduler
cancelled_later = (handle_availability_change true (schedule true (connected cancelled))).scheduler

calls_after_dispose : Later cancelled cancelled_later 0
unfolding handle_availability_change schedule connected dispose
calls_after_dispose = then_change true (then_schedule true (then_connected same))

cancelled_example : IsOver cancelled_later × ◌≡◌ {A = ℕ} 0 0
cancelled_example = Later-dispose (schedule true fired) cancelled_later 0 calls_after_dispose
