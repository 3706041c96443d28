-- ===== src/Timers/Ticker.antt =====
-- What SessionIdleChecker (LibNetworks/SessionIdleChecker.cpp) and StatsSampler
-- (LibNetworks/StatsSampler.cpp) have in common: a periodic timer on the queue, behind the flags
-- `enabled` and `m_Running` and the id of the timer.
pub mod Laws
use fast_port.Prelude.{ℕ, Bool, true, false, ◌==◌, if◌then◌else◌}
use fast_port.Timers.Queue.{TimerQueue}
use fast_port.Timers.Api.{schedule_periodic, cancel}

pub record Ticker : Type 0 where
  pub enabled : Bool
  pub tick_interval_ms : ℕ
  pub running : Bool
  pub timer_id : ℕ

abbrev pub new_ticker : Bool → ℕ → Ticker
new_ticker enabled interval = record {
  enabled = enabled;
  tick_interval_ms = interval;
  running = false;
  timer_id = 0;
}

-- Whether Start goes past its two guards.
abbrev pub starts : Ticker → Bool
starts t = if t.enabled then (if t.running then false else true) else false

unfoldable pub start_ticker : Bool → Ticker → TimerQueue → Ticker × TimerQueue
start_ticker created t q =
    if starts t
    then (let (id, q') = schedule_periodic created t.tick_interval_ms q in
        (record t { running = true; timer_id = id }, q'))
    else (t, q)

unfoldable pub stop_ticker : Bool → Ticker → TimerQueue → Ticker × TimerQueue
stop_ticker current t q =
    if t.running
    then (
      record t { running = false; timer_id = 0 },
      if t.timer_id == 0 then q else (cancel t.timer_id current q).1,
    )
    else (t, q)
