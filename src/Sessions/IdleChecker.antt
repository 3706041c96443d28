-- ===== src/Sessions/IdleChecker.antt =====
-- SessionIdleChecker of LibNetworks/SessionIdleChecker.cpp over the interface of LibNetworks/IIdleAware.ixx:
-- a tick asks the sessions that received nothing for the threshold to end. Times are milliseconds of one
-- clock, none of them negative; the sums stay below 2^63, where the source's subtraction is exact.
pub mod Ticks
mod Tests
use fast_port.Prelude.{
  ℕ, ◌+◌, ◌^◌, ◌%◌, Bool, true, false, Option, none, some, List, [], ◌∷◌, ltb, ◌==◌, if◌then◌else◌,
  add64,
}
use fast_port.Stats.Collector.{Provided, absent, throws, answers}
use fast_port.Timers.Queue.{TimerQueue}
use fast_port.Timers.Ticker.{Ticker, new_ticker, start_ticker, stop_ticker}

-- `request_disconnect` answers whether it returned, and did not throw.
pub record IIdleAware : Type 1 where
  pub Watched : Type 0
  pub get_last_recv_time_ms : Watched → ℕ
  pub request_disconnect : Watched → Bool × Watched

pub record SessionIdleChecker : Type 0 where
  pub ticker : Ticker
  pub threshold_ms : ℕ
  pub disconnect_count : ℕ

abbrev pub make_checker : Bool → ℕ → ℕ → SessionIdleChecker
make_checker enabled interval threshold = record {
  ticker = new_ticker enabled interval;
  threshold_ms = threshold;
  disconnect_count = 0;
}

unfoldable pub start : Bool → SessionIdleChecker → TimerQueue → SessionIdleChecker × TimerQueue
start created c q = let (t, q') = start_ticker created c.ticker q in (record c { ticker = t }, q')

unfoldable pub stop : Bool → SessionIdleChecker → TimerQueue → SessionIdleChecker × TimerQueue
stop current c q = let (t, q') = stop_ticker current c.ticker q in (record c { ticker = t }, q')

module _ (A : IIdleAware) where
  open A use {Watched, get_last_recv_time_ms, request_disconnect}

  -- Whether a session is asked to end: it has received something, the threshold ago or longer.
  abbrev pub is_idle : ℕ → ℕ → Watched → Bool
  is_idle now threshold s =
      if get_last_recv_time_ms s == 0
      then false
      else if ltb now (get_last_recv_time_ms s + threshold)
      then false
      else true

  -- One round of the loop, with the count.
  unfoldable pub check_session : ℕ → ℕ → ℕ → Watched → ℕ × Watched
  check_session now threshold count s =
      if is_idle now threshold s
      then (let (returned, s') = request_disconnect s in
          (if returned then add64 count 1 else count, s'))
      else (count, s)

  unfoldable pub check_sessions : ℕ → ℕ → ℕ → List (Option Watched) → ℕ × List (Option Watched)
  check_sessions now threshold count [] = (count, [])
  check_sessions now threshold count (none ∷ ss) =
      let (count', ss') = check_sessions now threshold count ss in (count', none ∷ ss')
  check_sessions now threshold count (some s ∷ ss) =
      let (count', s') = check_session now threshold count s in
      let (count'', ss') = check_sessions now threshold count' ss in (count'', some s' ∷ ss')

  -- The sessions of the snapshot, as the tick leaves them, stand beside the checker.
  unfoldable pub on_tick :
      ℕ
      → Provided (List (Option Watched))
      → SessionIdleChecker
      → SessionIdleChecker × List (Option Watched)
  on_tick now provided c =
      if c.ticker.running
      then elim provided [
        | absent ↦ (c, [])
        | throws ↦ (c, [])
        | answers snapshot ↦
            let (count, ss) = check_sessions now c.threshold_ms c.disconnect_count snapshot in
            (record c { disconnect_count = count }, ss)
      ]
      else (c, elim provided [ absent ↦ [] | throws ↦ [] | answers snapshot ↦ snapshot ])
