-- ===== src/Timers/Ticker/Laws.antt =====
-- Starting and stopping: at most one timer, and none behind a stop.
use fast_port.Prelude.{◌+◌, ◌^◌, ◌<◌, ◌≡◌, ◌≢◌, refl, Bool, true, false, arith, ◌∷◌}
use fast_port.Timers.Queue.{TimerQueue, running, contains, cancel_impl}
use fast_port.Timers.Queue.Invariant.{contains-cancel_impl}
use fast_port.Timers.Queue.History.{Reach}
use fast_port.Timers.Queue.History.Schedule.{added}
use fast_port.Timers.Queue.Promises.{schedule_known}
use fast_port.Timers.Api.{schedule_periodic, cancel}
use fast_port.Timers.Ticker.{Ticker, starts, start_ticker, stop_ticker}

-- A second start behind one that went through changes nothing, whatever the first was given.
pub start_ticker_twice :
    (created again : Bool) (t : Ticker) (q : TimerQueue)
    → let (t', q') = start_ticker created t q in start_ticker again t' q' ≡ (t', q')
unfolding start_ticker
start_ticker_twice created again t q = ground arith

-- A second stop too.
pub stop_ticker_twice :
    (current again : Bool) (t : Ticker) (q : TimerQueue)
    → let (t', q') = stop_ticker current t q in stop_ticker again t' q' ≡ (t', q')
unfolding stop_ticker
stop_ticker_twice current again t q = ground arith

started :
    (t : Ticker) {q : TimerQueue}
    → Reach q
    → q.queue_state ≡ running
    → q.next_id + 1 < 2 ^ 64
    → starts t ≡ true
    → start_ticker true t q ≡ (
      record t { running = true; timer_id = q.next_id },
      record q {
        next_id = q.next_id + 1;
        entries = added true t.tick_interval_ms q.next_id ∷ q.entries;
      },
    )
unfolding start_ticker schedule_periodic
started t r s h g =
    let known = (schedule_known true t.tick_interval_ms r s h).0 in ground (arith, known)

stopped-queue :
    (current : Bool) (t : Ticker) (q : TimerQueue)
    → t.running ≡ true
    → t.timer_id ≢ 0
    → stop_ticker current t q
      ≡ (record t { running = false; timer_id = 0 }, (cancel_impl t.timer_id current q).1)
unfolding stop_ticker cancel
stopped-queue current t q g h = ground arith

-- On a running queue whose ids have not run out, starting an enabled ticker that does not run puts one
-- periodic timer of its interval in front on the map, and stopping takes it off and forgets its id.
pub stop_ticker-start_ticker :
    (t : Ticker) {q : TimerQueue}
    → Reach q
    → q.queue_state ≡ running
    → q.next_id + 1 < 2 ^ 64
    → starts t ≡ true
    → let (t', q') = start_ticker true t q in
      let (t'', q'') = stop_ticker false t' q' in
      (q'.entries ≡ added true t.tick_interval_ms t'.timer_id ∷ q.entries)
      × (contains t'.timer_id q'.entries ≡ true)
      × (t'' ≡ record t { running = false; timer_id = 0 })
      × (contains t'.timer_id q''.entries ≡ false)
unfolding contains
stop_ticker-start_ticker t {q} r s h g =
    let t' : Ticker = record t { running = true; timer_id = q.next_id } in
    let q' : TimerQueue = record q {
      next_id = q.next_id + 1;
      entries = added true t.tick_interval_ms q.next_id ∷ q.entries;
    } in
    let n = (schedule_known true t.tick_interval_ms r s h).1 in
    rw (started t r s h g, stopped-queue false t' q' refl n)
      (refl, ground arith, refl, contains-cancel_impl q.next_id false q' n)
