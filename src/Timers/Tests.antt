-- ===== src/Timers/Tests.antt =====
-- A timer queue on a concrete history: a periodic timer is scheduled, fires, cancels itself from inside
-- its callback, and the callback returns; then the queue is shut down.
use fast_port.Prelude.{◌+◌, ◌≡◌, refl, sym, subst, true, false, [], ◌∷◌, arith}
use mathlib.Core.List.{Memᴰ}
use fast_port.Timers.Queue.{
  cancelled, dead, Entry, TimerQueue, make, allocate_id, contains, at, schedule_impl, begin_entry,
  close_handle, finished, end_entry, cancel_entry, cancel_impl, begin_shutdown, end_shutdown,
  listed_ids,
}
use fast_port.Timers.Queue.Invariant.{open_handles}
use fast_port.Timers.Queue.History.{
  with_entry, schedules, fires, returns, cancels, shuts_down, is_dead, Reach, here, next,
}
use fast_port.Timers.Api.{make_relative_due_time}
use fast_port.Timers.Ticker.{Ticker, new_ticker}
use fast_port.Timers.Queue.Promises.{handles_balance, cancelled_is_closed}

abbrev one : TimerQueue
one = (schedule_impl true true 50 make).1

abbrev fired : TimerQueue
fired = with_entry 1 (λ e. (begin_entry e).1) one

abbrev stopped : TimerQueue
stopped = (cancel_impl 1 true fired).1

abbrev over : TimerQueue
over = with_entry 1 end_entry stopped

abbrev closed : Entry
closed = record {
  id = 1;
  state = cancelled;
  is_periodic = true;
  interval = 50;
  handle = false;
  close_after_callback = false;
  listed = false;
  fired = true;
  callbacks = 0;
  waiting = false;
  closes = 1;
}

over-entries : over.entries ≡ closed ∷ []
unfolding schedule_impl allocate_id contains at begin_entry cancel_impl cancel_entry end_entry
    close_handle finished
over-entries = refl

over-Reach : Reach over
unfolding schedule_impl allocate_id contains at begin_entry cancel_impl cancel_entry
over-Reach =
    next
      (next
        (next (next here (schedules true true 50 (omega arith)))
          (fires 1 ((λ same. (refl, λ p. ground arith)), tt)))
        (cancels 1 true ((λ same c. ground arith), tt)))
      (returns 1 ((λ same. ground arith), tt))

closed-Memᴰ : Memᴰ closed over.entries
closed-Memᴰ = subst (λ es. Memᴰ closed es) (sym over-entries) (Memᴰ.head refl)

handles_balance_example : closed.closes + open_handles closed ≡ 1
handles_balance_example = handles_balance over-Reach closed-Memᴰ

cancelled_is_closed_example : closed.closes ≡ 1
cancelled_is_closed_example = cancelled_is_closed over-Reach closed-Memᴰ refl refl refl

abbrev ended : TimerQueue
ended = end_shutdown (begin_shutdown over)

ended-Reach : Reach ended
unfolding begin_shutdown listed_ids schedule_impl allocate_id contains at begin_entry cancel_impl
    cancel_entry end_entry close_handle finished
ended-Reach = next (next over-Reach shuts_down) (is_dead refl refl)

ended-dead : ended.queue_state ≡ dead
unfolding end_shutdown
ended-dead = refl

abbrev ticker : Ticker
ticker = new_ticker true 1000

-- A delay of 10 ms is a due time of minus 100000.
due_10 : make_relative_due_time 10 ≡ (4294867296, 4294967295)
unfolding make_relative_due_time
due_10 = refl
