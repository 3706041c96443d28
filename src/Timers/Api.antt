-- ===== src/Timers/Api.antt =====
-- The public calls of TimerQueue (LibCommons/TimerQueue.cpp). A command is its task behind a pointer that
-- may be null; what a task does is in the callbacks of `Queue.History`.
use fast_port.Prelude.{ℕ, ◌-◌, ◌*◌, ◌/◌, ◌%◌, ◌^◌, Bool, true, false}
use fast_port.Timers.Queue.{TimerQueue, schedule_impl, cancel_impl}

-- A negative count of 100 ns units as the two words of a FILETIME; the delay is in milliseconds.
unfoldable pub make_relative_due_time : ℕ → ℕ × ℕ
make_relative_due_time delay =
    let bits = (2 ^ 64 - delay * 1000000 / 100 % 2 ^ 64) % 2 ^ 64 in (bits % 2 ^ 32, bits / 2 ^ 32)

unfoldable pub schedule_once : Bool → TimerQueue → ℕ × TimerQueue
schedule_once created q = schedule_impl created false 0 q

unfoldable pub schedule_periodic : Bool → ℕ → TimerQueue → ℕ × TimerQueue
schedule_periodic created interval q = schedule_impl created true interval q

unfoldable pub schedule_once_command : Bool → Bool → TimerQueue → ℕ × TimerQueue
schedule_once_command created false q = (0, q)
schedule_once_command created true q = schedule_once created q

unfoldable pub schedule_periodic_command : Bool → Bool → ℕ → TimerQueue → ℕ × TimerQueue
schedule_periodic_command created false interval q = (0, q)
schedule_periodic_command created true interval q = schedule_periodic created interval q

-- `current` is what IsCurrentCallbackEntry answers.
unfoldable pub cancel : ℕ → Bool → TimerQueue → Bool × TimerQueue
cancel id current q = cancel_impl id current q
