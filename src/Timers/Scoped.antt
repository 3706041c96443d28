-- ===== src/Timers/Scoped.antt =====
-- ScopedTimer (LibCommons/TimerQueue.cpp): a handle that cancels its timer when it dies. Handles point to
-- the one queue that is passed along, or to none.
pub mod Owner
use fast_port.Prelude.{ℕ, Bool, true, false, not, ◌==◌, ◌&&◌, if◌then◌else◌}
use fast_port.Timers.Queue.{TimerQueue}
use fast_port.Timers.Api.{cancel}

pub record ScopedTimer : Type 0 where
  pub has_queue : Bool
  pub id : ℕ

abbrev pub empty : ScopedTimer
empty = record { has_queue = false; id = 0 }

unfoldable pub make_scoped : ℕ → ScopedTimer
make_scoped id = record { has_queue = true; id = id }

abbrev pub is_valid : ScopedTimer → Bool
is_valid t = not (t.id == 0)

-- The destructor's work, which the assignment does too.
unfoldable pub drop_timer : Bool → ScopedTimer → TimerQueue → TimerQueue
drop_timer current t q = if t.has_queue && is_valid t then (cancel t.id current q).1 else q

-- The new handle, and what is left of the old one.
unfoldable pub move_timer : ScopedTimer → ScopedTimer × ScopedTimer
move_timer other = (other, empty)

-- Assignment from another handle: the target, the source and the queue. Assignment to itself does
-- nothing.
unfoldable pub assign_timer :
    Bool → ScopedTimer → ScopedTimer → TimerQueue → ScopedTimer × ScopedTimer × TimerQueue
assign_timer current target other q = (other, empty, drop_timer current target q)

unfoldable pub release_timer : ScopedTimer → ℕ × ScopedTimer
release_timer t = (t.id, empty)
