-- ===== src/Timers/Queue/History.antt =====
-- Any history of a timer queue: calls from anywhere, callbacks that the system starts and that end, and
-- waits that are over, in any order. ScheduleImpl is one step.
pub mod Schedule
pub mod Cancel
pub mod Shutdown
use fast_port.Prelude.{
  ℕ, ◌+◌, ◌-◌, ◌%◌, ◌^◌, ◌⊎◌, ◌<◌, ◌≡◌, ◌≢◌, Bool, true, false, refl, List, [], ◌∷◌, ◌==◌,
  if◌then◌else◌, arith, All, Bool_cases, eq_cases, ap, sym, ◌∙◌, inl, inr,
}
use fast_port.Timers.Queue.{
  EntryState, scheduled, running, completed, cancelled, QueueState, shutting_down, dead, Entry,
  TimerQueue, make, allocate_id, contains, at, schedule_impl, begin_entry, close_handle, end_entry,
  cancel_entry, close_entry, cancel_impl, listed_ids, begin_shutdown, cancel_next, end_shutdown,
}
use fast_port.Timers.Queue.Invariant.{
  Sound, begin_entry-Sound, end_entry-Sound, cancel_entry-Sound, close_entry-Sound, Each, at-keeps,
  at-All, elem, Within, listed_ids-Within, contains_below, contains_unlisted,
}

-- An entry's step in a queue.
abbrev pub with_entry : ℕ → (Entry → Entry) → TimerQueue → TimerQueue
with_entry id f q = record q { entries = at id f q.entries }

pub data Step (q : TimerQueue) : TimerQueue → Type 0 where
  schedules :
      (created is_periodic : Bool) (interval : ℕ)
      → q.next_id + 1 < 2 ^ 64
      → Step q (schedule_impl created is_periodic interval q).1
  -- The system fires what has a handle, and a one-shot timer once.
  fires :
      (id : ℕ)
      → Each id (λ e. (e.handle ≡ true) × (e.is_periodic ≡ false → e.fired ≡ false)) q.entries
      → Step q (with_entry id (λ e. (begin_entry e).1) q)
  returns : (id : ℕ) → Each id (λ e. e.callbacks ≢ 0) q.entries → Step q (with_entry id end_entry q)
  -- From inside a callback of the entry, or from elsewhere.
  cancels :
      (id : ℕ) (current : Bool)
      → Each id (λ e. current ≡ true → e.callbacks ≢ 0) q.entries
      → Step q (cancel_impl id current q).1
  -- WaitForThreadpoolTimerCallbacks returns when no callback is left.
  waited :
      (id : ℕ)
      → Each id (λ e. (e.waiting ≡ true) × (e.callbacks ≡ 0)) q.entries
      → Step q (with_entry id close_entry q)
  shuts_down : Step q (begin_shutdown q)
  cancels_next :
      (current : Bool)
      → All (λ e. current ≡ true → e.callbacks ≢ 0) q.entries
      → Step q (cancel_next current q)
  is_dead : q.queue_state ≡ shutting_down → q.pending ≡ [] → Step q (end_shutdown q)

pub data Reach : TimerQueue → Type 0 where
  here : Reach make
  next : {q r : TimerQueue} → Reach q → Step q r → Reach r

pub record Inv (q : TimerQueue) : Type 0 where
  pub sound : All Sound q.entries
  pub refused : q.queue_state ≢ running → All (Within q.pending) q.entries
  pub emptied : q.queue_state ≡ dead → q.pending ≡ []
  pub fresh : All (λ e. e.id < q.next_id) q.entries
  pub small : 0 < q.next_id
