-- ===== src/Timers/Queue.antt =====
-- TimerQueue::Impl of LibCommons/TimerQueue.cpp. An entry is shared by the map and by its callbacks, so
-- the entries stay in one list, the newest first, and `listed` says whether `m_Entries` still holds one.
-- RunEntry and CancelImpl are two functions each: RunEntry before and after the task runs, CancelImpl
-- before and after it has waited for the callbacks.
pub mod Invariant
pub mod History
pub mod Promises
use fast_port.Prelude.{
  ℕ, zero, suc, ◌+◌, ◌-◌, ◌^◌, ◌%◌, Bool, true, false, not, List, [], ◌∷◌, ◌==◌, if◌then◌else◌,
}

pub data EntryState : Type 0 where
  scheduled running completed cancelled : EntryState

pub data QueueState : Type 0 where
  running shutting_down dead : QueueState

pub record Entry : Type 0 where
  pub id : ℕ
  pub state : EntryState
  pub is_periodic : Bool
  pub interval : ℕ
  -- Whether the handle is not null.
  pub handle : Bool
  pub close_after_callback : Bool
  pub listed : Bool
  -- Whether the system has fired it, the callbacks inside the task, whether a cancel waits for them,
  -- and how often CloseThreadpoolTimer was called.
  pub fired : Bool
  pub callbacks : ℕ
  pub waiting : Bool
  pub closes : ℕ

pub record TimerQueue : Type 0 where
  pub entries : List Entry
  pub next_id : ℕ
  pub queue_state : QueueState
  -- The ids that a running Shutdown has still to cancel.
  pub pending : List ℕ

abbrev pub make : TimerQueue
make = record { entries = []; next_id = 1; queue_state = running; pending = [] }

abbrev pub next : ℕ → ℕ
next n = (n + 1) % 2 ^ 64

-- The id, and the next one.
unfoldable pub allocate_id : ℕ → ℕ × ℕ
allocate_id n = if n == 0 then (next n, next (next n)) else (n, next n)

-- The map's `find`.
unfoldable pub contains : ℕ → List Entry → Bool
contains id [] = false
contains id (e ∷ es) =
    if e.id == id then (if e.listed then true else contains id es) else contains id es

-- What a call does to the entry that it was given.
unfoldable pub at : ℕ → (Entry → Entry) → List Entry → List Entry
at id f [] = []
at id f (e ∷ es) = (if e.id == id then f e else e) ∷ at id f es

-- `created` is whether CreateThreadpoolTimer gave a handle.
unfoldable pub schedule_impl : Bool → Bool → ℕ → TimerQueue → ℕ × TimerQueue
schedule_impl created is_periodic interval q = elim q.queue_state [
  | running ↦
      let (id, next_id) = allocate_id q.next_id in
      if created
      then (
        id,
        record q {
          next_id = next_id;
          entries =
              record {
                id = id;
                state = scheduled;
                is_periodic = is_periodic;
                interval = interval;
                handle = true;
                close_after_callback = false;
                listed = not (contains id q.entries);
                fired = false;
                callbacks = 0;
                waiting = false;
                closes = 0;
              }
              ∷ q.entries;
        },
      )
      else (0, record q { next_id = next_id })
  | shutting_down ↦ (0, q)
  | dead ↦ (0, q)
]

-- RunEntry up to the task: whether the task starts.
unfoldable pub begin_entry : Entry → Bool × Entry
begin_entry e = elim e.state [
  | scheduled ↦ (true, record e { state = running; fired = true; callbacks = e.callbacks + 1 })
  | running ↦ (true, record e { fired = true; callbacks = e.callbacks + 1 })
  | completed ↦ (true, record e { fired = true; callbacks = e.callbacks + 1 })
  | cancelled ↦ (false, record e { fired = true })
]

unfoldable pub close_handle : Entry → Entry
close_handle e = if e.handle then record e { handle = false; closes = e.closes + 1 } else e

-- The state behind the task.
unfoldable pub finished : Entry → EntryState
finished e =
    if e.is_periodic
    then elim e.state [
      | scheduled ↦ scheduled
      | running ↦ scheduled
      | completed ↦ completed
      | cancelled ↦ cancelled
    ]
    else completed

-- RunEntry behind the task.
unfoldable pub end_entry : Entry → Entry
end_entry e =
    let e' = record e { state = finished e; callbacks = e.callbacks - 1 } in
    if e.close_after_callback then close_handle (record e' { close_after_callback = false }) else e'

-- CancelImpl up to the wait, in one step. The source takes the entry off the map under the map's lock and
-- marks it cancelled behind it; what a timer that fires between the two does is not modelled.
unfoldable pub cancel_entry : Bool → Entry → Entry
cancel_entry current e =
    if e.listed
    then (let e' = record e { listed = false; state = cancelled } in
        if e.handle
        then (if current
            then record e' { close_after_callback = true }
            else record e' { waiting = true })
        else e')
    else e

-- CancelImpl behind the wait.
unfoldable pub close_entry : Entry → Entry
close_entry e = record e { waiting = false; handle = false; closes = e.closes + 1 }

unfoldable pub cancel_impl : ℕ → Bool → TimerQueue → Bool × TimerQueue
cancel_impl id current q =
    if id == 0
    then (false, q)
    else if contains id q.entries
    then (true, record q { entries = at id (cancel_entry current) q.entries })
    else (false, q)

-- The snapshot that ShutdownImpl takes.
unfoldable pub listed_ids : List Entry → List ℕ
listed_ids [] = []
listed_ids (e ∷ es) = if e.listed then e.id ∷ listed_ids es else listed_ids es

-- ShutdownImpl: the first call takes the snapshot, the loop cancels one id after the other, and the end
-- marks the queue dead.
unfoldable pub begin_shutdown : TimerQueue → TimerQueue
begin_shutdown q = elim q.queue_state [
  | running ↦ record q { queue_state = shutting_down; pending = listed_ids q.entries }
  | shutting_down ↦ q
  | dead ↦ q
]

unfoldable pub cancel_next : Bool → TimerQueue → TimerQueue
cancel_next current q = elim q.pending [
  | [] ↦ q
  | id ∷ ids ↦ (cancel_impl id current (record q { pending = ids })).1
]

unfoldable pub end_shutdown : TimerQueue → TimerQueue
end_shutdown q = record q { queue_state = dead }
