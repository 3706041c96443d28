-- ===== src/Services/IoService.antt =====
-- IOService of LibNetworks/iOService.cpp: threads that take statuses off a completion port and call the
-- consumers. The port is a queue; the threads are all alike, so their number stands for them, and a run of
-- the port is the order in which the statuses are taken off.
pub mod Delivery
use fast_port.Prelude.{
  ℕ, zero, suc, ◌+◌, ◌-◌, Bool, true, false, Option, none, some, List, [], ◌∷◌, ◌++◌, ◌==◌,
  if◌then◌else◌,
}

-- The errors that the thread tells apart.
pub data StatusError : Type 0 where
  abandoned_wait connection_aborted netname_deleted operation_aborted other : StatusError

-- What GetQueuedCompletionStatus gives.
pub record Status : Type 0 where
  pub result : Bool
  pub last_error : StatusError
  pub bytes_transferred : ℕ
  pub completion_id : ℕ
  pub overlapped : ℕ

-- A call of OnIOCompleted.
pub record Completion : Type 0 where
  pub consumer : ℕ
  pub success : Bool
  pub bytes_transferred : ℕ
  pub overlapped : ℕ

-- C_THREAD_SHUTDOWN_COMPLETION_KEY.
abbrev pub shutdown_key : ℕ
shutdown_key = 0xFFFFFFFFFFFFFFFF

abbrev pub call : Bool → Status → Completion
call success s = record {
  consumer = s.completion_id;
  success = success;
  bytes_transferred = s.bytes_transferred;
  overlapped = s.overlapped;
}

abbrev pub completed : Bool → Status → List Completion
completed success s = if s.completion_id == 0 then [] else call success s ∷ []

-- The part of a round behind the errors.
abbrev pub on_key : Bool → Status → Bool × List Completion
on_key success s =
    if s.completion_id == shutdown_key then (false, []) else (true, completed success s)

-- One round of a thread's loop: whether it goes on, and its call.
unfoldable pub worker_round : Status → Bool × List Completion
worker_round s = if s.result then on_key true s else elim s.last_error [
  | abandoned_wait ↦ (false, [])
  | connection_aborted ↦ (false, [])
  | netname_deleted ↦ (true, completed false s)
  | operation_aborted ↦ on_key false s
  | other ↦ on_key false s
]

-- The port's queue and a number of threads, until the queue is empty or no thread is left: the threads
-- left, and the calls.
unfoldable pub run_workers : List Status → ℕ → ℕ × List Completion
run_workers [] workers = (workers, [])
run_workers (s ∷ ss) workers =
    let (again, calls) = worker_round s in
    let (left, later) = run_workers ss (if again then workers else workers - 1) in
    if workers == 0 then (0, []) else (left, calls ++ later)

pub record IoService : Type 0 where
  pub has_port : Bool
  pub terminated : Bool
  pub workers : ℕ
  pub port : List Status

-- `created`: whether CreateIoCompletionPort gave a port.
unfoldable pub start : Bool → ℕ → IoService → Bool × IoService
start created thread_count s =
    if created
    then (
      true,
      record s {
        has_port = true;
        terminated = false;
        workers = s.workers + thread_count;
        port = [];
      },
    )
    else (false, record s { has_port = false })

-- `accepted`: what PostQueuedCompletionStatus answers.
unfoldable pub post : Bool → ℕ → ℕ → ℕ → IoService → Bool × IoService
post accepted key bytes overlapped s =
    if accepted
    then (
      true,
      record s {
        port =
            s.port
            ++ (record {
              result = true;
              last_error = other;
              bytes_transferred = bytes;
              completion_id = key;
              overlapped = overlapped;
            }
                ∷ []);
      },
    )
    else (false, s)

-- One post for each thread; `accepts` answers them by how many are still to come. What they return is not
-- looked at.
unfoldable pub post_shutdowns : (ℕ → Bool) → ℕ → IoService → IoService
post_shutdowns accepts zero s = s
post_shutdowns accepts (suc n) s = post_shutdowns accepts n (post (accepts n) shutdown_key 0 0 s).1

-- The joins return when no thread is left; otherwise Stop does not return.
unfoldable pub stop : (ℕ → Bool) → IoService → Option (IoService × List Completion)
stop accepts s =
    let s' = post_shutdowns accepts s.workers s in
    let (left, calls) = run_workers s'.port s'.workers in
    if left == 0
    then some (record s' { workers = 0; terminated = true; port = [] }, calls)
    else none

-- Whether Wait returns.
abbrev pub waits_over : IoService → Bool
waits_over s = s.terminated

-- `port` is what CreateIoCompletionPort answers for a socket: nothing, this port or another one.
pub data PortAnswer : Type 0 where
  no_port this_port another_port : PortAnswer

abbrev pub associate : PortAnswer → Bool
associate no_port = false
associate this_port = true
associate another_port = false
