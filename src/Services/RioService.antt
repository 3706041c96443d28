-- ===== src/Services/RioService.antt =====
-- RIOService of LibNetworksRIO/RIOService.cpp: threads that take results off a completion queue and hand
-- each one to the session that its context names. The sessions are a list; a context names one by its
-- place. The results that the threads take off are in one order, since the queue is behind a lock.
pub mod Routing
use fast_port.Prelude.{
  ℕ, zero, suc, ◌+◌, Bool, true, false, Option, none, some, List, [], ◌∷◌, if◌then◌else◌,
}
use fast_port.Buffers.Interface.{IBuffer}
use fast_port.Rio.Session.State.{RioSession, RioEnv}
use fast_port.Rio.Session.Receiving.{RioOperationType, on_rio_io_completed}

-- The request's context, with the session and the operation.
pub record RioContext : Type 0 where
  pub session : Option ℕ
  pub op_type : RioOperationType

-- `status_ok`: the status is not negative.
pub record RioResult : Type 0 where
  pub status_ok : Bool
  pub bytes_transferred : ℕ
  pub context : Option RioContext

-- What RIODequeueCompletion gives: results, none of them when the queue is empty, or RIO_CORRUPT_CQ.
pub data Dequeued : Type 0 where
  results : List RioResult → Dequeued
  corrupt_cq : Dequeued

pub record RioService : Type 0 where
  pub has_queue : Bool
  pub is_running : Bool
  pub worker_threads : ℕ

-- `created`: whether RIOCreateCompletionQueue gave a queue.
unfoldable pub initialize : Bool → RioService → Bool × RioService
initialize created s =
    if s.has_queue then (true, s) else (created, record s { has_queue = created })

unfoldable pub start : ℕ → RioService → Bool × RioService
start thread_count s = (
  true,
  if s.is_running
      then s
      else record s { is_running = true; worker_threads = s.worker_threads + thread_count },
)

unfoldable pub stop : RioService → RioService
stop s =
    if s.is_running
    then record s { is_running = false; worker_threads = 0; has_queue = false }
    else s

-- A session of the list, changed in place.
abbrev pub modify_at : {S : Type 0} → ℕ → (S → S) → List S → List S
modify_at n f [] = []
modify_at zero f (s ∷ ss) = f s ∷ ss
modify_at (suc n) f (s ∷ ss) = s ∷ modify_at n f ss

module _ (I : IBuffer) (env : RioEnv I.Buf) where
  open I use {Buf}

  abbrev pub deliver :
      RioResult → RioOperationType → Option ℕ → List (RioSession Buf) → List (RioSession Buf)
  deliver r op none ss = ss
  deliver r op (some n) ss =
      modify_at n (on_rio_io_completed I env r.status_ok r.bytes_transferred op) ss

  unfoldable pub process_result : RioResult → List (RioSession Buf) → List (RioSession Buf)
  process_result r ss = elim r.context [
    | none ↦ ss
    | some context ↦ deliver r context.op_type context.session ss
  ]

  unfoldable pub process_results : List RioResult → List (RioSession Buf) → List (RioSession Buf)
  process_results [] ss = ss
  process_results (r ∷ rs) ss = process_results rs (process_result r ss)

  -- The rounds of one thread while the service runs. A thread processes the results that it took behind the
  -- queue's lock, so that with several threads the order is not the queue's.
  unfoldable pub worker_loop : List Dequeued → List (RioSession Buf) → List (RioSession Buf)
  worker_loop [] ss = ss
  worker_loop (results rs ∷ ds) ss = worker_loop ds (process_results rs ss)
  worker_loop (corrupt_cq ∷ ds) ss = ss
