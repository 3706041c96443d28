-- ===== src/Services/Tests.antt =====
-- The services and the acceptor on concrete completions.
use fast_port.Prelude.{ℕ, ◌+◌, ◌≡◌, refl, true, false, none, some, List, [], ◌∷◌, arith}
use fast_port.Buffers.External.{ExternalCircleBufferQueue, make}
use fast_port.Rio.Slices.{RioBufferSlice}
use fast_port.Rio.Session.State.{RioSession, RioEnv, new_session}
use fast_port.Rio.Session.Receiving.{receive, send}
use fast_port.Services.IoService.{Status, other, connection_aborted, IoService}
use fast_port.Services.RioService.{Dequeued, results, corrupt_cq}
use fast_port.Services.Acceptor.{Acceptor, iocp, AcceptAnswer, PostAnswer, run_accepts}
use fast_port.Services.Acceptor.Pool.{early, unposted, sessions, run_accepts-pool}

abbrev status : ℕ → Status
status id = record {
  result = true;
  last_error = other;
  bytes_transferred = 4;
  completion_id = id;
  overlapped = 1;
}

abbrev aborted : Status
aborted = record {
  result = false;
  last_error = connection_aborted;
  bytes_transferred = 0;
  completion_id = 5;
  overlapped = 1;
}

-- Two threads, and three statuses, one of them for no consumer.
abbrev service : IoService
service = record {
  has_port = true;
  terminated = false;
  workers = 2;
  port = status 5 ∷ status 0 ∷ status 6 ∷ [];
}

abbrev slice : RioBufferSlice
slice = record { buffer_id = 7; offset = 0; len = 4; address = 4096 }

abbrev quiet : RioEnv ExternalCircleBufferQueue
quiet = record {
  rio_receive = λ buf s. true;
  rio_send = λ buf s. true;
  on_packet_received = λ p. [];
}

abbrev fresh : RioSession ExternalCircleBufferQueue
fresh = new_session true slice slice (make (0 ∷ 0 ∷ 0 ∷ 0 ∷ [])) (make (0 ∷ 0 ∷ 0 ∷ 0 ∷ []))

-- A failed send of the first session, a result without a context, and a receive of the second.
abbrev dequeued : List Dequeued
dequeued =
    results (
      record {
        status_ok = false;
        bytes_transferred = 0;
        context = some (record { session = some 0; op_type = send });
      }
      ∷ record { status_ok = true; bytes_transferred = 2; context = none }
      ∷ [])
    ∷ results (
        record {
          status_ok = true;
          bytes_transferred = 2;
          context = some (record { session = some 1; op_type = receive });
        }
        ∷ [])
    ∷ corrupt_cq
    ∷ []

abbrev good : PostAnswer
good = record { socket_made = true; posted = true }

-- An accept that starts a session, and one whose socket was not updated.
abbrev answers : List AcceptAnswer
answers =
    record { success = true; updated = true; io_service = true; next = good }
    ∷ record { success = true; updated = false; io_service = true; next = good }
    ∷ []

abbrev acceptor : Acceptor
acceptor = record {
  mode = iocp;
  executed = true;
  listening = true;
  service_started = true;
  accepts = 3;
  overlappeds = 3;
  accepted = 0;
  closed = 0;
}

run_accepts-pool_example :
    let t = run_accepts answers acceptor in
    (t.accepts + early iocp answers + unposted iocp answers ≡ 3)
    × (t.overlappeds + unposted iocp answers ≡ 3)
    × (t.accepted ≡ 0 + sessions iocp answers)
run_accepts-pool_example = run_accepts-pool answers acceptor refl (omega arith) (omega arith)
