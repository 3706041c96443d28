-- ===== src/Sessions/IoSession/Lifetime/Reach.antt =====
-- Any history of a session: calls from outside, and completions of what is in flight, in any order.
use fast_port.Prelude.{
  ℕ, ◌+◌, ◌-◌, ◌≤◌, ◌≡◌, ◌≢◌, Bool, true, false, List, [], length, arith, if◌then◌else◌,
}
use mathlib.Core.Logic.{◌↔◌}
use fast_port.Buffers.Interface.{IBuffer}
use fast_port.Buffers.Span.{scatter}
use fast_port.Sessions.IoSession.State.{Session, opened, Env, DisconnectReason}
use fast_port.Sessions.IoSession.Disconnect.{request_disconnect_with}
use fast_port.Sessions.IoSession.Posting.{start_receive_loop}
use fast_port.Sessions.IoSession.Sending.{send_bytes, send_message}
use fast_port.Sessions.IoSession.Receiving.{on_recv_completed, on_send_completed}
use fast_port.Sessions.IoSession.Lifetime.Invariant.{
  bit, disconnects, Inv, request_disconnect_with-Inv,
}
use fast_port.Sessions.IoSession.Lifetime.Posts.{
  send_bytes-Inv, send_message-Inv, start_receive_loop-Inv,
}
use fast_port.Sessions.IoSession.Lifetime.Handlers.{on_recv_completed-Inv, on_send_completed-Inv}

-- A session over an accepted socket and two buffers.
abbrev pub init : {B : Type 0} → B → B → Session B
init receive_buffer send_buffer = record {
  receive_loop_started = false;
  recv_in_progress = false;
  send_in_progress = false;
  disconnect_requested = false;
  on_disconnected_fired = false;
  outstanding_io_count = 0;
  last_recv_time_ms = 0;
  total_rx_bytes = 0;
  total_tx_bytes = 0;
  socket = opened;
  is_zero_byte = false;
  recv_wsabufs = [];
  send_wsabufs = [];
  requested_bytes = 0;
  receive_buffer = receive_buffer;
  send_buffer = send_buffer;
  recvs = 0;
  sends = 0;
  events = [];
}

-- The counter is the number of operations in flight, at most one receive and one send; OnDisconnected
-- has run exactly when the end was asked for and nothing is in flight any more, and at most once.
abbrev pub Accounted : {B : Type 0} → Session B → Type 0
Accounted s =
    (s.outstanding_io_count ≡ s.recvs + s.sends)
    × (s.recvs ≤ 1)
    × (s.sends ≤ 1)
    × ((s.on_disconnected_fired ≡ true)
        ↔ ((s.disconnect_requested ≡ true) × (s.recvs + s.sends ≡ 0)))
    × (disconnects s.events ≡ bit s.on_disconnected_fired)

module _ (I : IBuffer) (env : Env I.Buf) where
  open I use {Buf, memory, with_memory}

  -- The system fills the spans of a real receive before it reports it.
  unfoldable pub received : List ℕ → Session Buf → Session Buf
  received bytes s = if s.is_zero_byte then s else record s {
    receive_buffer =
        with_memory s.receive_buffer (scatter (memory s.receive_buffer) s.recv_wsabufs bytes);
  }

  pub data Step (s : Session Buf) : Session Buf → Type 0 where
    starts : Step s (start_receive_loop I env s)
    sends_message : (id : ℕ) (body : List ℕ) → Step s (send_message I env id body s)
    sends_bytes : (bytes : List ℕ) → Step s (send_bytes I env bytes s)
    disconnects_with : (reason : DisconnectReason) → Step s (request_disconnect_with I reason s)
    recv_completes :
        (success : Bool) (bytes : List ℕ)
        → s.recvs ≢ 0
        → Step s (
            on_recv_completed I env success
              (length bytes)
              (received bytes (record s { recvs = s.recvs - 1 })))
    send_completes :
        (success : Bool) (n : ℕ)
        → s.sends ≢ 0
        → Step s (on_send_completed I env success n (record s { sends = s.sends - 1 }))

  pub data Reach (s : Session Buf) : Session Buf → Type 0 where
    here : Reach s s
    next : {t u : Session Buf} → Reach s t → Step t u → Reach s u

  received-Inv :
      (r q k : ℕ) (bytes : List ℕ) (s : Session Buf) → Inv r q k s → Inv r q k (received bytes s)
  unfolding received
  received-Inv r q k bytes s v = ground arith

  pub Step-Inv : {s t : Session Buf} → Step s t → Inv 0 0 0 s → Inv 0 0 0 t
  Step-Inv {s} starts v = start_receive_loop-Inv I env 0 0 s v
  Step-Inv {s} (sends_message id body) v = send_message-Inv I env 0 0 0 id body s v
  Step-Inv {s} (sends_bytes bytes) v = send_bytes-Inv I env 0 0 0 bytes s v
  Step-Inv {s} (disconnects_with reason) v = request_disconnect_with-Inv I 0 0 0 reason s v
  Step-Inv {s} (recv_completes success bytes h) v =
      on_recv_completed-Inv I env success (length bytes) _
        (received-Inv 1 0 1 bytes (record s { recvs = s.recvs - 1 }) (ground arith))
  Step-Inv {s} (send_completes success n h) v =
      on_send_completed-Inv I env success n (record s { sends = s.sends - 1 }) (ground arith)

  pub Reach-Inv : (rb sb : Buf) {s : Session Buf} → Reach (init rb sb) s → Inv 0 0 0 s
  Reach-Inv rb sb here = ground arith
  Reach-Inv rb sb (next r st) = Step-Inv st (Reach-Inv rb sb r)

  -- In every history of a session, whatever the system and the callbacks answer: the counter is the
  -- number of operations in flight, at most one receive and one send; OnDisconnected has run exactly
  -- when the end was asked for and nothing is in flight any more, and it has run at most once.
  pub lifetime : (rb sb : Buf) {s : Session Buf} → Reach (init rb sb) s → Accounted s
  lifetime rb sb {s} r = let v = Reach-Inv rb sb r in ground arith
