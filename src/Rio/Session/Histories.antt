-- ===== src/Rio/Session/Histories.antt =====
-- The histories of a RIO session: calls of its owner and completions of the system, in any order.
use fast_port.Prelude.{
  ℕ, suc, ◌≤◌, ◌≡◌, refl, Bool, true, false, List, [], ◌∷◌, ◌++◌, length, arith, Bool_cases,
  eq_cases,
}
use fast_port.Buffers.Interface.{IBuffer}
use fast_port.Buffers.Span.{scatter}
use fast_port.Rio.Slices.{RioBufferSlice}
use fast_port.Sessions.IoSession.State.{disconnected}
use fast_port.Rio.Session.State.{RioSession, RioEnv, new_session}
use fast_port.Rio.Session.Sending.{send_message}
use fast_port.Rio.Session.Receiving.{
  receive, send, initialize_session, on_accepted, on_connected, on_disconnected,
  on_rio_io_completed,
}
use fast_port.Rio.Session.Outgoing.{outgoing}
use fast_port.Rio.Session.Invariant.{Inv, seen-Inv}
use fast_port.Rio.Session.Sends.{send_message-Inv}
use fast_port.Rio.Session.Receives.{
  handled-Inv, start_receive_loop-Inv, on_received-Inv, on_sent-Inv,
}

module _ (I : IBuffer) (env : RioEnv I.Buf) where
  open I use {Buf, memory, with_memory, IsValid, contents}

  -- What the system has written into the memory that a receive was given.
  abbrev pub arrived : List ℕ → RioSession Buf → Buf
  arrived bytes s =
      with_memory s.receive_buffer (scatter (memory s.receive_buffer) s.recv_span bytes)

  pub data Step (s : RioSession Buf) : RioSession Buf → Type 0 where
    initializes : Step s (initialize_session I env s).1
    accepts : Step s (on_accepted I env s)
    connects : Step s (on_connected I env s)
    sends_message : (id : ℕ) (body : List ℕ) → Step s (send_message I env id body s)
    receives :
        (k : ℕ) (bytes : List ℕ)
        → s.recvs ≡ suc k
        → Step s (
            on_rio_io_completed I env true
              (length bytes)
              receive
              (record s { recvs = k; receive_buffer = arrived bytes s }))
    receive_fails :
        (k n : ℕ)
        → s.recvs ≡ suc k
        → Step s (on_rio_io_completed I env false n receive (record s { recvs = k }))
    sent :
        (k n : ℕ)
        → s.sends ≡ suc k
        → n ≤ length s.in_flight
        → Step s (on_rio_io_completed I env true n send (record s { sends = k }))
    send_fails :
        (k n : ℕ)
        → s.sends ≡ suc k
        → Step s (on_rio_io_completed I env false n send (record s { sends = k }))

  pub data Reach (s : RioSession Buf) : RioSession Buf → Type 0 where
    here : Reach s s
    next : {t u : RioSession Buf} → Reach s t → Step t u → Reach s u

  Inv-lost :
      (s : RioSession Buf)
      → Inv I 0 s
      → Inv I 0 (on_disconnected I env (record s { is_disconnected = true }))
  unfolding on_disconnected
  Inv-lost s v = seen-Inv I 0 s.total_rx_bytes s.receive_buffer (disconnected ∷ s.events) true s v

  -- The receive that has completed is the running handler's.
  pub Inv-handler :
      (k : ℕ) (b : Buf) (s : RioSession Buf)
      → s.recvs ≡ suc k
      → Inv I 0 s
      → Inv I 1 (record s { recvs = k; receive_buffer = b })
  Inv-handler k b s e v = record {
    valid = v.valid;
    conserved = v.conserved;
    posted = v.posted;
    one_send = v.one_send;
    free_flag = v.free_flag;
    one_recv = omega (arith, v.one_recv, e);
    unstarted = λ h. absurd (omega (arith, v.unstarted h, e));
  }

  -- The send that has completed is out of the system's hands.
  pub Inv-unsent :
      (k : ℕ) (s : RioSession Buf) → s.sends ≡ suc k → Inv I 0 s → Inv I 0 (record s { sends = k })
  Inv-unsent k s e v = record {
    valid = v.valid;
    conserved = v.conserved;
    posted = λ ne. absurd (ne (omega (arith, v.one_send, e)));
    one_send = omega (arith, v.one_send, e);
    free_flag = λ h. omega (arith, v.one_send, e);
    one_recv = v.one_recv;
    unstarted = v.unstarted;
  }

  pub Step-Inv : {s t : RioSession Buf} → Step s t → Inv I 0 s → Inv I 0 t
  unfolding on_rio_io_completed initialize_session on_accepted on_connected
  Step-Inv {s} initializes v =
      Bool_cases (λ (r : Bool × RioSession Buf). Inv I 0 r.1) s.has_request_queue
        (λ yes. start_receive_loop-Inv I env s v) (λ no. v)
  Step-Inv {s} accepts v = start_receive_loop-Inv I env s v
  Step-Inv {s} connects v = start_receive_loop-Inv I env s v
  Step-Inv {s} (sends_message id body) v = send_message-Inv I env 0 id body s v
  Step-Inv {s} (receives k bytes e) v =
      let w = Inv-handler k (arrived bytes s) s e v in
      let t = record s { recvs = k; receive_buffer = arrived bytes s } in
      eq_cases (Inv I 0) (length bytes) 0 (λ none. Inv-lost t (handled-Inv I env t w))
        (λ some. on_received-Inv I env (length bytes) t w)
  Step-Inv {s} (receive_fails k n e) v =
      let t = record s { recvs = k } in
      Inv-lost t (handled-Inv I env t (Inv-handler k s.receive_buffer s e v))
  Step-Inv {s} (sent k n e h) v =
      on_sent-Inv I env n (record s { sends = k }) (omega (arith, v.one_send, e)) h
        (v.posted (λ z. absurd (omega (arith, e, z)))) (Inv-unsent k s e v)
  Step-Inv {s} (send_fails k n e) v = Inv-lost (record s { sends = k }) (Inv-unsent k s e v)

  pub Reach-Inv : {s t : RioSession Buf} → Reach s t → Inv I 0 s → Inv I 0 t
  Reach-Inv here v = v
  Reach-Inv (next r st) v = Step-Inv st (Reach-Inv r v)

  pub new_session-Inv :
      (has_queue : Bool) (recv_slice send_slice : RioBufferSlice) (rb sb : Buf)
      → IsValid sb
      → contents sb ≡ []
      → Inv I 0 (new_session has_queue recv_slice send_slice rb sb)
  new_session-Inv has_queue recv_slice send_slice rb sb v e = record {
    valid = v;
    conserved = rw e refl;
    posted = λ ne. absurd (ne refl);
    one_send = omega arith;
    free_flag = λ h. refl;
    one_recv = omega arith;
    unstarted = λ h. refl;
  }

  -- In every history of a RIO session that starts with an empty, valid send buffer, whatever the system
  -- accepts, the bytes that were sent, followed by those of the send buffer and of the waiting packets,
  -- are the bytes of all messages taken, in order; and at most one receive and one send are in flight.
  pub Reach-conserves :
      (has_queue : Bool) (recv_slice send_slice : RioBufferSlice) (rb sb : Buf) (s : RioSession Buf)
      → IsValid sb
      → contents sb ≡ []
      → Reach (new_session has_queue recv_slice send_slice rb sb) s
      → (s.sent_bytes ++ outgoing I s.send_buffer s.pending_send_queue ≡ s.taken_bytes)
        × (s.recvs ≤ 1)
        × (s.sends ≤ 1)
  Reach-conserves has_queue recv_slice send_slice rb sb s v e r =
      let w = Reach-Inv r (new_session-Inv has_queue recv_slice send_slice rb sb v e) in
      (w.conserved, omega (arith, w.one_recv), w.one_send)
