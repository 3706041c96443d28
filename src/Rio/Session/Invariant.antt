-- ===== src/Rio/Session/Invariant.antt =====
-- What every call on a RIO session and every completion keeps: the bytes sent, then those to be sent, are
-- the bytes of the messages taken, and the request queue's one receive and one send are enough.
use fast_port.Prelude.{
  ℕ, ◌+◌, ◌≤◌, ◌≡◌, ◌≢◌, ◌∙◌, refl, sym, ap, subst, Bool, false, List, ◌++◌, append_assoc, arith,
}
use fast_port.Buffers.Interface.{IBuffer}
use fast_port.Sessions.IoSession.State.{Event}
use fast_port.Rio.Session.State.{PendingPacket, RioSession}
use fast_port.Rio.Session.Sending.{enqueue}
use fast_port.Rio.Session.Outgoing.{outgoing, enqueue-outgoing, Extends, enqueue-Extends}

-- Some bytes that stand in front of others.
abbrev pub Front : List ℕ → List ℕ → Type 0
Front f xs = (more : List ℕ) × (xs ≡ f ++ more)

pub Front-append : (f xs ys zs : List ℕ) → Front f xs → zs ≡ xs ++ ys → Front f zs
Front-append f xs ys zs (more, e) h = (more ++ ys, h ∙ ap (λ k. k ++ ys) e ∙ append_assoc f more ys)

module _ (I : IBuffer) where
  open I use {Buf, memory, IsValid, contents}

  -- `r`: a receive that has completed and whose handler runs.
  pub record Inv (r : ℕ) (s : RioSession Buf) : Type 0 where
    pub valid : IsValid s.send_buffer
    pub conserved : s.sent_bytes ++ outgoing I s.send_buffer s.pending_send_queue ≡ s.taken_bytes
    pub posted : s.sends ≢ 0 → Front s.in_flight (contents s.send_buffer)
    pub one_send : s.sends ≤ 1
    pub free_flag : s.send_in_progress ≡ false → s.sends ≡ 0
    pub one_recv : s.recvs + r ≤ 1
    pub unstarted : s.receive_loop_started ≡ false → s.recvs + r ≡ 0

  -- A change of the send side that takes some bytes and gives none away.
  pub moved-Inv :
      (r n : ℕ) (bytes taken : List ℕ) (b : Buf) (ps : List PendingPacket) (s : RioSession Buf)
      → Inv r s
      → IsValid b
      → outgoing I b ps ≡ outgoing I s.send_buffer s.pending_send_queue ++ bytes
      → taken ≡ s.taken_bytes ++ bytes
      → Extends I s.send_buffer b
      → Inv r (record s {
        send_buffer = b;
        pending_send_queue = ps;
        pending_total_bytes = n;
        taken_bytes = taken;
      })
  moved-Inv r n bytes taken b ps s v w o t (extra, e) = record {
    valid = w;
    conserved =
        ap (λ xs. s.sent_bytes ++ xs) o
        ∙ sym (append_assoc s.sent_bytes (outgoing I s.send_buffer s.pending_send_queue) bytes)
        ∙ ap (λ xs. xs ++ bytes) v.conserved
        ∙ sym t;
    posted =
        λ h. Front-append s.in_flight (contents s.send_buffer) extra (contents b) (v.posted h) e;
    one_send = v.one_send;
    free_flag = v.free_flag;
    one_recv = v.one_recv;
    unstarted = v.unstarted;
  }

  pub enqueue_shape :
      (bytes : List ℕ) (s : RioSession Buf)
      → let t = enqueue I bytes s in
        t ≡ record s {
          send_buffer = t.send_buffer;
          pending_send_queue = t.pending_send_queue;
          pending_total_bytes = t.pending_total_bytes;
          taken_bytes = s.taken_bytes ++ bytes;
        }
  unfolding enqueue
  enqueue_shape bytes s = ground arith

  pub enqueue-Inv :
      (r : ℕ) (bytes : List ℕ) (s : RioSession Buf) → Inv r s → Inv r (enqueue I bytes s)
  enqueue-Inv r bytes s v =
      let t = enqueue I bytes s in
      let law = enqueue-outgoing I bytes s v.valid in
      subst (Inv r) (sym (enqueue_shape bytes s)) (
        moved-Inv r t.pending_total_bytes bytes (s.taken_bytes ++ bytes) t.send_buffer
          t.pending_send_queue s v law.1 law.0 refl (enqueue-Extends I bytes s v.valid))

  -- With no send in flight the flag may be set or not.
  pub flag-Inv :
      (r : ℕ) (flag : Bool) (s : RioSession Buf)
      → s.sends ≡ 0
      → Inv r s
      → Inv r (record s { send_in_progress = flag })
  flag-Inv r flag s z v = record {
    valid = v.valid;
    conserved = v.conserved;
    posted = v.posted;
    one_send = v.one_send;
    free_flag = λ h. z;
    one_recv = v.one_recv;
    unstarted = v.unstarted;
  }

  -- A change of what the invariant does not speak of.
  pub seen-Inv :
      (r n : ℕ) (b : Buf) (told : List Event) (over : Bool) (s : RioSession Buf)
      → Inv r s
      → Inv r (record s {
        receive_buffer = b;
        total_rx_bytes = n;
        events = told;
        is_disconnected = over;
      })
  seen-Inv r n b told over s v = record {
    valid = v.valid;
    conserved = v.conserved;
    posted = v.posted;
    one_send = v.one_send;
    free_flag = v.free_flag;
    one_recv = v.one_recv;
    unstarted = v.unstarted;
  }
