-- ===== src/Rio/Session/Messages.antt =====
-- What SendMessage adds to the bytes that a session has still to send.
use fast_port.Prelude.{
  ℕ, ◌≡◌, ◌∙◌, refl, ap, true, List, [], ◌∷◌, ◌++◌, ltb, if◌then◌else◌, Bool_cases, eq_cases, arith,
}
use fast_port.Buffers.Interface.{IBuffer}
use fast_port.Buffers.Span.{Span}
use fast_port.Packets.Packet.{make_raw_binaries}
use fast_port.Sessions.IoSession.State.{disconnected}
use fast_port.Rio.Session.State.{RioSession, RioEnv, rio_buf, max_pending_bytes}
use fast_port.Rio.Session.Outgoing.{outgoing, enqueue-outgoing, flush_packets-outgoing}
use fast_port.Rio.Session.Invariant.{enqueue_shape}
use fast_port.Rio.Session.Sending.{
  packet_data, flush_packets, enqueue, post_span, post_send, try_post_send_from_queue,
  flush_pending_send_queue, send_message,
}
use fast_port.Rio.Session.Delivery.{packet_data-make_raw_binaries, send_message-taken}

module _ (I : IBuffer) where
  open I use {Buf, IsValid}

  -- The bytes of the send buffer, and those of the waiting packets that are not in it yet.
  abbrev pub to_send : RioSession Buf → List ℕ
  to_send s = outgoing I s.send_buffer s.pending_send_queue

  module _ (env : RioEnv Buf) where
    -- What posting leaves as it is.
    abbrev Untouched : RioSession Buf → RioSession Buf → Type 0
    Untouched s t = (to_send t ≡ to_send s) × (t.sent_bytes ≡ s.sent_bytes) × IsValid t.send_buffer

    post_span-Untouched :
        (spans : List Span) (s : RioSession Buf)
        → IsValid s.send_buffer
        → Untouched s (post_span I env s spans)
    unfolding post_span
    post_span-Untouched [] s v = (refl, refl, v)
    post_span-Untouched (span ∷ ss) s v =
        Bool_cases (Untouched s) (env.rio_send (rio_buf s.send_slice span) s)
          (λ taken. (refl, refl, v)) (λ refused. (refl, refl, v))

    post_send-Untouched :
        (s : RioSession Buf) → IsValid s.send_buffer → Untouched s (post_send I env s)
    unfolding post_send
    post_send-Untouched s v =
        eq_cases (Untouched s) (I.get_read_buffers s.send_buffer).0 0 (λ z. (refl, refl, v))
          (λ ne. post_span-Untouched (I.get_read_buffers s.send_buffer).1 s v)

    flush-Untouched :
        (s : RioSession Buf)
        → IsValid s.send_buffer
        → Untouched s (flush_pending_send_queue I env s)
    unfolding flush_pending_send_queue try_post_send_from_queue
    flush-Untouched s v =
        let (ps, b, n) = flush_packets I s.pending_send_queue s.send_buffer s.pending_total_bytes in
        let law =
          flush_packets-outgoing I s.pending_send_queue s.send_buffer s.pending_total_bytes v in
        Bool_cases (Untouched s) s.send_in_progress (λ busy. (law.0, refl, law.1))
          (λ free.
            let rest =
              post_send-Untouched
                (record s {
                  send_buffer = b;
                  pending_send_queue = ps;
                  pending_total_bytes = n;
                  send_in_progress = true;
                })
                law.1 in
            (rest.0 ∙ law.0, rest.1, rest.2))

    -- What SendMessage leaves, by what stands in front of it.
    abbrev pub after : ℕ → List ℕ → RioSession Buf → List ℕ
    after id body s =
        if s.is_disconnected
        then to_send s
        else if ltb max_pending_bytes s.pending_total_bytes
        then to_send s
        else to_send s ++ make_raw_binaries id body

    send_message-added :
        (id : ℕ) (body : List ℕ) (s : RioSession Buf)
        → IsValid s.send_buffer
        → let t = send_message I env id body s in
          (to_send t ≡ after id body s) × (t.sent_bytes ≡ s.sent_bytes) × IsValid t.send_buffer
    unfolding send_message
    send_message-added id body s v =
        let data_bytes = packet_data id body in
        let queued = enqueue-outgoing I data_bytes s v in
        let flushed = flush-Untouched (enqueue I data_bytes s) queued.1 in
        let same = ap (λ u. u.sent_bytes) (enqueue_shape I data_bytes s) in
        let bytes = ap (λ xs. to_send s ++ xs) (packet_data-make_raw_binaries I env id body) in
        ground (arith, queued, flushed, same, bytes)

    -- SendMessage on a session with a valid send buffer adds the bytes that `make_raw_binaries` makes of the
    -- id and the body behind all that its send buffer and its waiting packets have still to send, and
    -- reports nothing, when the session is connected and at most 10 MB wait; when more wait, it adds
    -- nothing, ends the connection and reports that; on a session that is not connected it does nothing.
    -- The bytes that were sent already stay what they are.
    pub send_message-to_send :
        (id : ℕ) (body : List ℕ) (s : RioSession Buf)
        → IsValid s.send_buffer
        → let t = send_message I env id body s in
          let over = ltb max_pending_bytes s.pending_total_bytes in
          (to_send t ≡ after id body s)
          × (t.sent_bytes ≡ s.sent_bytes)
          × (t.events ≡ (
              if s.is_disconnected
              then s.events
              else if over
              then disconnected ∷ s.events
              else s.events))
          × (t.is_disconnected ≡ (if s.is_disconnected then true else over))
          × IsValid t.send_buffer
    send_message-to_send id body s v =
        let told = send_message-taken I env id body s in
        let added = send_message-added id body s v in (added.0, added.1, told.1, told.2, added.2)
