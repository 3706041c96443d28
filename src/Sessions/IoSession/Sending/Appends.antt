-- ===== src/Sessions/IoSession/Sending/Appends.antt =====
-- What a message adds to the send buffer, and what the system is given to send.
use fast_port.Prelude.{
  ℕ, ◌+◌, ◌-◌, ◌≤◌, ◌<◌, ◌≡◌, ◌∙◌, refl, sym, ap, true, false, List, [], ◌∷◌, ◌++◌, length, arith,
  ◌==◌, if◌then◌else◌, to_u16, Bool_cases, ==→eq, nil_of_length,
}
use fast_port.Buffers.Interface.{IBuffer}
use fast_port.Buffers.Fifo
use fast_port.Buffers.Span.{Span, scatter}
use fast_port.Packets.Packet.{to_network, make_raw_binaries, get_packet_size}
use fast_port.Packets.Packet.Roundtrip.{length-make_raw_binaries}
use fast_port.Sessions.Gather.{Cursor, write_to_buffers}
use fast_port.Sessions.Gather.Laws.{
  write-append, write-nil, scatter-write, write_in_first, InFirst, InFirst-zero, resume,
  InFirst-resume,
}
use fast_port.Sessions.IoSession.State.{Session, Env}
use fast_port.Sessions.IoSession.Disconnect.{undo_outstanding_on_failure, request_disconnect}
use fast_port.Sessions.IoSession.State.{normal}
use fast_port.Sessions.IoSession.Lifetime.Invariant.{requested-request_disconnect_with}
use fast_port.Sessions.IoSession.Sending.{
  write_body, write_message, send_message, try_post_send_from_queue, post_send,
  prepare_send_buffers, wsa_send_call,
}

write_body-write :
    (m : List ℕ) (ss : List Span) (off : ℕ) (body : List ℕ)
    → InFirst ss off
    → write_body (record { memory = m; spans = ss; offset = off }) body
      ≡ (write_to_buffers m ss off body).memory
unfolding write_body
write_body-write m [] off body h = refl
write_body-write m (s ∷ ss) off body h = ground (arith, write_in_first m s ss off body h)

-- Size, id and body, written in three goes, are the packet's bytes written through the spans in order.
pub write_message-scatter :
    (m : List ℕ) (ss : List Span) (id : ℕ) (body : List ℕ)
    → write_message m ss (4 + length body) id body ≡ scatter m ss (make_raw_binaries id body)
unfolding write_message make_raw_binaries get_packet_size
write_message-scatter m ss id body =
    Bool_cases (λ r. r ≡ scatter m ss raw) (length body == 0)
      (λ e.
        ap (λ (c : Cursor). c.memory)
          (sym (write-nil d.memory d.spans d.offset)
            ∙ ap (resume d) (sym (nil_of_length body (==→eq (length body) 0 e))))
        ∙ whole)
      (λ e. write_body-write d.memory d.spans d.offset body inside ∙ whole)
  where
    size : List ℕ
    size = to_network (to_u16 (4 + length body))

    raw : List ℕ
    raw = make_raw_binaries id body

    c : Cursor
    c = write_to_buffers m ss 0 size

    d : Cursor
    d = resume c (to_network id)

    inside : InFirst d.spans d.offset
    inside =
        InFirst-resume c.memory c.spans c.offset (to_network id)
          (InFirst-resume m ss 0 size (InFirst-zero ss))

    whole : (resume d body).memory ≡ scatter m ss raw
    whole =
        ap (λ (e : Cursor). e.memory)
          (sym (
              write-append c.memory c.spans c.offset (to_network id) body
                (InFirst-resume m ss 0 size (InFirst-zero ss)))
            ∙ sym (write-append m ss 0 size (to_network id ++ body) (InFirst-zero ss)))
        ∙ scatter-write m ss (size ++ (to_network id ++ body))
        ∙ ap (λ n. scatter m ss (to_network (to_u16 n) ++ (to_network id ++ body)))
            (let e : 4 + length body ≡ length body + 2 + 2 = omega arith in e)

module _ (I : IBuffer) where
  open I use {
    Buf, memory, with_memory, allocate_write, write, IsValid, contents, capacity, fill_law,
    write_law,
  }

  -- Reserving room for a message and writing it there is writing the packet's bytes.
  message_law :
      (b : Buf) (id : ℕ) (body : List ℕ)
      → IsValid b
      → let (done, spans, b') = allocate_write b (4 + length body) in
        (if done
          then (true, with_memory b' (write_message (memory b') spans (4 + length body) id body))
          else (false, b'))
        ≡ write b (make_raw_binaries id body)
  message_law b id body v =
      let e : length (make_raw_binaries id body) ≡ 4 + length body =
        omega (arith, length-make_raw_binaries id body) in
      simp (write_message-scatter, ← e) (fill_law b (make_raw_binaries id body) v)

  module _ (env : Env I.Buf) where
    send_buffer-try_post :
        (s : Session Buf) → (try_post_send_from_queue I env s).1.send_buffer ≡ s.send_buffer
    unfolding try_post_send_from_queue post_send prepare_send_buffers wsa_send_call
        undo_outstanding_on_failure
    send_buffer-try_post s = ground arith

    -- What `send_message` leaves in the buffer where the bytes fit, and what it does where they do not.
    send_message-write :
        (id : ℕ) (body : List ℕ) (s : Session Buf)
        → IsValid s.send_buffer
        → s.disconnect_requested ≡ false
        → let t = send_message I env id body s in
          let (done, b') = write s.send_buffer (make_raw_binaries id body) in
          (done ≡ true → t.send_buffer ≡ b') × (done ≡ false → t.disconnect_requested ≡ true)
    unfolding send_message request_disconnect
    send_message-write id body s v e =
        let (done, spans, b') = allocate_write s.send_buffer (4 + length body) in
        let filled : Buf =
          with_memory b' (write_message (memory b') spans (4 + length body) id body) in
        ground (
          arith,
          message_law s.send_buffer id body v,
          send_buffer-try_post (record s { send_buffer = filled }),
          requested-request_disconnect_with I normal (record s { send_buffer = b' }),
        )

    module _ (id : ℕ) (body : List ℕ) (s : Session Buf) (v : IsValid s.send_buffer)
        (e : s.disconnect_requested ≡ false) where
      abbrev raw : List ℕ
      raw = make_raw_binaries id body

      written :
          let (done, b') = write s.send_buffer raw in
          ((done, contents b') ≡ Fifo.append (capacity s.send_buffer) (contents s.send_buffer) raw)
          × IsValid b'
          × (capacity b' ≡ capacity s.send_buffer)
      written = write_law s.send_buffer raw v

      -- A message that fits the free space of a running session's valid send buffer is queued as its
      -- packet's bytes, whole and behind what was queued before.
      pub send_message_appends :
          length body + 4 ≤ capacity s.send_buffer - length (contents s.send_buffer)
          → let t = send_message I env id body s in
            (contents t.send_buffer ≡ contents s.send_buffer ++ make_raw_binaries id body)
            × IsValid t.send_buffer
      unfolding Fifo.append
      send_message_appends fits = (rw same appended, rw same written.1)
        where
          size : length raw ≡ length body + 4
          size = length-make_raw_binaries id body

          accepted : (write s.send_buffer raw).0 ≡ true
          accepted = ground (arith, written.0, size)

          appended : contents (write s.send_buffer raw).1 ≡ contents s.send_buffer ++ raw
          appended = ground (arith, written.0, size)

          same : (send_message I env id body s).send_buffer ≡ (write s.send_buffer raw).1
          same = (send_message-write id body s v e).0 accepted

      -- A message that does not fit the free space of a running session's valid send buffer asks for the end
      -- of the session.
      pub send_message_ends :
          capacity s.send_buffer - length (contents s.send_buffer) < length body + 4
          → (send_message I env id body s).disconnect_requested ≡ true
      unfolding Fifo.append
      send_message_ends short = (send_message-write id body s v e).1 refused
        where
          refused : (write s.send_buffer raw).0 ≡ false
          refused = ground (arith, written.0, length-make_raw_binaries id body)
