-- ===== src/Rio/Session/Tests.antt =====
-- A RIO session over two registered slices of 8 bytes, on concrete messages and completions.
use fast_port.Prelude.{
  ◌+◌, ◌≤◌, ◌≡◌, ◌≢◌, ◌∷◌, refl, true, false, [], ◌++◌, ℕ, ltb, length, ap, if◌then◌else◌, arith,
}
use fast_port.Buffers.Span.{spans_from, first_part, scatter, copy_in}
use fast_port.Buffers.External
use fast_port.Buffers.External.{ExternalCircleBufferQueue}
use fast_port.Buffers.Circle.Refine
use fast_port.Buffers.Interface.Instances.{external}
use fast_port.Packets.Packet.{to_network}
use fast_port.Packets.Stream.{decode}
use fast_port.Rio.Slices.{RioBufferSlice}
use fast_port.Sessions.IoSession.State.{disconnected}
use fast_port.Rio.Session.State.{RioSession, RioEnv, new_session, max_pending_bytes}
use fast_port.Rio.Session.Sending.{
  packet_data, written, flush_packets, enqueue, post_span, post_send, try_post_send_from_queue,
  flush_pending_send_queue, send_message,
}
use fast_port.Rio.Session.Receiving.{
  initialize_session, start_receive_loop, request_recv, post_recv, read_received_buffers,
}
use fast_port.Rio.Session.Outgoing.{outgoing}
use fast_port.Rio.Session.Histories.{Reach, here, next, initializes, sends_message, Reach-conserves}
use fast_port.Rio.Session.Liveness.{Reach-sends}
use fast_port.Rio.Session.Delivery.{Delivered, rio_read-Delivered}
use fast_port.Rio.Session.Messages.{to_send, after, send_message-to_send}

-- One whole packet of id 1 and the first byte of another.
abbrev filled_buffer : ExternalCircleBufferQueue
filled_buffer = record {
  buffer = 1 ∷ 7 ∷ 0 ∷ 9 ∷ 9 ∷ 0 ∷ 5 ∷ 0 ∷ [];
  head = 3;
  tail = 5;
  size = 6;
  capacity = 8;
}

abbrev empty_buffer : ExternalCircleBufferQueue
empty_buffer = record {
  buffer = 0 ∷ 0 ∷ 0 ∷ 0 ∷ 0 ∷ 0 ∷ 0 ∷ 0 ∷ [];
  head = 0;
  tail = 0;
  size = 0;
  capacity = 8;
}

abbrev slice : ℕ → RioBufferSlice
slice at = record { buffer_id = 7; offset = at; len = 8; address = 4096 + at }

-- A system that takes every operation and a subclass that only listens.
abbrev quiet : RioEnv ExternalCircleBufferQueue
quiet = record {
  rio_receive = λ buf s. true;
  rio_send = λ buf s. true;
  on_packet_received = λ p. [];
}

abbrev fresh : RioSession ExternalCircleBufferQueue
fresh = new_session true (slice 0) (slice 64) empty_buffer empty_buffer

-- Two messages of five bytes: the second one does not fit the send buffer whole.
abbrev begun : RioSession ExternalCircleBufferQueue
begun =
    send_message external quiet 4 (8 ∷ [])
      (send_message external quiet 3 (7 ∷ []) (initialize_session external quiet fresh).1)

begun-Reach : Reach external quiet fresh begun
begun-Reach =
    next (next (next here initializes) (sends_message 3 (7 ∷ []))) (sends_message 4 (8 ∷ []))

empty-IsValid : external.IsValid empty_buffer
empty-IsValid = omega arith

none_held : external.contents empty_buffer ≡ []
unfolding Refine.contents
none_held = refl

Reach-conserves_example :
    (begun.sent_bytes ++ outgoing external begun.send_buffer begun.pending_send_queue
      ≡ begun.taken_bytes)
    × (begun.recvs ≤ 1)
    × (begun.sends ≤ 1)
Reach-conserves_example =
    Reach-conserves external quiet true (slice 0) (slice 64) empty_buffer empty_buffer begun
      empty-IsValid none_held begun-Reach

begun-connected : begun.is_disconnected ≡ false
unfolding send_message flush_pending_send_queue try_post_send_from_queue post_send post_span enqueue
    flush_packets initialize_session start_receive_loop request_recv post_recv packet_data
    External.write External.can_write_size External.get_read_buffers External.get_writeable_buffers
    External.commit_write written spans_from first_part to_network
begun-connected = refl

begun-outgoing : length (outgoing external begun.send_buffer begun.pending_send_queue) ≡ 10
unfolding send_message flush_pending_send_queue try_post_send_from_queue post_send post_span enqueue
    flush_packets initialize_session start_receive_loop request_recv post_recv packet_data
    External.write External.can_write_size External.get_read_buffers External.get_writeable_buffers
    External.commit_write written spans_from first_part to_network Refine.contents
begun-outgoing = refl

begun_waits : outgoing external begun.send_buffer begun.pending_send_queue ≢ []
begun_waits = λ e. absurd (omega (arith, begun-outgoing, ap length e))

Reach-sends_example : begun.sends ≡ 1
Reach-sends_example =
    Reach-sends external quiet (λ buf s. refl) true (slice 0) (slice 64) empty_buffer empty_buffer
      begun empty-IsValid none_held (λ z. absurd (omega (arith, z))) begun-Reach begun-connected
      begun_waits

abbrev holding : RioSession ExternalCircleBufferQueue
holding = new_session true (slice 0) (slice 64) filled_buffer empty_buffer

filled-IsValid : external.IsValid filled_buffer
filled-IsValid = omega arith

rio_read-Delivered_example :
    Delivered external quiet
      (λ p. refl)
      (decode (external.contents filled_buffer))
      holding
      (read_received_buffers external quiet holding)
rio_read-Delivered_example = rio_read-Delivered external quiet (λ p. refl) holding filled-IsValid

begun-IsValid : external.IsValid begun.send_buffer
unfolding send_message flush_pending_send_queue try_post_send_from_queue post_send post_span enqueue
    flush_packets initialize_session start_receive_loop request_recv post_recv packet_data
    External.write External.can_write_size External.get_read_buffers External.get_writeable_buffers
    External.commit_write written spans_from first_part to_network scatter copy_in
begun-IsValid = omega arith

send_message-to_send_example :
    let t = send_message external quiet 3 (7 ∷ []) begun in
    let over = ltb max_pending_bytes begun.pending_total_bytes in
    (to_send external t ≡ after external quiet 3 (7 ∷ []) begun)
    × (t.sent_bytes ≡ begun.sent_bytes)
    × (t.events ≡ (
        if begun.is_disconnected
        then begun.events
        else if over
        then disconnected ∷ begun.events
        else begun.events))
    × (t.is_disconnected ≡ (if begun.is_disconnected then true else over))
    × external.IsValid t.send_buffer
send_message-to_send_example = send_message-to_send external quiet 3 (7 ∷ []) begun begun-IsValid
