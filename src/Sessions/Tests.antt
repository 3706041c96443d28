-- ===== src/Sessions/Tests.antt =====
-- A session over two circle buffers, on concrete messages and completions.
use fast_port.Prelude.{◌-◌, ◌≤◌, ◌<◌, ◌≡◌, refl, true, false, List, [], ◌∷◌, ◌++◌, length, arith}
use fast_port.Buffers.Span.{Span, scatter, first_part, spans_from, copy_out}
use fast_port.Buffers.Circle
use fast_port.Buffers.Circle.{CircleBufferQueue}
use fast_port.Buffers.Circle.Bounds.{IsValid}
use fast_port.Buffers.Circle.Refine.{contents}
use fast_port.Buffers.Interface.Instances.{circle}
use fast_port.Packets.Packet.{
  make_raw_binaries, to_network, get_packet_size, get_header_from_buffer, from_network,
  from_buffers, get_packet_id_from_buffer,
}
use fast_port.Packets.Stream
use fast_port.Packets.Stream.{decode, decode_rounds}
use fast_port.Packets.Framer.{try_frame_from_buffer}
use fast_port.Sessions.IoSession.State.{Session, Env}
use fast_port.Sessions.Gather.{write_to_buffers}
use fast_port.Sessions.IoSession.Disconnect.{leave_completion, try_fire_on_disconnected}
use fast_port.Sessions.IoSession.Posting.{
  start_receive_loop, request_received, request_recv, prepare_recv_buffers, wsa_recv_call,
}
use fast_port.Sessions.IoSession.Sending.{
  write_message, send_message, try_post_send_from_queue, post_send, prepare_send_buffers,
  wsa_send_call, write_body, run_calls,
}
use fast_port.Sessions.IoSession.Sending.Appends.{send_message_appends}
use fast_port.Sessions.IoSession.Receiving.{
  handle_recv_completion, handle_zero_byte_recv_completion, read_received_buffers, read_rounds,
  read_round, dispatch_frame, on_recv_completed,
}
use fast_port.Sessions.IoSession.Delivery.{
  Delivered, read_received_buffers-Delivered, read_received_buffers-exhausts,
}
use fast_port.Sessions.IoSession.Delivery.Pieces.{filled, read_received_buffers-pieces}
use fast_port.Sessions.IoSession.Lifetime.Reach.{
  init, received, Reach, Accounted, here, next, starts, sends_message, recv_completes, lifetime,
}
use fast_port.Sessions.IoSession.Lifetime.Silence.{Silent, Step-Silent}

abbrev empty_buffer : CircleBufferQueue
empty_buffer = record {
  buffer = 0 ∷ 0 ∷ 0 ∷ 0 ∷ 0 ∷ 0 ∷ 0 ∷ 0 ∷ [];
  head = 0;
  tail = 0;
  size = 0;
  capacity = 8;
}

-- One whole packet of id 1 and the first byte of another.
abbrev filled_buffer : CircleBufferQueue
filled_buffer = record {
  buffer = 1 ∷ 7 ∷ 0 ∷ 9 ∷ 9 ∷ 0 ∷ 5 ∷ 0 ∷ [];
  head = 3;
  tail = 5;
  size = 6;
  capacity = 8;
}

empty-IsValid : IsValid empty_buffer
empty-IsValid = omega arith

filled-IsValid : IsValid filled_buffer
filled-IsValid = omega arith

-- A system that takes every operation and a subclass that only listens.
abbrev quiet : Env CircleBufferQueue
quiet = record {
  wsa_recv = λ s. true;
  wsa_send = λ s. true;
  now_ms = λ s. 0;
  on_packet_received = λ p. [];
  on_sent = λ n. [];
}

abbrev fresh : Session CircleBufferQueue
fresh = init empty_buffer empty_buffer

abbrev running : Session CircleBufferQueue
running = record fresh { outstanding_io_count = 1; recvs = 1; receive_buffer = filled_buffer }

abbrev ending : Session CircleBufferQueue
ending = record running { disconnect_requested = true }

-- Started, a message sent, and the zero-byte receive completed.
abbrev begun : Session CircleBufferQueue
begun = send_message circle quiet 3 (7 ∷ []) (start_receive_loop circle quiet fresh)

abbrev history : Session CircleBufferQueue
history =
    on_recv_completed circle quiet true 0
      (received circle quiet [] (record begun { recvs = begun.recvs - 1 }))

begun-recvs : begun.recvs ≡ 1
unfolding send_message start_receive_loop request_received request_recv prepare_recv_buffers
    wsa_recv_call Circle.allocate_write try_post_send_from_queue post_send Circle.get_read_buffers
    prepare_send_buffers wsa_send_call
begun-recvs = refl

-- The message of `begun` is in flight, and the real receive was posted.
history_state :
    (history.recvs ≡ 1)
    × (history.sends ≡ 1)
    × (history.is_zero_byte ≡ false)
    × (contents history.send_buffer ≡ make_raw_binaries 3 (7 ∷ []))
unfolding on_recv_completed leave_completion handle_recv_completion handle_zero_byte_recv_completion
    received send_message start_receive_loop request_received request_recv prepare_recv_buffers
    wsa_recv_call Circle.allocate_write try_post_send_from_queue post_send Circle.get_read_buffers
    prepare_send_buffers wsa_send_call first_part scatter spans_from write_to_buffers write_body
    write_message contents make_raw_binaries try_fire_on_disconnected Circle.get_writeable_buffers
    to_network get_packet_size
history_state = (refl, refl, refl, refl)

history-Reach : Reach circle quiet fresh history
history-Reach =
    next (next (next here starts) (sends_message 3 (7 ∷ [])))
      (recv_completes true [] (omega (arith, begun-recvs)))

lifetime_example : Accounted history
lifetime_example = lifetime circle quiet empty_buffer empty_buffer history-Reach

Step-Silent_example : Silent ending (send_message circle quiet 3 (7 ∷ []) ending)
Step-Silent_example = Step-Silent circle quiet refl (sends_message 3 (7 ∷ []))

five_fit : 5 ≤ 8 - length (contents empty_buffer)
unfolding contents
five_fit = omega arith

nine_do_not : 8 - length (contents empty_buffer) < 9
unfolding contents
nine_do_not = omega arith

send_message_appends_example :
    let t = send_message circle quiet 3 (7 ∷ []) fresh in
    (contents t.send_buffer ≡ contents empty_buffer ++ make_raw_binaries 3 (7 ∷ []))
    × IsValid t.send_buffer
send_message_appends_example =
    send_message_appends circle quiet 3 (7 ∷ []) fresh empty-IsValid refl five_fit

abbrev halves : List Span
halves = record { start = 5; len = 3 } ∷ record { start = 0; len = 2 } ∷ []

read_received_buffers-Delivered_example :
    Delivered circle quiet
      (λ p. refl)
      (decode (contents filled_buffer))
      running
      (read_received_buffers circle quiet running)
read_received_buffers-Delivered_example =
    read_received_buffers-Delivered circle quiet (λ p. refl) running filled-IsValid refl
      (omega arith)

-- The rest of the second packet arrives.
abbrev resumed : Session CircleBufferQueue
resumed =
    let t = read_received_buffers circle quiet running in
    record running { receive_buffer = t.receive_buffer; events = t.events }

filled-valid : (decode (contents filled_buffer)).valid ≡ true
unfolding decode decode_rounds Stream.next contents get_header_from_buffer from_network
filled-valid = refl

free_now : resumed.receive_buffer.capacity - length (contents resumed.receive_buffer) ≡ 7
unfolding read_received_buffers read_rounds read_round dispatch_frame try_frame_from_buffer
    Circle.can_read_size Circle.peek Circle.pop copy_out first_part contents get_header_from_buffer
    from_network from_buffers get_packet_id_from_buffer run_calls
free_now = refl

read_received_buffers-pieces_example :
    Delivered circle quiet
      (λ p. refl)
      (decode (contents filled_buffer ++ (4 ∷ 0 ∷ 9 ∷ [])))
      running
      (read_received_buffers circle quiet (record resumed {
        receive_buffer = filled circle quiet (λ p. refl) resumed.receive_buffer (4 ∷ 0 ∷ 9 ∷ []);
      }))
read_received_buffers-pieces_example =
    read_received_buffers-pieces circle quiet (λ p. refl) running resumed (4 ∷ 0 ∷ 9 ∷ [])
      filled-IsValid refl (omega arith) filled-valid refl refl refl (omega arith)
      (omega (arith, free_now))

still_running : (read_received_buffers circle quiet running).disconnect_requested ≡ false
unfolding read_received_buffers read_rounds read_round dispatch_frame try_frame_from_buffer
    Circle.can_read_size Circle.peek Circle.pop copy_out first_part get_header_from_buffer
    from_network from_buffers get_packet_id_from_buffer run_calls
still_running = refl

read_received_buffers-exhausts_example :
    Stream.next (contents (read_received_buffers circle quiet running).receive_buffer) ≡ Stream.more
read_received_buffers-exhausts_example =
    read_received_buffers-exhausts circle quiet (λ p. refl) running filled-IsValid refl
      (omega arith) still_running
