-- ===== src/Rio/Session/Sending.antt =====
-- Sending of RIOSession: a message goes into the send buffer, or waits in a queue that is moved there as
-- room appears; one send is in flight at a time.
use fast_port.Prelude.{
  ℕ, ◌+◌, ◌-◌, Bool, true, false, List, [], ◌∷◌, ◌++◌, length, take, drop, ltb, leb, ◌==◌,
  if◌then◌else◌, to_u16, add64, sub64, min,
}
use fast_port.Buffers.Interface.{IBuffer}
use fast_port.Buffers.Span.{Span, scatter, gather}
use fast_port.Packets.Packet.{to_network, header_size, packet_id_size}
use fast_port.Sessions.IoSession.State.{disconnected}
use fast_port.Rio.Session.State.{PendingPacket, RioSession, RioEnv, rio_buf, max_pending_bytes}

-- What SendMessage serialises.
unfoldable pub packet_data : ℕ → List ℕ → List ℕ
packet_data packet_id body =
    let total_size = header_size + packet_id_size + length body in
    to_network (to_u16 total_size) ++ (to_network packet_id ++ body)

-- How much the copying loop of the flush writes.
unfoldable pub written : List Span → ℕ → ℕ
written [] remaining = 0
written (s ∷ ss) remaining =
    let rest = written ss (remaining - min remaining s.len) in
    if remaining == 0 then 0 else min remaining s.len + rest

abbrev pub is_empty : {A : Type 0} → List A → Bool
is_empty [] = true
is_empty (x ∷ xs) = false

module _ (I : IBuffer) where
  open I use {Buf, memory, with_memory, write, can_write_size, get_writeable_buffers, commit_write}

  -- The loop of FlushPendingSendQueue: the queue, the buffer and the pending bytes.
  unfoldable pub flush_packets : List PendingPacket → Buf → ℕ → List PendingPacket × Buf × ℕ
  flush_packets [] b pending_total = ([], b, pending_total)
  flush_packets (p ∷ ps) b pending_total =
      let (available, spans) = get_writeable_buffers b in
      let to_write = min (length p.bytes - p.offset) available in
      let n = written spans to_write in
      let filled =
        with_memory b (scatter (memory b) spans (take to_write (drop p.offset p.bytes))) in
      let b' = (commit_write filled n).1 in
      let rest = flush_packets ps b' (sub64 pending_total (length p.bytes)) in
      if available == 0
      then (p ∷ ps, b, pending_total)
      else if leb (length p.bytes) (p.offset + n)
      then rest
      else (record p { offset = p.offset + n } ∷ ps, b', pending_total)

  -- The part of SendMessage under the lock.
  unfoldable pub enqueue : List ℕ → RioSession Buf → RioSession Buf
  enqueue data_bytes s =
      let (done, b') =
        if is_empty s.pending_send_queue
        then (if leb (length data_bytes) (can_write_size s.send_buffer)
            then write s.send_buffer data_bytes
            else (false, s.send_buffer))
        else (false, s.send_buffer) in
      if done
      then record s { send_buffer = b'; taken_bytes = s.taken_bytes ++ data_bytes }
      else record s {
        send_buffer = b';
        pending_send_queue =
            s.pending_send_queue ++ (record { bytes = data_bytes; offset = 0 } ∷ []);
        pending_total_bytes = add64 s.pending_total_bytes (length data_bytes);
        taken_bytes = s.taken_bytes ++ data_bytes;
      }

  module _ (env : RioEnv Buf) where
    open I use {get_read_buffers}

    -- The first of the spans that show what the buffer holds is given to the system.
    unfoldable pub post_span : RioSession Buf → List Span → RioSession Buf
    post_span s [] = s
    post_span s (span ∷ _) =
        if env.rio_send (rio_buf s.send_slice span) s
        then record s { sends = s.sends + 1; in_flight = gather (memory s.send_buffer) (span ∷ []) }
        else record s { send_in_progress = false }

    -- The part of TryPostSendFromQueue that has taken the flag.
    unfoldable pub post_send : RioSession Buf → RioSession Buf
    post_send s =
        let (bytes_to_send, read_buffers) = get_read_buffers s.send_buffer in
        if bytes_to_send == 0
        then record s { send_in_progress = false }
        else post_span s read_buffers

    unfoldable pub try_post_send_from_queue : RioSession Buf → RioSession Buf
    try_post_send_from_queue s =
        if s.send_in_progress then s else post_send (record s { send_in_progress = true })

    unfoldable pub flush_pending_send_queue : RioSession Buf → RioSession Buf
    flush_pending_send_queue s =
        let (queue, b', pending_total) =
          flush_packets s.pending_send_queue s.send_buffer s.pending_total_bytes in
        try_post_send_from_queue (record s {
          pending_send_queue = queue;
          send_buffer = b';
          pending_total_bytes = pending_total;
        })

    unfoldable pub send_message : ℕ → List ℕ → RioSession Buf → RioSession Buf
    send_message packet_id body s =
        if s.is_disconnected
        then s
        else if ltb max_pending_bytes s.pending_total_bytes
        then record s { is_disconnected = true; events = disconnected ∷ s.events }
        else flush_pending_send_queue (enqueue (packet_data packet_id body) s)

    -- What a callback sends.
    unfoldable pub send_messages : List (ℕ × List ℕ) → RioSession Buf → RioSession Buf
    send_messages [] s = s
    send_messages ((packet_id, body) ∷ ms) s = send_messages ms (send_message packet_id body s)
