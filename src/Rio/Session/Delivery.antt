-- ===== src/Rio/Session/Delivery.antt =====
-- What a RIO session delivers of the bytes that it holds, and what SendMessage takes.
use fast_port.Prelude.{
  ℕ, zero, suc, ◌<◌, ◌≡◌, refl, true, false, List, [], ◌∷◌, ◌++◌, length, take, drop, length-drop,
  ltb, arith, inl, inr, if◌then◌else◌, Bool_cases, eq_cases, to_u16, ap,
}
use fast_port.Buffers.Interface.{IBuffer}
use fast_port.Packets.Packet.{
  Packet, from_buffers, get_header_from_buffer, make_raw_binaries, to_network, get_packet_size,
}
use fast_port.Packets.Stream.{more, bad, packet, next, Decoded, decode_rounds, decode}
use fast_port.Packets.Stream.Chunks.{next-cases}
use fast_port.Packets.Framer.{try_frame_from_buffer}
use fast_port.Packets.Framer.Refine.{framed, try_frame-next}
use fast_port.Sessions.IoSession.State.{packet_received, disconnected}
use fast_port.Sessions.IoSession.Delivery.{tell}
use fast_port.Buffers.Span.{Span}
use fast_port.Rio.Session.State.{RioSession, RioEnv, rio_buf, max_pending_bytes}
use fast_port.Rio.Session.Invariant.{enqueue_shape}
use fast_port.Rio.Session.Sending.{
  packet_data, flush_packets, enqueue, post_span, post_send, try_post_send_from_queue,
  flush_pending_send_queue, send_message, send_messages,
}
use fast_port.Rio.Session.Receiving.{read_round, read_rounds, read_received_buffers}

module _ (I : IBuffer) (env : RioEnv I.Buf)
    (passive : (p : Packet) → env.on_packet_received p ≡ []) where
  open I use {Buf, IsValid, contents}

  pub record Delivered (d : Decoded) (s t : RioSession Buf) : Type 0 where
    pub buffer : contents t.receive_buffer ≡ d.rest
    pub told : t.events ≡ tell d.packets s.events
    pub connected : t.is_disconnected ≡ s.is_disconnected

  abbrev left : RioSession Buf → Buf
  left s = (try_frame_from_buffer I s.receive_buffer).1

  round-more :
      (s : RioSession Buf)
      → IsValid s.receive_buffer
      → next (contents s.receive_buffer) ≡ more
      → (read_round I env s ≡ (false, record s { receive_buffer = left s }))
        × (contents (left s) ≡ contents s.receive_buffer)
  unfolding read_round framed
  round-more s v h = let law = (try_frame-next I s.receive_buffer v).0 in ground (arith, law, h)

  round-bad :
      (s : RioSession Buf)
      → IsValid s.receive_buffer
      → next (contents s.receive_buffer) ≡ bad
      → (read_round I env s ≡ (false, record s { receive_buffer = left s }))
        × (contents (left s) ≡ contents s.receive_buffer)
  unfolding read_round framed
  round-bad s v h = let law = (try_frame-next I s.receive_buffer v).0 in ground (arith, law, h)

  round-packet :
      (s : RioSession Buf) (raw rest : List ℕ)
      → IsValid s.receive_buffer
      → next (contents s.receive_buffer) ≡ packet raw rest
      → (read_round I env s ≡ (
        true,
        record s {
          receive_buffer = left s;
          events = packet_received (from_buffers raw) ∷ s.events;
        },
      ))
        × (contents (left s) ≡ rest)
  unfolding read_round framed send_messages
  round-packet s raw rest v h =
      let law = (try_frame-next I s.receive_buffer v).0 in
      ground (arith, law, h, passive (from_buffers raw))

  read_rounds-Delivered :
      (n : ℕ) (s : RioSession Buf)
      → IsValid s.receive_buffer
      → length (contents s.receive_buffer) < n
      → Delivered (decode_rounds n (contents s.receive_buffer)) s (read_rounds I env n s)
  unfolding read_rounds decode_rounds
  read_rounds-Delivered zero s v h = absurd (omega arith)
  read_rounds-Delivered (suc n) s v h = elim (next-cases (contents s.receive_buffer)) [
    | inl m ↦
        rw (m, decode_rounds, (round-more s v m).0, read_rounds, (round-more s v m).0)
          (record { buffer = (round-more s v m).1; told = refl; connected = refl })
    | inr (inl (b, _, _)) ↦
        rw (b, decode_rounds, (round-bad s v b).0, read_rounds, (round-bad s v b).0)
          (record { buffer = (round-bad s v b).1; told = refl; connected = refl })
    | inr (inr (p, _, four, whole)) ↦
        let size = get_header_from_buffer (contents s.receive_buffer) in
        let raw = take size (contents s.receive_buffer) in
        let rest = drop size (contents s.receive_buffer) in
        let t : RioSession Buf = record s {
          receive_buffer = left s;
          events = packet_received (from_buffers raw) ∷ s.events;
        } in
        let one = round-packet s raw rest v p in
        let shorter : length (contents (left s)) < n =
          rw one.1 (omega (arith, length-drop size (contents s.receive_buffer))) in
        let d = read_rounds-Delivered n t (try_frame-next I s.receive_buffer v).1 shorter in
        rw (p, decode_rounds, one.0, read_rounds, one.0, ← one.1)
          (record { buffer = d.buffer; told = d.told; connected = d.connected })
  ]

  -- The receive loop of a RIO session with a valid receive buffer, whose subclass only listens, reports
  -- exactly the packets that its bytes decode to, in order, and keeps the undecoded rest; it stays
  -- connected even when the rest begins with a bad size.
  pub rio_read-Delivered :
      (s : RioSession Buf)
      → IsValid s.receive_buffer
      → Delivered (decode (contents s.receive_buffer)) s (read_received_buffers I env s)
  unfolding read_received_buffers decode
  rio_read-Delivered s v =
      rw (I.can_read_law s.receive_buffer v)
        (read_rounds-Delivered (suc (length (contents s.receive_buffer))) s v (omega arith))

module _ (I : IBuffer) (env : RioEnv I.Buf) where
  open I use {Buf}

  -- What sending does not change.
  abbrev Same : RioSession Buf → RioSession Buf → Type 0
  Same s t =
      (t.taken_bytes ≡ s.taken_bytes)
      × (t.events ≡ s.events)
      × (t.is_disconnected ≡ s.is_disconnected)

  post_span-Same : (spans : List Span) (s : RioSession Buf) → Same s (post_span I env s spans)
  unfolding post_span
  post_span-Same [] s = (refl, refl, refl)
  post_span-Same (span ∷ ss) s =
      Bool_cases (Same s) (env.rio_send (rio_buf s.send_slice span) s) (λ yes. (refl, refl, refl))
        (λ no. (refl, refl, refl))

  post_send-Same : (s : RioSession Buf) → Same s (post_send I env s)
  unfolding post_send
  post_send-Same s =
      eq_cases (Same s) (I.get_read_buffers s.send_buffer).0 0 (λ z. (refl, refl, refl))
        (λ ne. post_span-Same (I.get_read_buffers s.send_buffer).1 s)

  flush-Same : (s : RioSession Buf) → Same s (flush_pending_send_queue I env s)
  unfolding flush_pending_send_queue try_post_send_from_queue
  flush-Same s =
      let (ps, b, n) = flush_packets I s.pending_send_queue s.send_buffer s.pending_total_bytes in
      Bool_cases (Same s) s.send_in_progress (λ busy. (refl, refl, refl))
        (λ free. post_send-Same (record s {
          send_buffer = b;
          pending_send_queue = ps;
          pending_total_bytes = n;
          send_in_progress = true;
        }))

  pub packet_data-make_raw_binaries :
      (id : ℕ) (body : List ℕ) → packet_data id body ≡ make_raw_binaries id body
  unfolding packet_data make_raw_binaries get_packet_size
  packet_data-make_raw_binaries id body =
      ap (λ n. to_network (to_u16 n) ++ (to_network id ++ body)) (omega arith)

  -- SendMessage takes the bytes that `make_raw_binaries` makes of the id and the body, behind all that was
  -- taken before, and reports nothing, when the session is connected and at most 10 MB wait; when more
  -- wait, it takes nothing, ends the connection and reports that; on a session that is not connected it
  -- does nothing.
  pub send_message-taken :
      (id : ℕ) (body : List ℕ) (s : RioSession Buf)
      → let t = send_message I env id body s in
        let over = ltb max_pending_bytes s.pending_total_bytes in
        (t.taken_bytes ≡ (
          if s.is_disconnected
          then s.taken_bytes
          else if over
          then s.taken_bytes
          else s.taken_bytes ++ make_raw_binaries id body))
        × (t.events ≡ (
            if s.is_disconnected
            then s.events
            else if over
            then disconnected ∷ s.events
            else s.events))
        × (t.is_disconnected ≡ (if s.is_disconnected then true else over))
  unfolding send_message
  send_message-taken id body s =
      let bytes = packet_data-make_raw_binaries id body in
      let shape = enqueue_shape I (packet_data id body) s in
      let kept = flush-Same (enqueue I (packet_data id body) s) in
      ground (
        arith,
        bytes,
        ap (λ u. u.taken_bytes) shape,
        ap (λ u. u.events) shape,
        ap (λ u. u.is_disconnected) shape,
        kept,
      )
