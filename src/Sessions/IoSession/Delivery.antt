-- ===== src/Sessions/IoSession/Delivery.antt =====
-- What a session delivers of the bytes that it holds: the packets of the stream, in order.
pub mod Pieces
use fast_port.Prelude.{
  ℕ, zero, suc, ◌<◌, ◌≡◌, ◌≢◌, refl, true, false, not, List, [], ◌∷◌, length, take, drop,
  length-drop, arith, inl, inr,
}
use fast_port.Buffers.Interface.{IBuffer}
use fast_port.Packets.Packet.{Packet, from_buffers, get_header_from_buffer}
use fast_port.Packets.Stream.{more, bad, packet, next, Decoded, decode_rounds, decode}
use fast_port.Packets.Stream.Chunks.{next-cases, decode-exhausts}
use fast_port.Packets.Framer.{try_frame_from_buffer}
use fast_port.Packets.Framer.Refine.{framed, try_frame-next}
use fast_port.Sessions.IoSession.State.{Session, Env, Event, packet_received}
use fast_port.Sessions.IoSession.Disconnect.{
  request_disconnect, request_disconnect_with, first_pass,
}
use fast_port.Sessions.IoSession.Sending.{run_calls}
use fast_port.Sessions.IoSession.Receiving.{
  dispatch_frame, read_round, read_rounds, read_received_buffers,
}

-- Reporting packets, the first one first.
abbrev pub tell : List Packet → List Event → List Event
tell [] es = es
tell (p ∷ ps) es = tell ps (packet_received p ∷ es)

module _ (I : IBuffer) (env : Env I.Buf)
    (passive : (p : Packet) → env.on_packet_received p ≡ []) where
  open I use {Buf, IsValid, contents}

  pub record Delivered (d : Decoded) (s t : Session Buf) : Type 0 where
    pub buffer : contents t.receive_buffer ≡ d.rest
    pub told : t.events ≡ tell d.packets s.events
    pub ended : t.disconnect_requested ≡ not d.valid
    pub sound : IsValid t.receive_buffer

  -- The buffer that the framer leaves.
  abbrev left : Session Buf → Buf
  left s = (try_frame_from_buffer I s.receive_buffer).1

  round-more :
      (s : Session Buf)
      → IsValid s.receive_buffer
      → s.disconnect_requested ≡ false
      → next (contents s.receive_buffer) ≡ more
      → (read_round I env s ≡ (false, record s { receive_buffer = left s }))
        × (contents (left s) ≡ contents s.receive_buffer)
  unfolding read_round dispatch_frame framed
  round-more s v e h = let law = (try_frame-next I s.receive_buffer v).0 in ground (arith, law, h)

  round-bad :
      (s : Session Buf)
      → IsValid s.receive_buffer
      → s.disconnect_requested ≡ false
      → next (contents s.receive_buffer) ≡ bad
      → (read_round I env s ≡ (false, request_disconnect I (record s { receive_buffer = left s })))
        × (contents (left s) ≡ contents s.receive_buffer)
  unfolding read_round dispatch_frame framed
  round-bad s v e h = let law = (try_frame-next I s.receive_buffer v).0 in ground (arith, law, h)

  round-packet :
      (s : Session Buf) (raw rest : List ℕ)
      → IsValid s.receive_buffer
      → s.disconnect_requested ≡ false
      → next (contents s.receive_buffer) ≡ packet raw rest
      → (read_round I env s ≡ (
        true,
        record s {
          receive_buffer = left s;
          events = packet_received (from_buffers raw) ∷ s.events;
        },
      ))
        × (contents (left s) ≡ rest)
  unfolding read_round dispatch_frame framed run_calls
  round-packet s raw rest v e h =
      let law = (try_frame-next I s.receive_buffer v).0 in
      ground (arith, law, h, passive (from_buffers raw))

  -- A bad size ends the session; with an operation still in flight the buffer keeps its bytes.
  ended_by_bad :
      (s : Session Buf)
      → s.outstanding_io_count ≢ 0
      → s.disconnect_requested ≡ false
      → let t = request_disconnect I s in
        (t.receive_buffer ≡ s.receive_buffer)
        × (t.events ≡ s.events)
        × (t.disconnect_requested ≡ true)
  unfolding request_disconnect request_disconnect_with first_pass
  ended_by_bad s ne e = ground arith

  read_rounds-Delivered :
      (n : ℕ) (s : Session Buf)
      → IsValid s.receive_buffer
      → s.disconnect_requested ≡ false
      → s.outstanding_io_count ≢ 0
      → length (contents s.receive_buffer) < n
      → Delivered (decode_rounds n (contents s.receive_buffer)) s (read_rounds I env n s)
  unfolding read_rounds decode_rounds
  read_rounds-Delivered zero s v e ne h = absurd (omega arith)
  read_rounds-Delivered (suc n) s v e ne h = elim (next-cases (contents s.receive_buffer)) [
    | inl m ↦
        rw (m, decode_rounds, (round-more s v e m).0, read_rounds, (round-more s v e m).0)
          (record { buffer = (round-more s v e m).1; told = refl; ended = e; sound = valid })
    | inr (inl (b, _, _)) ↦
        let t : Session Buf = record s { receive_buffer = left s } in
        let after = ended_by_bad t ne e in
        rw (b, decode_rounds, (round-bad s v e b).0, read_rounds, (round-bad s v e b).0)
          (record {
            buffer = rw after.0 (round-bad s v e b).1;
            told = after.1;
            ended = after.2;
            sound = rw after.0 valid;
          })
    | inr (inr (p, _, four, whole)) ↦
        let size = get_header_from_buffer (contents s.receive_buffer) in
        let raw = take size (contents s.receive_buffer) in
        let rest = drop size (contents s.receive_buffer) in
        let t : Session Buf = record s {
          receive_buffer = left s;
          events = packet_received (from_buffers raw) ∷ s.events;
        } in
        let one = round-packet s raw rest v e p in
        let shorter : length (contents (left s)) < n =
          rw one.1 (omega (arith, length-drop size (contents s.receive_buffer))) in
        let d = read_rounds-Delivered n t valid e ne shorter in
        rw (p, decode_rounds, one.0, read_rounds, one.0, ← one.1)
          (record { buffer = d.buffer; told = d.told; ended = d.ended; sound = d.sound })
  ]
    where
      valid : IsValid (left s)
      valid = (try_frame-next I s.receive_buffer v).1

  -- The receive loop of a running session with a valid receive buffer and an operation in flight, whose
  -- subclass only listens, reports exactly the packets that its bytes decode to, in order, keeps the
  -- undecoded rest for the next receive, and asks for the end of the session exactly when a size below
  -- four is met.
  pub read_received_buffers-Delivered :
      (s : Session Buf)
      → IsValid s.receive_buffer
      → s.disconnect_requested ≡ false
      → s.outstanding_io_count ≢ 0
      → Delivered (decode (contents s.receive_buffer)) s (read_received_buffers I env s)
  unfolding read_received_buffers decode
  read_received_buffers-Delivered s v e ne =
      rw (I.can_read_law s.receive_buffer v)
        (read_rounds-Delivered (suc (length (contents s.receive_buffer))) s v e ne (omega arith))

  -- The rounds of the receive loop are enough: in a session with a valid receive buffer and an operation
  -- in flight, whose subclass only listens, and which still runs behind the loop, the loop has stopped
  -- where the buffer holds no whole packet in front.
  pub read_received_buffers-exhausts :
      (s : Session Buf)
      → IsValid s.receive_buffer
      → s.disconnect_requested ≡ false
      → s.outstanding_io_count ≢ 0
      → (read_received_buffers I env s).disconnect_requested ≡ false
      → next (contents (read_received_buffers I env s).receive_buffer) ≡ more
  read_received_buffers-exhausts s v e ne runs =
      let d = read_received_buffers-Delivered s v e ne in
      rw d.buffer (decode-exhausts (contents s.receive_buffer) (ground (arith, d.ended, runs)))
