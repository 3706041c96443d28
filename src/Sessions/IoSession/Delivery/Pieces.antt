-- ===== src/Sessions/IoSession/Delivery/Pieces.antt =====
-- A stream that arrives in two pieces is delivered like one that arrives whole.
use fast_port.Prelude.{
  ℕ, ◌-◌, ◌≤◌, ◌≡◌, ◌≢◌, ◌∙◌, ap, sym, refl, true, false, List, [], ◌∷◌, ◌++◌, length, arith,
}
use fast_port.Buffers.Interface.{IBuffer}
use fast_port.Buffers.Fifo
use fast_port.Buffers.Span.{scatter}
use fast_port.Packets.Packet.{Packet}
use fast_port.Packets.Stream.{decode, continue}
use fast_port.Packets.Stream.Chunks.{decode-append}
use fast_port.Sessions.IoSession.State.{Session, Env, Event, packet_received}
use fast_port.Sessions.IoSession.Receiving.{read_received_buffers}
use fast_port.Sessions.IoSession.Delivery.{tell, Delivered, read_received_buffers-Delivered}

tell-append : (ps qs : List Packet) (es : List Event) → tell (ps ++ qs) es ≡ tell qs (tell ps es)
tell-append [] qs es = refl
tell-append (p ∷ ps) qs es = tell-append ps qs (packet_received p ∷ es)

module _ (I : IBuffer) (env : Env I.Buf)
    (passive : (p : Packet) → env.on_packet_received p ≡ []) where
  open I use {
    Buf, memory, with_memory, get_writeable_buffers, commit_write, IsValid, contents, capacity,
  }

  -- What the system's filling of the writable spans and the commit leave of a buffer.
  abbrev pub filled : Buf → List ℕ → Buf
  filled b bytes =
      let spans = (get_writeable_buffers b).1 in
      (commit_write (with_memory b (scatter (memory b) spans bytes)) (length bytes)).1

  filled_law :
      (b : Buf) (bytes : List ℕ)
      → IsValid b
      → length bytes ≤ capacity b - length (contents b)
      → (contents (filled b bytes) ≡ contents b ++ bytes) × IsValid (filled b bytes)
  unfolding Fifo.append
  filled_law b bytes v h =
      let written = I.write_law b bytes v in ground (arith, I.receive_law b bytes v, written)

  -- A running session with a valid receive buffer and an operation in flight, whose subclass only
  -- listens, that reads what it holds and meets no bad size, then receives more bytes that fit behind the
  -- undecoded rest, and reads again, reports in all what the joined bytes decode to; between the two reads
  -- the session keeps its buffer and its events, still runs, and has an operation in flight.
  pub read_received_buffers-pieces :
      (s u : Session Buf) (bytes : List ℕ)
      → IsValid s.receive_buffer
      → s.disconnect_requested ≡ false
      → s.outstanding_io_count ≢ 0
      → (decode (contents s.receive_buffer)).valid ≡ true
      → u.receive_buffer ≡ (read_received_buffers I env s).receive_buffer
      → u.events ≡ (read_received_buffers I env s).events
      → u.disconnect_requested ≡ false
      → u.outstanding_io_count ≢ 0
      → length bytes ≤ capacity u.receive_buffer - length (contents u.receive_buffer)
      → Delivered I env passive (decode (contents s.receive_buffer ++ bytes)) s (
          read_received_buffers I env (record u { receive_buffer = filled u.receive_buffer bytes }))
  unfolding continue
  read_received_buffers-pieces s u bytes v e ne ok sameb samee e' ne' fits =
      let d = read_received_buffers-Delivered I env passive s v e ne in
      let law = filled_law u.receive_buffer bytes (rw sameb d.sound) fits in
      let u' : Session Buf = record u { receive_buffer = filled u.receive_buffer bytes } in
      let d' = read_received_buffers-Delivered I env passive u' law.1 e' ne' in
      let first = decode (contents s.receive_buffer) in
      let second = decode (contents u'.receive_buffer) in
      let joined : decode (contents s.receive_buffer ++ bytes)
          ≡ record second { packets = first.packets ++ second.packets } =
        rw (decode-append (contents s.receive_buffer) bytes, ok, law.0, sameb, d.buffer) refl in
      rw joined (record {
        buffer = d'.buffer;
        told =
            d'.told
            ∙ (ap (tell second.packets) (samee ∙ d.told)
                ∙ sym (tell-append first.packets second.packets s.events));
        ended = d'.ended;
        sound = d'.sound;
      })
