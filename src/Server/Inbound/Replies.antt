-- ===== src/Server/Inbound/Replies.antt =====
-- What a RIO server session sends for a packet: the frames of its replies.
use fast_port.Prelude.{
  ℕ, ◌+◌, ◌%◌, ◌^◌, ◌<◌, ◌≡◌, ◌==◌, ◌&&◌, leb, if◌then◌else◌, refl, sym, Bool, true, false, Option,
  none, some, List, [], ◌∷◌, ◌++◌, append-nil, ltb, arith, ◌⊎◌, inl, inr, Bool_cases, eq_cases,
}
use fast_port.Buffers.Interface.{IBuffer}
use fast_port.Packets.Packet.{Packet, from_buffers, make_raw_binaries}
use fast_port.Packets.Stream.{packet, next}
use fast_port.Packets.Framer.{try_frame_from_buffer}
use fast_port.Packets.Framer.Refine.{framed, try_frame-next}
use fast_port.Sessions.IoSession.State.{packet_received}
use fast_port.Rio.Session.State.{RioSession, RioEnv, RioBuf, max_pending_bytes}
use fast_port.Rio.Session.Sending.{send_messages}
use fast_port.Rio.Session.Receiving.{read_round}
use fast_port.Rio.Session.Messages.{to_send, send_message-to_send}
use fast_port.Server.Messages.{Message, ok, benchmark_response, echo_response, Wire}
use fast_port.Server.Admin.Range.{is_admin_packet_id-range}
use fast_port.Server.Admin.{
  summary_request_id, session_list_request_id, CollectorView, Sent, handle_summary_request,
  handle_session_list_request, is_admin_packet_id, caught, handle_packet,
}
use fast_port.Server.Inbound.{
  benchmark_request_id, echo_request_id, Moment, handle_benchmark_request, handle_echo_request,
  dispatch_admin, on_packet_received,
}

module _ (wire : Wire) where
  -- The serialised bodies with their ids, as a session sends them.
  abbrev pub bodies : Sent wire → List (ℕ × List ℕ)
  bodies [] = []
  bodies ((id, m) ∷ ms) = (id, wire.serialize m) ∷ bodies ms

  -- The frames of replies.
  abbrev pub frames : Sent wire → List ℕ
  frames [] = []
  frames ((id, m) ∷ ms) = make_raw_binaries id (wire.serialize m) ++ frames ms

  abbrev AtMostOne : Sent wire → Type 0
  AtMostOne sent = (sent ≡ []) ⊎ ((id : ℕ) × (m : Message) × (sent ≡ (id, m) ∷ []))

  handler-AtMostOne :
      {R : Type 0} (o : Option R) (f : R → ℕ × Message)
      → AtMostOne (elim o [ none ↦ [] | some r ↦ f r ∷ [] ])
  handler-AtMostOne none f = inl refl
  handler-AtMostOne (some r) f = inr ((f r).0, (f r).1, refl)

  caught-AtMostOne :
      (v : CollectorView) (sent : Sent wire) → AtMostOne sent → AtMostOne (caught wire v sent)
  caught-AtMostOne v sent one =
      Bool_cases AtMostOne v.handler_throws (λ thrown. inl refl) (λ ended. one)

  handle_packet-AtMostOne : (v : CollectorView) (p : Packet) → AtMostOne (handle_packet wire v p).1
  unfolding handle_packet handle_summary_request handle_session_list_request
  handle_packet-AtMostOne v p =
      Bool_cases (λ (r : Bool × Sent wire). AtMostOne r.1) (is_admin_packet_id p.packet_id)
        (λ yes.
          eq_cases AtMostOne p.packet_id summary_request_id
            (λ e. caught-AtMostOne v _ (handler-AtMostOne (wire.parse_summary p.payload) _))
            (λ ne.
              eq_cases AtMostOne p.packet_id session_list_request_id
                (λ e.
                  caught-AtMostOne v _ (handler-AtMostOne (wire.parse_session_list p.payload) _))
                (λ other. inl refl)))
        (λ no. inl refl)

  on_packet_received-AtMostOne : (m : Moment) (p : Packet) → AtMostOne (on_packet_received wire m p)
  unfolding on_packet_received handle_benchmark_request handle_echo_request
  on_packet_received-AtMostOne m p =
      Bool_cases AtMostOne (is_admin_packet_id p.packet_id)
        (λ yes. elim m.admin as (λ a. AtMostOne (dispatch_admin wire a p)) [
          | none ↦ inl refl
          | some v ↦ handle_packet-AtMostOne v p
        ])
        (λ no.
          eq_cases AtMostOne p.packet_id benchmark_request_id
            (λ e. handler-AtMostOne (wire.parse_benchmark p.payload) _)
            (λ ne.
              eq_cases AtMostOne p.packet_id echo_request_id
                (λ e. handler-AtMostOne (wire.parse_echo p.payload) _) (λ other. inl refl)))

  -- What a packet is to be answered with.
  abbrev pub reply : Moment → Packet → Sent wire
  reply m p =
      if leb 0x8000 p.packet_id && ltb p.packet_id 0x9000
      then (elim m.admin [ none ↦ [] | some v ↦ (handle_packet wire v p).1 ])
      else if p.packet_id == 4097
      then (elim (wire.parse_benchmark p.payload) [
        | none ↦ []
        | some r ↦
            (
              4098,
              benchmark_response (record {
                header = r.header;
                result = ok;
                client_timestamp_ns = r.client_timestamp_ns;
                server_recv_timestamp_ns = m.recv_ns;
                server_send_timestamp_ns = m.send_ns;
                sequence = r.sequence;
                payload = r.payload;
              }),
            )
            ∷ []
      ])
      else if p.packet_id == 1
      then (elim (wire.parse_echo p.payload) [
        | none ↦ []
        | some r ↦
            (
              1,
              echo_response (record {
                header = record {
                  request_id = (r.header.request_id + 1) % 2 ^ 64;
                  timestamp_ms = m.now_s;
                };
                result = ok;
                data_str = r.data_str;
              }),
            )
            ∷ []
      ])
      else []

  on_packet_received-reply :
      (m : Moment) (p : Packet) → p.packet_id < 2 ^ 16 → on_packet_received wire m p ≡ reply m p
  unfolding on_packet_received handle_benchmark_request handle_echo_request
  on_packet_received-reply m p h =
      let interval = is_admin_packet_id-range p.packet_id h in ground (arith, interval)

  module _ (I : IBuffer) (rio_receive rio_send : RioBuf → RioSession I.Buf → Bool) where
    open I use {Buf, IsValid, contents}

    -- A session whose subclass answers at a moment.
    abbrev pub serving : Moment → RioEnv Buf
    serving m = record {
      rio_receive = rio_receive;
      rio_send = rio_send;
      on_packet_received = λ p. bodies (on_packet_received wire m p);
    }

    -- The session in front of the callback.
    abbrev told : Packet → RioSession Buf → RioSession Buf
    told p s = record s {
      receive_buffer = (try_frame_from_buffer I s.receive_buffer).1;
      events = packet_received p ∷ s.events;
    }

    round-packet :
        (env : RioEnv Buf) (s : RioSession Buf) (raw rest : List ℕ)
        → IsValid s.receive_buffer
        → next (contents s.receive_buffer) ≡ packet raw rest
        → let p = from_buffers raw in
          read_round I env s ≡ (true, send_messages I env (env.on_packet_received p) (told p s))
    unfolding read_round framed
    round-packet env s raw rest v h =
        let law = (try_frame-next I s.receive_buffer v).0 in ground (arith, law, h)

    sent-frames :
        (env : RioEnv Buf) (sent : Sent wire) (s : RioSession Buf)
        → IsValid s.send_buffer
        → AtMostOne sent
        → s.is_disconnected ≡ false
        → ltb max_pending_bytes s.pending_total_bytes ≡ false
        → let t = send_messages I env (bodies sent) s in
          (to_send I t ≡ to_send I s ++ frames sent) × (t.sent_bytes ≡ s.sent_bytes)
    unfolding send_messages
    sent-frames env sent s w (inl e) up room = rw e (sym (append-nil (to_send I s)), refl)
    sent-frames env sent s w (inr (id, m, e)) up room =
        let added = send_message-to_send I env id (wire.serialize m) s w in
        rw (e, append-nil (make_raw_binaries id (wire.serialize m)))
          (ground (arith, added.0, added.1, up, room))

    -- When a whole packet stands in front in the receive buffer of a connected RIO session with a valid
    -- send buffer and at most 10 MB waiting, one round of the receive loop goes on, and behind all that
    -- the session had still to send stand exactly the frames of the reply to that packet: a benchmark
    -- response (4098) with the request's fields to a benchmark request (4097) that parses, an echo
    -- response (1) with the next request id to an echo request (1) that parses, and the answer of the
    -- administration handler, if there is one, to an id from 0x8000 up to 0x8FFF; to anything else none.
    -- The bytes that were sent already stay what they are.
    pub read_round-replies :
        (m : Moment) (s : RioSession Buf) (raw rest : List ℕ)
        → IsValid s.receive_buffer
        → IsValid s.send_buffer
        → next (contents s.receive_buffer) ≡ packet raw rest
        → (from_buffers raw).packet_id < 2 ^ 16
        → s.is_disconnected ≡ false
        → ltb max_pending_bytes s.pending_total_bytes ≡ false
        → let (again, t) = read_round I (serving m) s in
          (again ≡ true)
          × (to_send I t ≡ to_send I s ++ frames (reply m (from_buffers raw)))
          × (t.sent_bytes ≡ s.sent_bytes)
    read_round-replies m s raw rest v w h small up room =
        let p = from_buffers raw in
        let sent =
          sent-frames (serving m) (on_packet_received wire m p) (told p s) w
            (on_packet_received-AtMostOne m p) up room in
        rw (round-packet (serving m) s raw rest v h, ← on_packet_received-reply m p small)
          (refl, sent.0, sent.1)
