-- ===== src/Rio/Session/Rounds.antt =====
-- What holds through a RIO session's receive loop: all that its changes of the receive side and the messages
-- that a callback sends keep.
use fast_port.Prelude.{ℕ, zero, suc, Bool, true, false, Option, none, some, List, [], ◌∷◌}
use fast_port.Buffers.Interface.{IBuffer}
use fast_port.Packets.Packet.{Packet}
use fast_port.Packets.Framer.{PacketFrameResult, ok, need_more, invalid, try_frame_from_buffer}
use fast_port.Sessions.IoSession.State.{Event, packet_received}
use fast_port.Rio.Session.State.{RioSession, RioEnv}
use fast_port.Rio.Session.Sending.{send_message, send_messages}
use fast_port.Rio.Session.Receiving.{read_round, read_rounds, read_received_buffers}

module _ (I : IBuffer) (env : RioEnv I.Buf) (P : RioSession I.Buf → Type 0)
    (seen : (n : ℕ) (b : I.Buf) (told : List Event) (s : RioSession I.Buf)
      → P s
      → P (record s { receive_buffer = b; total_rx_bytes = n; events = told }))
    (sent : (id : ℕ) (body : List ℕ) (s : RioSession I.Buf)
      → P s
      → P (send_message I env id body s)) where
  open I use {Buf}

  send_messages-keeps :
      (ms : List (ℕ × List ℕ)) (s : RioSession Buf) → P s → P (send_messages I env ms s)
  unfolding send_messages
  send_messages-keeps [] s v = v
  send_messages-keeps ((id, body) ∷ ms) s v =
      send_messages-keeps ms (send_message I env id body s) (sent id body s v)

  read_round-keeps : (s : RioSession Buf) → P s → P (read_round I env s).1
  unfolding read_round
  read_round-keeps s v =
      answered (try_frame_from_buffer I s.receive_buffer).0.result
        (try_frame_from_buffer I s.receive_buffer).0.packet_opt
    where
      s' : RioSession Buf
      s' = record s { receive_buffer = (try_frame_from_buffer I s.receive_buffer).1 }

      same : (told : List Event) → P (record s' { events = told })
      same told = seen s.total_rx_bytes s'.receive_buffer told s v

      answered :
          (result : PacketFrameResult) (packet : Option Packet)
          → P
              (elim result as (λ x. Bool × RioSession Buf) [
                | need_more ↦ (false, s')
                | invalid ↦ (false, s')
                | ok ↦ elim packet as (λ x. Bool × RioSession Buf) [
                  | none ↦ (true, s')
                  | some p ↦ (
                    true,
                    send_messages I env
                        (env.on_packet_received p)
                        (record s' { events = packet_received p ∷ s'.events }),
                  )
                ]
              ]).1
      answered need_more packet = same s.events
      answered invalid packet = same s.events
      answered ok none = same s.events
      answered ok (some p) =
          send_messages-keeps (env.on_packet_received p)
            (record s' { events = packet_received p ∷ s'.events })
            (same (packet_received p ∷ s.events))

  read_rounds-keeps : (f : ℕ) (s : RioSession Buf) → P s → P (read_rounds I env f s)
  unfolding read_rounds
  read_rounds-keeps zero s v = v
  read_rounds-keeps (suc f) s v =
      let w = read_round-keeps s v in
      later (read_round I env s).0 w (read_rounds-keeps f (read_round I env s).1 w)
    where
      s' : RioSession Buf
      s' = (read_round I env s).1

      later :
          (again : Bool)
          → P s'
          → P (read_rounds I env f s')
          → P (elim again [ true ↦ read_rounds I env f s' | false ↦ s' ])
      later true w rest = rest
      later false w rest = w

  pub read_received_buffers-keeps : (s : RioSession Buf) → P s → P (read_received_buffers I env s)
  unfolding read_received_buffers
  read_received_buffers-keeps s v = read_rounds-keeps (suc (I.can_read_size s.receive_buffer)) s v
