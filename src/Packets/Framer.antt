-- ===== src/Packets/Framer.antt =====
-- PacketFramer of LibNetworks/PacketFramer.ixx, over any byte buffer, and the loops that the sessions
-- run it in. Children: what a call does to the buffer, and what the loop delivers.
pub mod Refine
use fast_port.Prelude.{
  ℕ, zero, suc, ◌+◌, Bool, true, false, Option, none, some, List, [], ◌∷◌, length, ltb,
  if◌then◌else◌,
}
use fast_port.Buffers.Interface.{IBuffer}
use fast_port.Packets.Packet.{
  Packet, header_size, packet_id_size, get_header_from_buffer, from_buffers,
}

pub data PacketFrameResult : Type 0 where
  ok need_more invalid : PacketFrameResult

pub record PacketFrame : Type 0 where
  pub result : PacketFrameResult
  pub packet_opt : Option Packet

abbrev pub need_more_frame : PacketFrame
need_more_frame = record { result = need_more; packet_opt = none }

abbrev pub invalid_frame : PacketFrame
invalid_frame = record { result = invalid; packet_opt = none }

module _ (I : IBuffer) where
  open I use {Buf, can_read_size, peek, pop}

  -- The part behind the checks of the size.
  abbrev pub pop_frame : Buf → ℕ → PacketFrame × Buf
  pop_frame b packet_size =
      let (out, b') = pop b packet_size in
      elim out [
        | none ↦ (invalid_frame, b')
        | some buffers ↦ (record { result = ok; packet_opt = some (from_buffers buffers) }, b')
      ]

  -- The part behind the peek.
  abbrev pub sized_frame : Buf → ℕ → PacketFrame × Buf
  sized_frame b packet_size =
      if ltb packet_size (header_size + packet_id_size)
      then (invalid_frame, b)
      else if ltb 0xFFFF packet_size
      then (invalid_frame, b)
      else if ltb (can_read_size b) packet_size
      then (need_more_frame, b)
      else pop_frame b packet_size

  unfoldable pub try_frame_from_buffer : Buf → PacketFrame × Buf
  try_frame_from_buffer b =
      if ltb (can_read_size b) header_size
      then (need_more_frame, b)
      else elim (peek b header_size) [
        | none ↦ (invalid_frame, b)
        | some header ↦ sized_frame b (get_header_from_buffer header)
      ]
