-- ===== src/Packets/Framer/Refine.antt =====
-- One call of the framer against the specification of framing.
use fast_port.Prelude.{ℕ, ◌≤◌, ◌<◌, ◌≡◌, some, List, length, take, arith, get_or-take, length-take}
use fast_port.Buffers.Interface.{IBuffer}
use fast_port.Buffers.Fifo
use fast_port.Packets.Packet.{get_header_from_buffer, from_network, from_buffers}
use fast_port.Packets.Stream.{Next, more, bad, packet, next}
use fast_port.Packets.Framer.{
  PacketFrame, ok, need_more_frame, invalid_frame, try_frame_from_buffer,
}

-- What the framer is to answer, and what is to be left in the buffer.
unfoldable pub framed : List ℕ → Next → PacketFrame × List ℕ
framed xs more = (need_more_frame, xs)
framed xs bad = (invalid_frame, xs)
framed xs (packet raw rest) = (record { result = ok; packet_opt = some (from_buffers raw) }, rest)

header-take :
    (xs : List ℕ) → 2 ≤ length xs → get_header_from_buffer (take 2 xs) ≡ get_header_from_buffer xs
unfolding get_header_from_buffer from_network
header-take xs h = ground (arith, length-take 2 xs, get_or-take 2 xs 0 0, get_or-take 2 xs 1 0)

header-lt : (xs : List ℕ) → get_header_from_buffer xs < 65536
unfolding get_header_from_buffer from_network
header-lt xs = ground arith

module _ (I : IBuffer) where
  open I use {
    Buf, can_read_size, peek, pop, IsValid, contents, capacity, pop_law, peek_law, can_read_law,
  }

  -- On a valid buffer the framer takes a packet off exactly when one stands whole at the front; in every
  -- other case the buffer keeps its bytes. No other outcome is possible, and the buffer stays valid.
  pub try_frame-next :
      (b : Buf)
      → IsValid b
      → let (frame, b') = try_frame_from_buffer I b in
        ((frame, contents b') ≡ framed (contents b) (next (contents b)))
        × IsValid b'
        × (capacity b' ≡ capacity b)
  unfolding try_frame_from_buffer framed next Fifo.front Fifo.remove
  try_frame-next b v =
      let n = get_header_from_buffer (contents b) in
      ground (
        arith,
        can_read_law b v,
        peek_law b 2 v,
        pop_law b n v,
        header-take (contents b),
        header-lt (contents b),
      )
