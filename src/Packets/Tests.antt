-- ===== src/Packets/Tests.antt =====
-- The packet layer on concrete bytes.
use fast_port.Prelude.{
  ℕ, ◌≡◌, ◌≢◌, List, [], ◌∷◌, ◌++◌, map, replicate, length, length-replicate, arith,
}
use fast_port.Buffers.Circle.{CircleBufferQueue}
use fast_port.Buffers.Circle.Bounds.{IsValid}
use fast_port.Buffers.Circle.Refine.{contents}
use fast_port.Buffers.Interface.Instances.{circle}
use fast_port.Packets.Packet.{make, make_raw_binaries, from_buffers}
use fast_port.Packets.Packet.Roundtrip.{from_buffers-make}
use fast_port.Packets.Stream.{next, packet, decode, continue}
use fast_port.Packets.Stream.Chunks.{decode-append}
use fast_port.Packets.Stream.Encoded.{wire, made, before, decode-wire, oversize_not_read}
use fast_port.Packets.Framer.{try_frame_from_buffer}
use fast_port.Packets.Framer.Refine.{framed, try_frame-next}

-- A packet of id 0x8001 with payload 7, and the first byte of another.
abbrev bytes_in : List ℕ
bytes_in = 0 ∷ 5 ∷ 128 ∷ 1 ∷ 7 ∷ 0 ∷ []

-- The same bytes in a queue, round the end of its storage.
abbrev queued : CircleBufferQueue
queued = record {
  buffer = 128 ∷ 1 ∷ 7 ∷ 0 ∷ 9 ∷ 0 ∷ 5 ∷ [];
  head = 4;
  tail = 5;
  size = 6;
  capacity = 7;
}

queued-IsValid : IsValid queued
queued-IsValid = omega arith

from_buffers-make_example : from_buffers (make 0x8001 (7 ∷ [])).raw_binaries ≡ make 0x8001 (7 ∷ [])
from_buffers-make_example = from_buffers-make 0x8001 (7 ∷ []) (omega arith)

decode-append_example : decode (bytes_in ++ (4 ∷ [])) ≡ continue (decode bytes_in) (4 ∷ [])
decode-append_example = decode-append bytes_in (4 ∷ [])

abbrev sent_packets : List (ℕ × List ℕ)
sent_packets = (0x8001, 7 ∷ []) ∷ (2, []) ∷ []

decode-wire_example :
    decode (wire (map made sent_packets) ++ (0 ∷ []))
    ≡ before (map made sent_packets) (decode (0 ∷ []))
decode-wire_example = decode-wire sent_packets (0 ∷ []) (omega arith)

try_frame-next_example :
    let (frame, b) = try_frame_from_buffer circle queued in
    ((frame, contents b) ≡ framed (contents queued) (next (contents queued)))
    × IsValid b
    × (b.capacity ≡ 7)
try_frame-next_example = try_frame-next circle queued queued-IsValid

-- Too long by one byte for the size field.
abbrev oversized : List ℕ
oversized = replicate 65532 0

length-oversized : length oversized ≡ 65532
length-oversized = length-replicate {A = ℕ} 65532 0

oversize_not_read_example :
    next (make_raw_binaries 3 oversized ++ []) ≢ packet (make_raw_binaries 3 oversized) []
oversize_not_read_example = oversize_not_read 3 oversized [] (omega (arith, length-oversized))
