-- ===== src/Packets/Stream.antt =====
-- The specification of framing: how a stream of bytes falls into packets, with no buffer. Children:
-- its laws.
pub mod Chunks
pub mod Encoded
use fast_port.Prelude.{
  ℕ, zero, suc, ◌<◌, Bool, true, false, List, [], ◌∷◌, ◌++◌, length, take, drop, ltb, if◌then◌else◌,
}
use fast_port.Packets.Packet.{Packet, get_header_from_buffer, from_buffers}

-- What stands at the front of the bytes received so far.
pub data Next : Type 0 where
  more bad : Next
  packet : List ℕ → List ℕ → Next

unfoldable pub next : List ℕ → Next
next xs =
    let size = get_header_from_buffer xs in
    if ltb (length xs) 2
    then more
    else if ltb size 4
    then bad
    else if ltb (length xs) size
    then more
    else packet (take size xs) (drop size xs)

-- The packets at the front, what is left, and whether no size below four was met.
pub record Decoded : Type 0 where
  pub packets : List Packet
  pub rest : List ℕ
  pub valid : Bool

abbrev pub front : List ℕ → Decoded → Decoded
front raw d = record d { packets = from_buffers raw ∷ d.packets }

-- With a number of rounds; more rounds than bytes are enough.
unfoldable pub decode_rounds : ℕ → List ℕ → Decoded
decode_rounds zero xs = record { packets = []; rest = xs; valid = true }
decode_rounds (suc f) xs = elim (next xs) [
  | more ↦ record { packets = []; rest = xs; valid = true }
  | bad ↦ record { packets = []; rest = xs; valid = false }
  | packet raw rest ↦ front raw (decode_rounds f rest)
]

unfoldable pub decode : List ℕ → Decoded
decode xs = decode_rounds (suc (length xs)) xs

-- Decoding what was left over together with new bytes.
unfoldable pub continue : Decoded → List ℕ → Decoded
continue d ys =
    if d.valid
    then (let e = decode (d.rest ++ ys) in record e { packets = d.packets ++ e.packets })
    else record d { rest = d.rest ++ ys }
