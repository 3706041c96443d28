-- ===== src/Packets/Packet.antt =====
-- Packet of LibNetworks/Packet.ixx: two bytes of size, two of packet id, then the payload, both numbers
-- in network order. The id is an `int16_t` in the source; it is kept as its `uint16_t` pattern, which is
-- what every accessor returns.
pub mod Roundtrip
use fast_port.Prelude.{
  ℕ, ◌+◌, ◌*◌, ◌/◌, ◌%◌, List, [], ◌∷◌, ◌++◌, length, take, drop, get_or, ltb, if◌then◌else◌,
  to_u16, sub64,
}

pub record Packet : Type 0 where
  pub packet_id : ℕ
  pub payload : List ℕ
  pub raw_binaries : List ℕ

-- `sizeof(uint16_t)`, twice.
abbrev pub header_size : ℕ
header_size = 2

abbrev pub packet_id_size : ℕ
packet_id_size = 2

-- The bytes of `htons(n)`, and `ntohs` of the bytes at an index; a byte is a number modulo 256.
unfoldable pub to_network : ℕ → List ℕ
to_network n = (n / 256 % 256) ∷ (n % 256) ∷ []

unfoldable pub from_network : List ℕ → ℕ → ℕ
from_network bytes i = get_or bytes i 0 % 256 * 256 + get_or bytes (i + 1) 0 % 256

unfoldable pub get_header_from_buffer : List ℕ → ℕ
get_header_from_buffer bytes = if ltb (length bytes) 2 then 0 else from_network bytes 0

unfoldable pub get_packet_id_from_buffer : List ℕ → ℕ
get_packet_id_from_buffer bytes =
    if ltb (length bytes) (header_size + 2) then 0 else from_network bytes header_size

-- The constructor from received bytes.
unfoldable pub from_buffers : List ℕ → Packet
from_buffers buffers = record {
  packet_id = get_packet_id_from_buffer buffers;
  payload =
      take (sub64 (sub64 (length buffers) header_size) packet_id_size)
        (drop (header_size + packet_id_size) buffers);
  raw_binaries = buffers;
}

unfoldable pub get_packet_size : List ℕ → ℕ
get_packet_size payload = length payload + header_size + packet_id_size

unfoldable pub make_raw_binaries : ℕ → List ℕ → List ℕ
make_raw_binaries packet_id payload =
    to_network (to_u16 (get_packet_size payload)) ++ (to_network packet_id ++ payload)

-- The constructors from an id and a content.
unfoldable pub make : ℕ → List ℕ → Packet
make packet_id content = record {
  packet_id = to_u16 packet_id;
  payload = content;
  raw_binaries = make_raw_binaries (to_u16 packet_id) content;
}

unfoldable pub get_payload_size : Packet → ℕ
get_payload_size p = to_u16 (length p.payload)

unfoldable pub get_packet_id_from_raw_binaries : Packet → ℕ
get_packet_id_from_raw_binaries p =
    if ltb (length p.raw_binaries) (header_size + packet_id_size)
    then 0
    else get_packet_id_from_buffer p.raw_binaries
