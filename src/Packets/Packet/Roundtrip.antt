-- ===== src/Packets/Packet/Roundtrip.antt =====
-- A packet read back from its own bytes.
use fast_port.Prelude.{
  ℕ, ◌+◌, ◌%◌, ◌^◌, ◌<◌, ◌≡◌, ◌∙◌, refl, sym, append-nil, ap, List, [], ◌++◌, length, take, drop,
  to_u16, sub64, arith, take_all, le→ltb,
}
use fast_port.Packets.Packet.{
  to_network, from_network, get_header_from_buffer, get_packet_id_from_buffer, from_buffers,
  get_packet_size, make_raw_binaries, make, get_packet_id_from_raw_binaries,
}

pub length-make_raw_binaries :
    (id : ℕ) (payload : List ℕ) → length (make_raw_binaries id payload) ≡ length payload + 4
unfolding make_raw_binaries to_network
length-make_raw_binaries id payload = omega arith

-- The size field of a packet's bytes is their number modulo 2^16, with any bytes behind them.
pub get_header-make_raw_binaries :
    (id : ℕ) (payload rest : List ℕ)
    → get_header_from_buffer (make_raw_binaries id payload ++ rest) ≡ (length payload + 4) % 2 ^ 16
unfolding make_raw_binaries to_network get_header_from_buffer from_network get_packet_size
get_header-make_raw_binaries id payload rest = ground arith

pub get_packet_id-make_raw_binaries :
    (id : ℕ) (payload rest : List ℕ)
    → id < 2 ^ 16
    → get_packet_id_from_buffer (make_raw_binaries id payload ++ rest) ≡ id
unfolding make_raw_binaries to_network get_packet_id_from_buffer from_network get_packet_size
get_packet_id-make_raw_binaries id payload rest h = ground arith

-- Reading back the bytes of a packet gives the packet: its id, its payload and its bytes. The payload
-- may have any length below 2^63.
pub from_buffers-make :
    (id : ℕ) (payload : List ℕ)
    → length payload < 2 ^ 63
    → from_buffers (make id payload).raw_binaries ≡ make id payload
unfolding from_buffers make
from_buffers-make id payload h = λ k. record {
  packet_id = same_id k;
  payload = same_payload k;
  raw_binaries = make_raw_binaries (to_u16 id) payload;
}
  where
    raw : List ℕ
    raw = make_raw_binaries (to_u16 id) payload

    same_id : get_packet_id_from_buffer raw ≡ to_u16 id
    same_id =
        ap get_packet_id_from_buffer (sym (append-nil raw))
        ∙ get_packet_id-make_raw_binaries (to_u16 id) payload [] (omega arith)

    rest : drop 4 raw ≡ payload
    rest = unfold make_raw_binaries to_network in refl

    size : sub64 (sub64 (length raw) 2) 2 ≡ length payload
    size = omega (arith, length-make_raw_binaries (to_u16 id) payload)

    same_payload : take (sub64 (sub64 (length raw) 2) 2) (drop 4 raw) ≡ payload
    same_payload = rw (size, rest) (take_all payload (length payload) (omega arith))

-- The id that a packet reports from its own bytes is the id that it holds.
pub get_packet_id_from_raw_binaries-make :
    (id : ℕ) (payload : List ℕ)
    → get_packet_id_from_raw_binaries (make id payload) ≡ (make id payload).packet_id
unfolding get_packet_id_from_raw_binaries make
get_packet_id_from_raw_binaries-make id payload =
    rw
      (le→ltb (length (make_raw_binaries (to_u16 id) payload)) 4
        (omega (arith, length-make_raw_binaries (to_u16 id) payload)))
      (ap get_packet_id_from_buffer (sym (append-nil (make_raw_binaries (to_u16 id) payload)))
        ∙ get_packet_id-make_raw_binaries (to_u16 id) payload [] (omega arith))
