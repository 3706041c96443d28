-- ===== src/Server/Admin/Answers.antt =====
-- What an administrator's request is answered with.
use fast_port.Prelude.{
  ℕ, ◌+◌, ◌^◌, ◌<◌, ◌≡◌, ◌&&◌, leb, ltb, refl, true, Option, none, some, List, [], ◌∷◌, ◌==◌,
  if◌then◌else◌, arith,
}
use fast_port.Packets.Packet.{Packet}
use fast_port.Server.Messages.{
  Header, Message, summary_response, session_list_response, benchmark_response, echo_request,
  echo_response, Wire,
}
use fast_port.Server.Admin.Range.{is_admin_packet_id-range}
use fast_port.Server.Admin.{
  summary_request_id, session_list_request_id, is_admin_packet_id, CollectorView,
  handle_summary_request, handle_session_list_request, handle_packet,
}

abbrev pub header_of : Message → Header
header_of (summary_response m) = m.header
header_of (session_list_response m) = m.header
header_of (benchmark_response m) = m.header
header_of (echo_request m) = m.header
header_of (echo_response m) = m.header

abbrev pub headers : List (ℕ × Message) → List (ℕ × Header)
headers [] = []
headers ((id, m) ∷ ms) = (id, header_of m) ∷ headers ms

module _ (wire : Wire) where
  -- The header of a packet that is one of the two requests, 0x8001 and 0x8003.
  abbrev pub requested : Packet → Option Header
  requested p =
      if p.packet_id == 0x8001
      then (elim (wire.parse_summary p.payload) [ none ↦ none | some r ↦ some r.header ])
      else if p.packet_id == 0x8003
      then (elim (wire.parse_session_list p.payload) [ none ↦ none | some r ↦ some r.header ])
      else none

  abbrev pub answer : Packet → Option Header → List (ℕ × Header)
  answer p none = []
  answer p (some h) = (p.packet_id + 1, h) ∷ []

  admin_range :
      (is_admin_packet_id summary_request_id ≡ true)
      × (is_admin_packet_id session_list_request_id ≡ true)
  unfolding is_admin_packet_id
  admin_range = (refl, refl)

  summary-headers :
      (v : CollectorView) (p : Packet)
      → p.packet_id ≡ summary_request_id
      → headers (handle_summary_request wire v p) ≡ answer p (requested p)
  unfolding handle_summary_request
  summary-headers v p e = ground (arith, e)

  session_list-headers :
      (v : CollectorView) (p : Packet)
      → p.packet_id ≡ session_list_request_id
      → headers (handle_session_list_request wire v p) ≡ answer p (requested p)
  unfolding handle_session_list_request
  session_list-headers v p e = ground (arith, e)

  -- Of the packets with an id of 16 bits, exactly those from 0x8000 up to 0x8FFF are consumed, even when
  -- their handler throws; a summary request (0x8001) or a session list request (0x8003) that parses is
  -- answered by one message, whose id is one above the request's and whose header is the request's, unless
  -- its handler throws; nothing else is answered.
  pub handle_packet-answers :
      (v : CollectorView) (p : Packet)
      → p.packet_id < 2 ^ 16
      → let (consumed, sent) = handle_packet wire v p in
        (consumed ≡ (leb 0x8000 p.packet_id && ltb p.packet_id 0x9000))
        × (headers sent ≡ (if v.handler_throws then [] else answer p (requested p)))
  unfolding handle_packet
  handle_packet-answers v p h =
      let range = admin_range in
      let interval = is_admin_packet_id-range p.packet_id h in
      ground (arith, range, interval, summary-headers v p, session_list-headers v p)
