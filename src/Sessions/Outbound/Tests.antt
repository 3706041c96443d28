-- ===== src/Sessions/Outbound/Tests.antt =====
-- A connection that is made, and whose connect completes behind a call of DisConnect.
use fast_port.Prelude.{◌+◌, ◌≤◌, ◌≡◌, refl, true, []}
use mathlib.Core.Logic.{◌↔◌}
use fast_port.Buffers.Circle.{CircleBufferQueue, make}
use fast_port.Buffers.Interface.Instances.{circle}
use fast_port.Sessions.IoSession.State.{Env}
use fast_port.Sessions.IoSession.Lifetime.Invariant.{bit, disconnects}
use fast_port.Sessions.IoSession.Disconnect.{
  request_disconnect, request_disconnect_with, first_pass,
}
use fast_port.Sessions.Outbound.{OutboundSession, on_connect_completed}
use fast_port.Sessions.Outbound.Connector.{Answers, made, dis_connect, connect_ex, connect_session}
use fast_port.Sessions.Outbound.History.{
  History, here, next, dis_connects, connect_completes, connection_lifetime,
}

abbrev quiet : Env CircleBufferQueue
quiet = record {
  wsa_recv = λ s. true;
  wsa_send = λ s. true;
  now_ms = λ s. 0;
  on_packet_received = λ p. [];
  on_sent = λ n. [];
}

abbrev all_well : Answers
all_well = record {
  bound = true;
  created = true;
  is_outbound = true;
  associated = true;
  found = true;
  posted = true;
}

abbrev begun : OutboundSession CircleBufferQueue
begun = (connect_session circle all_well (made circle (make 8) (make 8))).1

abbrev left : OutboundSession CircleBufferQueue
left = dis_connect circle begun

abbrev over : OutboundSession CircleBufferQueue
over = on_connect_completed circle quiet [] true true (record left { connects = 0 })

left-connects : left.connects ≡ 1
unfolding connect_session connect_ex dis_connect request_disconnect request_disconnect_with
    first_pass
left-connects = refl

over-History : History circle quiet [] begun over
over-History = next (next here dis_connects) (connect_completes true true left-connects)

connection_lifetime_example :
    (over.session.outstanding_io_count ≡ over.session.recvs + over.session.sends + over.connects)
    × ((over.session.on_disconnected_fired ≡ true) ↔ (
        (over.session.disconnect_requested ≡ true)
        × (over.session.recvs + over.session.sends + over.connects ≡ 0)))
    × (disconnects over.session.events ≡ bit over.session.on_disconnected_fired)
    × (bit over.holds.session ≤ over.connects)
    × (over.holds.lifecycle ≡ over.holds.session)
connection_lifetime_example =
    connection_lifetime circle quiet [] all_well (make 8) (make 8) over-History
