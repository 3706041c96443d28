-- ===== src/Sessions/Outbound/Connector.antt =====
-- IOSocketConnector of LibNetworks/IOSocketConnector.cpp: making a session and posting its connect.
use fast_port.Prelude.{◌+◌, Bool, true, false, Option, none, some, if◌then◌else◌}
use fast_port.Buffers.Interface.{IBuffer}
use fast_port.Sessions.IoSession.Lifetime.Reach.{init}
use fast_port.Sessions.Outbound.{
  OutboundSession, release_after_disconnect, mark_connect_io_posted,
  undo_connect_io_on_post_failure, request_disconnect_outbound,
}

-- What the system and the creating function answer: whether the socket was bound, the session made and an
-- OutboundSession, the socket associated with the port, the function ConnectEx found, and the connect posted.
pub record Answers : Type 0 where
  pub bound : Bool
  pub created : Bool
  pub is_outbound : Bool
  pub associated : Bool
  pub found : Bool
  pub posted : Bool

module _ (I : IBuffer) where
  open I use {Buf}

  -- The session that the creating function makes, with the connector's holds on it.
  abbrev pub made : Buf → Buf → OutboundSession Buf
  made receive_buffer send_buffer = record {
    session = init receive_buffer send_buffer;
    connect_io_pending = false;
    connects = 0;
    holds = record { session = true; weak_session = true; lifecycle = true };
  }

  -- DisConnect with a session that is tracked, and without one.
  unfoldable pub dis_connect : OutboundSession Buf → OutboundSession Buf
  dis_connect c =
      if c.holds.session
      then request_disconnect_outbound I c
      else if c.holds.weak_session
      then request_disconnect_outbound I c
      else c

  -- DisConnect with a session that is not an OutboundSession: the socket is closed, and the session let go.
  abbrev pub dis_connect_other : OutboundSession Buf → OutboundSession Buf
  dis_connect_other c = record c { holds = release_after_disconnect c.holds }

  -- The count goes up before the call, and is put back when the call fails.
  unfoldable pub connect_ex : Bool → OutboundSession Buf → Bool × OutboundSession Buf
  connect_ex posted c =
      let c' = mark_connect_io_posted I c in
      if posted
      then (true, record c' { connects = c'.connects + 1 })
      else (false, undo_connect_io_on_post_failure I c')

  -- The part of Connect that has a session.
  unfoldable pub connect_session : Answers → OutboundSession Buf → Bool × OutboundSession Buf
  connect_session a c =
      if a.is_outbound
      then (if a.associated
          then (if a.found
              then (let (ok, c') = connect_ex a.posted c in
                  if ok then (true, c') else (false, dis_connect c'))
              else (false, dis_connect c))
          else (false, dis_connect c))
      else (false, dis_connect_other c)

  -- Whether it succeeded, and the session, if one was made.
  unfoldable pub connect : Answers → Buf → Buf → Bool × Option (OutboundSession Buf)
  connect a receive_buffer send_buffer =
      if a.bound
      then (if a.created
          then (let (ok, c) = connect_session a (made receive_buffer send_buffer) in (ok, some c))
          else (false, none))
      else (false, none)
