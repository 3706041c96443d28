-- ===== src/Sessions/Outbound.antt =====
-- OutboundSession of LibNetworks/OutboundSession.cpp, on top of IOSession: the connect operation, which
-- counts as an operation in flight, and the two observers, which are those of the connector
-- (LibNetworks/IOSocketConnector.cpp) and release what it holds.
pub mod Connector
pub mod Lifetime
pub mod History
mod Tests
use fast_port.Prelude.{ℕ, ◌+◌, ◌-◌, Bool, true, false, List, if◌then◌else◌}
use fast_port.Buffers.Interface.{IBuffer}
use fast_port.Sessions.IoSession.State.{Session, Env, Call, increment}
use fast_port.Sessions.IoSession.Disconnect.{
  request_disconnect, undo_outstanding_on_failure, leave_completion,
}
use fast_port.Sessions.IoSession.Posting.{start_receive_loop}
use fast_port.Sessions.IoSession.Sending.{run_calls}

-- Whether the connector's pointers to the session (`m_pSession`, `m_wpSession`) and to itself
-- (`m_pLifecycleHold`) are set.
pub record Holds : Type 0 where
  pub session : Bool
  pub weak_session : Bool
  pub lifecycle : Bool

-- `connects`: the connect operations that the system holds.
pub record OutboundSession (B : Type 0) : Type 0 where
  pub session : Session B
  pub connect_io_pending : Bool
  pub connects : ℕ
  pub holds : Holds

abbrev pub release_after_activation : Holds → Holds
release_after_activation h =
    if h.session
    then record { session = false; weak_session = true; lifecycle = false }
    else record h { lifecycle = false }

abbrev pub release_after_disconnect : Holds → Holds
release_after_disconnect h = record { session = false; weak_session = false; lifecycle = false }

module _ (I : IBuffer) where
  open I use {Buf}

  -- A call on the session, with the observer of OnDisconnected when the call has fired it.
  abbrev pub observed : Session Buf → OutboundSession Buf → OutboundSession Buf
  observed t c = record c {
    session = t;
    holds =
        if c.session.on_disconnected_fired
        then c.holds
        else if t.on_disconnected_fired
        then release_after_disconnect c.holds
        else c.holds;
  }

  abbrev pub mark_connect_io_posted : OutboundSession Buf → OutboundSession Buf
  mark_connect_io_posted c = record c {
    session = record c.session { outstanding_io_count = increment c.session.outstanding_io_count };
    connect_io_pending = true;
  }

  abbrev pub undo_connect_io_on_post_failure : OutboundSession Buf → OutboundSession Buf
  undo_connect_io_on_post_failure c = record c {
    session = undo_outstanding_on_failure I c.session;
    connect_io_pending = false;
  }

  abbrev pub request_disconnect_outbound : OutboundSession Buf → OutboundSession Buf
  request_disconnect_outbound c = observed (request_disconnect I c.session) c

  -- `greeting`: what a subclass does when it is connected, behind what OnConnected of the base does.
  module _ (env : Env Buf) (greeting : List Call) where
    unfoldable pub on_connected : OutboundSession Buf → OutboundSession Buf
    on_connected c =
        let c' = observed (start_receive_loop I env c.session) c in
        let activated = record c' { holds = release_after_activation c'.holds } in
        observed (run_calls I env greeting activated.session) activated

    -- `updated`: whether SO_UPDATE_CONNECT_CONTEXT was accepted. The socket options are left out.
    unfoldable pub finalize_connect : Bool → OutboundSession Buf → Bool × OutboundSession Buf
    finalize_connect updated c =
        if updated then (true, on_connected c) else (false, request_disconnect_outbound c)

    abbrev pub connect_completion : Bool → Bool → OutboundSession Buf → OutboundSession Buf
    connect_completion success updated c =
        if c.session.disconnect_requested
        then c
        else if success
        then (finalize_connect updated c).1
        else request_disconnect_outbound c

    -- OnIOCompleted with the address of the connect overlapped, up to the end of the guard.
    unfoldable pub on_connect_completed : Bool → Bool → OutboundSession Buf → OutboundSession Buf
    on_connect_completed success updated c =
        let c' = connect_completion success updated (record c { connect_io_pending = false }) in
        observed (leave_completion I c'.session) c'
