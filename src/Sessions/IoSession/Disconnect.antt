-- ===== src/Sessions/IoSession/Disconnect.antt =====
-- The end of a session: `RequestDisconnect`, `TryFireOnDisconnected`, and the counter's undo.
use fast_port.Prelude.{true, false, ◌∷◌, ◌==◌, if◌then◌else◌}
use fast_port.Buffers.Interface.{IBuffer}
use fast_port.Sessions.IoSession.State.{
  Session, SocketState, null, opened, closed, DisconnectReason, normal, disconnected, decrement,
}

-- `Shutdown(SD_BOTH)` and `Close()`, where there is a socket.
abbrev pub close_socket : SocketState → SocketState
close_socket null = null
close_socket opened = closed
close_socket closed = closed

module _ (I : IBuffer) where
  open I use {Buf, clear}

  -- `compare_exchange_strong` lets the first caller through.
  unfoldable pub try_fire_on_disconnected : Session Buf → Session Buf
  try_fire_on_disconnected s = if s.on_disconnected_fired then s else record s {
    on_disconnected_fired = true;
    receive_buffer = clear s.receive_buffer;
    send_buffer = clear s.send_buffer;
    events = disconnected ∷ s.events;
  }

  -- The part that only the first request runs.
  unfoldable pub first_pass : Session Buf → Session Buf
  first_pass s = if s.disconnect_requested then s else record s {
    disconnect_requested = true;
    socket = close_socket s.socket;
    recv_in_progress = false;
    send_in_progress = false;
  }

  -- The reason is only logged.
  unfoldable pub request_disconnect_with : DisconnectReason → Session Buf → Session Buf
  unfolding first_pass
  request_disconnect_with reason s =
      let s' = first_pass s in
      if s'.outstanding_io_count == 0 then try_fire_on_disconnected s' else s'

  unfoldable pub request_disconnect : Session Buf → Session Buf
  request_disconnect s = request_disconnect_with normal s

  unfoldable pub undo_outstanding_on_failure : Session Buf → Session Buf
  undo_outstanding_on_failure s = record s {
    outstanding_io_count = decrement s.outstanding_io_count;
  }

  -- The destructor of IoCompletionGuard.
  unfoldable pub leave_completion : Session Buf → Session Buf
  leave_completion s =
      let s' = record s { outstanding_io_count = decrement s.outstanding_io_count } in
      if s.outstanding_io_count == 1
      then (if s'.disconnect_requested then try_fire_on_disconnected s' else s')
      else s'
