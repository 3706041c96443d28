-- ===== src/Sessions/IoSession/Lifetime/Invariant.antt =====
-- The invariant of a session's life, and the ways to end it.
use fast_port.Prelude.{ℕ, suc, ◌+◌, ◌≤◌, ◌≡◌, Bool, true, false, List, [], ◌∷◌, arith}
use fast_port.Buffers.Interface.{IBuffer}
use fast_port.Sessions.IoSession.State.{
  Session, DisconnectReason, normal, Event, packet_received, sent, disconnected,
}
use fast_port.Sessions.IoSession.Disconnect.{
  try_fire_on_disconnected, first_pass, request_disconnect_with, request_disconnect,
  leave_completion,
}

abbrev pub bit : Bool → ℕ
bit false = 0
bit true = 1

-- How often OnDisconnected ran.
abbrev pub disconnects : List Event → ℕ
disconnects [] = 0
disconnects (packet_received p ∷ es) = disconnects es
disconnects (sent n ∷ es) = disconnects es
disconnects (disconnected ∷ es) = suc (disconnects es)

-- The part of the state that a session's life is about.
pub record Core : Type 0 where
  pub recv_in_progress : Bool
  pub send_in_progress : Bool
  pub requested : Bool
  pub fired : Bool
  pub outstanding : ℕ
  pub recvs : ℕ
  pub sends : ℕ
  pub events : List Event

abbrev pub core : {B : Type 0} → Session B → Core
core s = record {
  recv_in_progress = s.recv_in_progress;
  send_in_progress = s.send_in_progress;
  requested = s.disconnect_requested;
  fired = s.on_disconnected_fired;
  outstanding = s.outstanding_io_count;
  recvs = s.recvs;
  sends = s.sends;
  events = s.events;
}

-- `r` and `q`: a receive, or a send, that has completed and whose handler has not given its flag back;
-- `k`: a completion handler that runs and has not left.
pub record CoreInv (r q k : ℕ) (c : Core) : Type 0 where
  pub few : k ≤ 1
  pub balance : c.outstanding ≡ c.recvs + c.sends + k
  pub recv_one : c.recvs + r ≤ 1
  pub send_one : c.sends + q ≤ 1
  pub recv_flag : c.requested ≡ false → bit c.recv_in_progress ≡ c.recvs + r
  pub send_flag : c.requested ≡ false → bit c.send_in_progress ≡ c.sends + q
  pub fired_after : c.fired ≡ true → (c.requested ≡ true) × (c.outstanding ≡ 0)
  pub fired_when : c.requested ≡ true → c.outstanding ≡ 0 → c.fired ≡ true
  pub fired_once : disconnects c.events ≡ bit c.fired

abbrev pub Inv : {B : Type 0} → ℕ → ℕ → ℕ → Session B → Type 0
Inv r q k s = CoreInv r q k (core s)

module _ (I : IBuffer) where
  open I use {Buf}

  pub request_disconnect_with-Inv :
      (r q k : ℕ) (reason : DisconnectReason) (s : Session Buf)
      → Inv r q k s
      → Inv r q k (request_disconnect_with I reason s)
  unfolding request_disconnect_with first_pass try_fire_on_disconnected
  request_disconnect_with-Inv r q k reason s v = ground arith

  pub request_disconnect-Inv :
      (r q k : ℕ) (s : Session Buf) → Inv r q k s → Inv r q k (request_disconnect I s)
  unfolding request_disconnect
  request_disconnect-Inv r q k s v = request_disconnect_with-Inv r q k normal s v

  -- Leaving a completion handler: the counter goes down, and the last one out of a session that is to
  -- end fires the callback.
  pub leave_completion-Inv : (s : Session Buf) → Inv 0 0 1 s → Inv 0 0 0 (leave_completion I s)
  unfolding leave_completion try_fire_on_disconnected
  leave_completion-Inv s v = ground arith

  -- After a request the session is to end, and stays so.
  pub requested-request_disconnect_with :
      (reason : DisconnectReason) (s : Session Buf)
      → (request_disconnect_with I reason s).disconnect_requested ≡ true
  unfolding request_disconnect_with first_pass try_fire_on_disconnected
  requested-request_disconnect_with reason s = ground arith
