-- ===== src/Sessions/Outbound/History.antt =====
-- Any history of an outgoing connection: the connect, its completion, calls from outside, and, once the
-- connect is over, the completions of an IOSession.
use fast_port.Prelude.{◌+◌, ◌≤◌, ◌≡◌, refl, sym, subst, Bool, true, false, List, arith, Bool_cases}
use mathlib.Core.Logic.{◌↔◌}
use fast_port.Buffers.Interface.{IBuffer}
use fast_port.Sessions.IoSession.State.{Session, Env, Call, DisconnectReason, normal}
use fast_port.Sessions.IoSession.Disconnect.{
  request_disconnect, request_disconnect_with, first_pass, try_fire_on_disconnected,
  undo_outstanding_on_failure,
}
use fast_port.Sessions.IoSession.Lifetime.Invariant.{bit, disconnects}
use fast_port.Sessions.IoSession.Lifetime.Reach
use fast_port.Sessions.IoSession.Lifetime.Reach.{init}
use fast_port.Sessions.Outbound.{
  OutboundSession, observed, on_connected, finalize_connect, on_connect_completed,
}
use fast_port.Sessions.Outbound.Connector.{Answers, made, dis_connect, connect_ex, connect_session}
use fast_port.Sessions.Outbound.Lifetime.{
  observed-Released, ConnectionInv, request-ConnectionInv, Released-ConnectionInv,
  on_connect_completed-Inv,
}

module _ (I : IBuffer) (env : Env I.Buf) (greeting : List Call) where
  open I use {Buf}

  pub data Step (c : OutboundSession Buf) : OutboundSession Buf → Type 0 where
    connect_completes :
        (success updated : Bool)
        → c.connects ≡ 1
        → Step c (on_connect_completed I env greeting success updated (record c { connects = 0 }))
    dis_connects : Step c (dis_connect I c)
    disconnects_with :
        (reason : DisconnectReason)
        → Step c (observed I (request_disconnect_with I reason c.session) c)
    goes_on :
        (t : Session Buf) → c.connects ≡ 0 → Reach.Step I env c.session t → Step c (observed I t c)

  pub data History (c : OutboundSession Buf) : OutboundSession Buf → Type 0 where
    here : History c c
    next : {d e : OutboundSession Buf} → History c d → Step d e → History c e

  -- Between the steps.
  abbrev Sound : OutboundSession Buf → Type 0
  Sound c = ConnectionInv I c.connects c

  dis_connect-Sound : (c : OutboundSession Buf) → Sound c → Sound (dis_connect I c)
  unfolding dis_connect request_disconnect
  dis_connect-Sound c v =
      let asked = request-ConnectionInv I c.connects normal c v in
      Bool_cases Sound c.holds.session (λ yes. asked)
        (λ no. Bool_cases Sound c.holds.weak_session (λ weak. asked) (λ none. v))

  connects-on_connect_completed :
      (success updated : Bool) (c : OutboundSession Buf)
      → (on_connect_completed I env greeting success updated c).connects ≡ c.connects
  unfolding on_connect_completed finalize_connect on_connected
  connects-on_connect_completed success updated c =
      Bool_cases (λ (d : OutboundSession Buf). d.connects ≡ c.connects)
        c.session.disconnect_requested (λ over. refl)
        (λ up.
          Bool_cases (λ (d : OutboundSession Buf). d.connects ≡ c.connects) success
            (λ yes.
              Bool_cases (λ (r : Bool × OutboundSession Buf). r.1.connects ≡ c.connects) updated
                (λ connected. refl) (λ no. refl))
            (λ failed. refl))

  Step-Sound : {c d : OutboundSession Buf} → Step c d → Sound c → Sound d
  Step-Sound {c} (connect_completes success updated e) v =
      let c0 = record c { connects = 0 } in
      let v1 = subst (λ k. ConnectionInv I k c) e v in
      let over =
        on_connect_completed-Inv I env greeting success updated c0
          (record { life = v1.life; held = v1.held; same_hold = v1.same_hold }) in
      subst (λ k. ConnectionInv I k (on_connect_completed I env greeting success updated c0))
        (sym (connects-on_connect_completed success updated c0)) over
  Step-Sound {c} dis_connects v = dis_connect-Sound c v
  Step-Sound {c} (disconnects_with reason) v = request-ConnectionInv I c.connects reason c v
  Step-Sound {c} (goes_on t e st) v =
      let v0 = subst (λ k. ConnectionInv I k c) e v in
      let held = v0.held in
      let free : c.holds.session ≡ false = ground (arith, held) in
      subst (λ k. ConnectionInv I k (observed I t c)) (sym e)
        (Released-ConnectionInv I 0 (observed I t c) (Reach.Step-Inv I env st v0.life)
          (observed-Released I t c (free, ground (arith, v0.same_hold, free))))

  History-Sound : {c d : OutboundSession Buf} → History c d → Sound c → Sound d
  History-Sound here v = v
  History-Sound (next h st) v = Step-Sound st (History-Sound h v)

  connect-Sound : (a : Answers) (rb sb : Buf) → Sound (connect_session I a (made I rb sb)).1
  unfolding connect_session connect_ex dis_connect request_disconnect request_disconnect_with
      first_pass try_fire_on_disconnected undo_outstanding_on_failure
  connect-Sound a rb sb = ground arith

  -- In every history of an outgoing connection in which its session sends and receives nothing before the
  -- connect has completed, whatever the system, the creating function and the callbacks answer, and
  -- wherever the end is asked for: the counter is the number of operations in flight, the connect included;
  -- OnDisconnected has run exactly when the end was asked for and nothing is in flight any more, and at
  -- most once; and the connector holds the session, and itself, at most while the connect is in flight.
  pub connection_lifetime :
      (a : Answers) (rb sb : Buf) {c : OutboundSession Buf}
      → History (connect_session I a (made I rb sb)).1 c
      → (c.session.outstanding_io_count ≡ c.session.recvs + c.session.sends + c.connects)
        × ((c.session.on_disconnected_fired ≡ true) ↔ (
            (c.session.disconnect_requested ≡ true)
            × (c.session.recvs + c.session.sends + c.connects ≡ 0)))
        × (disconnects c.session.events ≡ bit c.session.on_disconnected_fired)
        × (bit c.holds.session ≤ c.connects)
        × (c.holds.lifecycle ≡ c.holds.session)
  connection_lifetime a rb sb {c} h =
      let v = History-Sound h (connect-Sound a rb sb) in
      let life = v.life in
      let held = v.held in
      (
        life.balance,
        ground (arith, life.balance, life.fired_after, life.fired_when),
        life.fired_once,
        ground (arith, held),
        v.same_hold,
      )
