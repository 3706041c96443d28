-- ===== src/Sessions/Outbound/Lifetime.antt =====
-- The invariant of an outgoing connection: it is counted once, and the connector lets go of the session when
-- the connect is over, however it ends.
use fast_port.Prelude.{ℕ, ◌+◌, ◌≡◌, Bool, true, false, List, arith, Bool_cases}
use fast_port.Buffers.Interface.{IBuffer}
use fast_port.Sessions.IoSession.State.{Session, Env, Call, DisconnectReason, normal}
use fast_port.Sessions.IoSession.Disconnect.{
  request_disconnect, request_disconnect_with, first_pass, try_fire_on_disconnected,
  leave_completion,
}
use fast_port.Sessions.IoSession.Posting.{start_receive_loop}
use fast_port.Sessions.IoSession.Sending.{run_calls}
use fast_port.Sessions.IoSession.Lifetime.Invariant.{
  Inv, request_disconnect_with-Inv, leave_completion-Inv, requested-request_disconnect_with,
}
use fast_port.Sessions.IoSession.Lifetime.Posts.{run_calls-Inv, start_receive_loop-Inv}
use fast_port.Sessions.Outbound.{
  Holds, OutboundSession, release_after_activation, observed, on_connected, finalize_connect,
  connect_completion, on_connect_completed,
}

module _ (I : IBuffer) where
  open I use {Buf}

  abbrev pub Released : Holds → Type 0
  Released h = (h.session ≡ false) × (h.lifecycle ≡ false)

  -- `k`: the connect operation, in flight or with its handler running. While the connector holds the
  -- session, nothing else is in flight, and the end has not come.
  pub record ConnectionInv (k : ℕ) (c : OutboundSession Buf) : Type 0 where
    pub life : Inv 0 0 k c.session
    pub held :
        c.holds.session ≡ true
        → (k ≡ 1)
          × (c.session.recvs + c.session.sends ≡ 0)
          × (c.session.on_disconnected_fired ≡ false)
    pub same_hold : c.holds.lifecycle ≡ c.holds.session

  pub Released-ConnectionInv :
      (k : ℕ) (c : OutboundSession Buf) → Inv 0 0 k c.session → Released c.holds → ConnectionInv k c
  Released-ConnectionInv k c v (s, l) = record {
    life = v;
    held = λ h. absurd (ground (arith, s, h));
    same_hold = ground (arith, s, l);
  }

  pub observed-Released :
      (t : Session Buf) (c : OutboundSession Buf)
      → Released c.holds
      → Released (observed I t c).holds
  observed-Released t c (s, l) = ground (arith, s, l)

  -- Asking for the end leaves the operations in flight as they are.
  request_disconnect_with-idle :
      (reason : DisconnectReason) (s : Session Buf)
      → let t = request_disconnect_with I reason s in (t.recvs ≡ s.recvs) × (t.sends ≡ s.sends)
  unfolding request_disconnect_with first_pass try_fire_on_disconnected
  request_disconnect_with-idle reason s = ground arith

  pub request-ConnectionInv :
      (k : ℕ) (reason : DisconnectReason) (c : OutboundSession Buf)
      → ConnectionInv k c
      → ConnectionInv k (observed I (request_disconnect_with I reason c.session) c)
  request-ConnectionInv k reason c v =
      let idle = request_disconnect_with-idle reason c.session in
      record {
        life = request_disconnect_with-Inv I 0 0 k reason c.session v.life;
        held = λ h. ground (arith, v.held, idle, h);
        same_hold = ground (arith, v.same_hold);
      }

  fires :
      (s : Session Buf)
      → s.disconnect_requested ≡ true
      → s.outstanding_io_count ≡ 1
      → (leave_completion I s).on_disconnected_fired ≡ true
  unfolding leave_completion try_fire_on_disconnected
  fires s h e = ground (arith, h, e)

  module _ (env : Env I.Buf) (greeting : List Call) where
    on_connected-Released :
        (c : OutboundSession Buf)
        → c.holds.lifecycle ≡ c.holds.session
        → Released (on_connected I env greeting c).holds
    unfolding on_connected
    on_connected-Released c same =
        let c' = observed I (start_receive_loop I env c.session) c in
        let activated = record c' { holds = release_after_activation c'.holds } in
        observed-Released (run_calls I env greeting activated.session) activated (ground arith)

    on_connected-Inv :
        (c : OutboundSession Buf)
        → Inv 0 0 1 c.session
        → Inv 0 0 1 (on_connected I env greeting c).session
    unfolding on_connected
    on_connected-Inv c v =
        run_calls-Inv I env 0 0 1 greeting (start_receive_loop I env c.session)
          (start_receive_loop-Inv I env 0 1 c.session v)

    -- Behind the handler's body the connector has let go, or the session is to end.
    Handled : OutboundSession Buf → Type 0
    Handled c = ConnectionInv 1 c × (c.holds.session ≡ true → c.session.disconnect_requested ≡ true)

    connect_completion-Handled :
        (success updated : Bool) (c : OutboundSession Buf)
        → ConnectionInv 1 c
        → Handled (connect_completion I env greeting success updated c)
    unfolding Handled finalize_connect request_disconnect
    connect_completion-Handled success updated c v =
        let asked : Handled (observed I (request_disconnect_with I normal c.session) c) = (
          request-ConnectionInv 1 normal c v,
          λ h. requested-request_disconnect_with I normal c.session,
        ) in
        Bool_cases Handled c.session.disconnect_requested (λ over. (v, λ h. over))
          (λ up.
            Bool_cases Handled success
              (λ connected.
                Bool_cases (λ (r : Bool × OutboundSession Buf). Handled r.1) updated
                  (λ yes.
                    let free = on_connected-Released c v.same_hold in
                    (
                      Released-ConnectionInv 1 (on_connected I env greeting c)
                          (on_connected-Inv c v.life) free,
                      λ h. absurd (ground (arith, free.0, h)),
                    ))
                  (λ no. asked))
              (λ failed. asked))

    left-ConnectionInv :
        (c : OutboundSession Buf)
        → Handled c
        → ConnectionInv 0 (observed I (leave_completion I c.session) c)
    unfolding Handled
    left-ConnectionInv c (v, asked) = record {
      life = leave_completion-Inv I c.session v.life;
      held = λ h. absurd (let_go (fires c.session) h);
      same_hold = ground (arith, v.same_hold);
    }
      where
        let_go :
            (c.session.disconnect_requested ≡ true
              → c.session.outstanding_io_count ≡ 1
              → (leave_completion I c.session).on_disconnected_fired ≡ true)
            → (observed I (leave_completion I c.session) c).holds.session ≡ true
            → ⊥
        let_go f h = let balance = v.life.balance in ground (arith, v.held, asked, balance, f, h)

    pub on_connect_completed-Inv :
        (success updated : Bool) (c : OutboundSession Buf)
        → ConnectionInv 1 c
        → ConnectionInv 0 (on_connect_completed I env greeting success updated c)
    unfolding on_connect_completed
    on_connect_completed-Inv success updated c v =
        let c0 = record c { connect_io_pending = false } in
        left-ConnectionInv (connect_completion I env greeting success updated c0) (
          connect_completion-Handled success updated c0
            (record { life = v.life; held = v.held; same_hold = v.same_hold }))
