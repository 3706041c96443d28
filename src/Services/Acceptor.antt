-- ===== src/Services/Acceptor.antt =====
-- IOSocketAcceptor of LibNetworks/IOSocketAcceptor.cpp: the listener, and the accepts that it keeps posted.
-- What the system, the service and the creating function answer are arguments.
pub mod Pool
use fast_port.Prelude.{ℕ, ◌+◌, ◌-◌, Bool, true, false, List, [], ◌∷◌, if◌then◌else◌}

pub data NetworkMode : Type 0 where
  iocp rio : NetworkMode

-- `accepts`: the AcceptEx operations in flight; `overlappeds`: the AcceptOverlapped objects that are
-- allocated; `accepted`: how often OnAccepted of a new session was called; `closed`: the client sockets that
-- were closed.
pub record Acceptor : Type 0 where
  pub mode : NetworkMode
  pub executed : Bool
  pub listening : Bool
  pub service_started : Bool
  pub accepts : ℕ
  pub overlappeds : ℕ
  pub accepted : ℕ
  pub closed : ℕ

abbrev pub make_acceptor : NetworkMode → Acceptor
make_acceptor mode = record {
  mode = mode;
  executed = false;
  listening = false;
  service_started = false;
  accepts = 0;
  overlappeds = 0;
  accepted = 0;
  closed = 0;
}

-- Whether a client socket is made and whether AcceptEx takes it.
pub record PostAnswer : Type 0 where
  pub socket_made : Bool
  pub posted : Bool

unfoldable pub begin_accept_ex : PostAnswer → Acceptor → Bool × Acceptor
begin_accept_ex a s =
    let held = record s { overlappeds = s.overlappeds + 1 } in
    if s.executed
    then (if a.socket_made
        then (if a.posted then (true, record held { accepts = held.accepts + 1 }) else (
          false,
          record held { closed = held.closed + 1; overlappeds = held.overlappeds - 1 },
        ))
        else (false, record held { overlappeds = held.overlappeds - 1 }))
    else (false, s)

unfoldable pub shutdown : Acceptor → Acceptor
shutdown s = record s { executed = false; service_started = false; listening = false }

-- The answers to the steps of ListenSocket; the address reuse may fail.
pub record ListenAnswers : Type 0 where
  pub bound : Bool
  pub associated : Bool
  pub listens : Bool
  pub accept_ex_found : Bool
  pub sockaddrs_found : Bool

unfoldable pub listen_socket : ListenAnswers → Acceptor → Bool × Acceptor
listen_socket a s =
    let heard = record s { listening = true } in
    if a.bound
    then (if a.associated
        then (if a.listens
            then (if a.accept_ex_found
                then (if a.sockaddrs_found then (true, heard) else (false, shutdown heard))
                else (false, shutdown heard))
            else (false, s))
        else (false, shutdown s))
    else (false, s)

-- The loop that posts the first accepts; one that fails is only logged.
unfoldable pub post_accepts : List PostAnswer → Acceptor → Acceptor
post_accepts [] s = s
post_accepts (a ∷ answers) s = post_accepts answers (begin_accept_ex a s).1

-- With one answer for each of the first accepts. `has_service`: whether the acceptor has a service already,
-- and is not given a new IOService; `started`: whether the one or the other started.
unfoldable pub start : Bool → Bool → ListenAnswers → List PostAnswer → Acceptor → Bool × Acceptor
start has_service started a answers s =
    let served = record s { service_started = true } in
    let (ok, heard) = listen_socket a served in
    if started
    then (if ok
        then (true, post_accepts answers (record heard { executed = true }))
        else (false, shutdown heard))
    else if has_service
    then (false, shutdown s)
    else (false, s)

-- Behind an accept: whether it succeeded, whether SO_UPDATE_ACCEPT_CONTEXT was taken, whether the service is
-- an IOService, and the answer to the next accept.
pub record AcceptAnswer : Type 0 where
  pub success : Bool
  pub updated : Bool
  pub io_service : Bool
  pub next : PostAnswer

-- Whether the handler returns before it posts the next accept.
abbrev pub returns_early : NetworkMode → AcceptAnswer → Bool
returns_early iocp a =
    if a.success
    then (if a.updated then (if a.io_service then false else true) else true)
    else false
returns_early rio a = if a.success then (if a.updated then false else true) else false

-- The end of the handler: the next accept, and the object of the one that is done.
unfoldable pub repost : PostAnswer → Acceptor → Acceptor
repost a s =
    let t = if s.executed then (begin_accept_ex a s).1 else s in
    record t { overlappeds = t.overlappeds - 1 }

-- OnIOCompleted of an accept, which is no longer in flight. The creating function gives a session, and its
-- association with the port is not looked at.
unfoldable pub on_accept_completed : AcceptAnswer → Acceptor → Acceptor
on_accept_completed a s =
    let done = record s { accepts = s.accepts - 1 } in
    if returns_early s.mode a
    then record done { closed = done.closed + 1 }
    else if a.success
    then repost a.next (record done { accepted = done.accepted + 1 })
    else repost a.next (record done { closed = done.closed + 1 })

unfoldable pub run_accepts : List AcceptAnswer → Acceptor → Acceptor
run_accepts [] s = s
run_accepts (a ∷ answers) s = run_accepts answers (on_accept_completed a s)
