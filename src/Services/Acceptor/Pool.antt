-- ===== src/Services/Acceptor/Pool.antt =====
-- The pool of accepts in flight: what refills it, and what drains it.
use fast_port.Prelude.{
  ℕ, ◌+◌, ◌≤◌, ◌<◌, ◌≡◌, ◌≢◌, ap, Bool, true, false, List, [], ◌∷◌, if◌then◌else◌, arith, not,
}
use fast_port.Services.Acceptor.{
  NetworkMode, iocp, rio, Acceptor, PostAnswer, begin_accept_ex, AcceptAnswer, repost,
  on_accept_completed, run_accepts,
}

abbrev pub one_if : Bool → ℕ
one_if true = 1
one_if false = 0

abbrev pub posts : PostAnswer → Bool
posts a = if a.socket_made then a.posted else false

-- An accept succeeded, but its socket was not updated, or the mode asks for an IOService and there is none.
abbrev pub dropped : NetworkMode → AcceptAnswer → Bool
dropped iocp a = if a.success then (if a.updated then not a.io_service else true) else false
dropped rio a = if a.success then not a.updated else false

-- Completions that are dropped; those behind which the next accept is not posted; and those that gave
-- a session.
abbrev pub early : NetworkMode → List AcceptAnswer → ℕ
early m [] = 0
early m (a ∷ answers) = one_if (dropped m a) + early m answers

abbrev pub unposted : NetworkMode → List AcceptAnswer → ℕ
unposted m [] = 0
unposted m (a ∷ answers) =
    one_if (if dropped m a then false else if posts a.next then false else true)
    + unposted m answers

abbrev pub sessions : NetworkMode → List AcceptAnswer → ℕ
sessions m [] = 0
sessions m (a ∷ answers) = one_if (if dropped m a then false else a.success) + sessions m answers

one_accept :
    (a : AcceptAnswer) (s : Acceptor)
    → s.executed ≡ true
    → s.accepts ≢ 0
    → s.accepts ≤ s.overlappeds
    → let t = on_accept_completed a s in
      let gone = one_if (dropped s.mode a) in
      let missing =
        one_if (if dropped s.mode a then false else if posts a.next then false else true) in
      (t.mode ≡ s.mode)
      × (t.executed ≡ true)
      × (t.accepts + gone + missing ≡ s.accepts)
      × (t.overlappeds + missing ≡ s.overlappeds)
      × (t.accepted ≡ s.accepted + one_if (if dropped s.mode a then false else a.success))
unfolding on_accept_completed repost begin_accept_ex
one_accept a s run some held = ground arith

-- While the acceptor runs, each completed accept is followed by a new one, with two exceptions: one that
-- succeeds but is dropped (its socket was not updated, or in IOCP mode the service is not an IOService)
-- and one behind which posting fails. With fewer of these than accepts in flight, the accepts in flight
-- have gone down by their number; the objects allocated only by the failed posts, so that each dropped
-- one leaves its object behind; and each completion that succeeded and was not dropped started a session.
pub run_accepts-pool :
    (answers : List AcceptAnswer) (s : Acceptor)
    → s.executed ≡ true
    → s.accepts ≤ s.overlappeds
    → early s.mode answers + unposted s.mode answers < s.accepts
    → let t = run_accepts answers s in
      (t.accepts + early s.mode answers + unposted s.mode answers ≡ s.accepts)
      × (t.overlappeds + unposted s.mode answers ≡ s.overlappeds)
      × (t.accepted ≡ s.accepted + sessions s.mode answers)
unfolding run_accepts
run_accepts-pool [] s run held few = (omega arith, omega arith, omega arith)
run_accepts-pool (a ∷ answers) s run held few =
    let t = on_accept_completed a s in
    let one = one_accept a s run (λ z. absurd (omega (arith, z, few))) held in
    let rest =
      run_accepts-pool answers t one.1 (omega (arith, one, held))
        (rw one.0 (omega (arith, one, few))) in
    let gone = ap (λ m. early m answers) one.0 in
    let missing = ap (λ m. unposted m answers) one.0 in
    let begun = ap (λ m. sessions m answers) one.0 in
    (
      omega (arith, one, rest, gone, missing),
      omega (arith, one, rest, missing),
      omega (arith, one, rest, begun),
    )
