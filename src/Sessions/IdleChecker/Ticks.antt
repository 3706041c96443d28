-- ===== src/Sessions/IdleChecker/Ticks.antt =====
-- What a tick does to the sessions of its snapshot.
use fast_port.Prelude.{
  ℕ, ◌+◌, ◌^◌, ◌%◌, ◌<◌, ◌≡◌, Bool, true, false, ltb, leb, Option, none, some, List, [], ◌∷◌,
  if◌then◌else◌, arith, subst,
}
use mathlib.Core.List.{Memᴰ}
use mathlib.Core.Option.{some-injective}
use fast_port.Stats.Collector.{answers}
use fast_port.Buffers.Interface.{IBuffer}
use fast_port.Sessions.IoSession.State.{Session, idle_timeout}
use fast_port.Sessions.IoSession.Disconnect.{
  request_disconnect_with, first_pass, try_fire_on_disconnected,
}
use fast_port.Sessions.IoSession.Lifetime.Invariant.{requested-request_disconnect_with}
use fast_port.Sessions.IdleChecker.{
  IIdleAware, SessionIdleChecker, is_idle, check_session, check_sessions, on_tick,
}

module _ (A : IIdleAware) where
  open A use {Watched, get_last_recv_time_ms, request_disconnect}

  -- The session has received something, and the last of it at least the threshold ago.
  abbrev pub expired : ℕ → ℕ → Watched → Bool
  expired now threshold s =
      let received = get_last_recv_time_ms s in
      if ltb 0 received then leb (received + threshold) now else false

  is_idle-expired :
      (now threshold : ℕ) (s : Watched) → is_idle A now threshold s ≡ expired now threshold s
  is_idle-expired now threshold s = ground arith

  -- What becomes of a session, and whether it counts.
  abbrev pub touched : ℕ → ℕ → Watched → Watched
  touched now threshold s = if expired now threshold s then (request_disconnect s).1 else s

  abbrev pub counts : ℕ → ℕ → Watched → ℕ
  counts now threshold s =
      if expired now threshold s then (if (request_disconnect s).0 then 1 else 0) else 0

  abbrev pub touched_all : ℕ → ℕ → List (Option Watched) → List (Option Watched)
  touched_all now threshold [] = []
  touched_all now threshold (none ∷ ss) = none ∷ touched_all now threshold ss
  touched_all now threshold (some s ∷ ss) =
      some (touched now threshold s) ∷ touched_all now threshold ss

  abbrev pub counts_all : ℕ → ℕ → List (Option Watched) → ℕ
  counts_all now threshold [] = 0
  counts_all now threshold (none ∷ ss) = counts_all now threshold ss
  counts_all now threshold (some s ∷ ss) = counts now threshold s + counts_all now threshold ss

  check_session-touched :
      (now threshold count : ℕ) (s : Watched)
      → count < 2 ^ 64
      → check_session A now threshold count s
        ≡ ((count + counts now threshold s) % 2 ^ 64, touched now threshold s)
  unfolding check_session
  check_session-touched now threshold count s h = ground (arith, is_idle-expired now threshold s)

  check_sessions-touched :
      (now threshold count : ℕ) (ss : List (Option Watched))
      → count < 2 ^ 64
      → check_sessions A now threshold count ss
        ≡ ((count + counts_all now threshold ss) % 2 ^ 64, touched_all now threshold ss)
  unfolding check_sessions
  check_sessions-touched now threshold count [] h = ground arith
  check_sessions-touched now threshold count (none ∷ ss) h =
      let rest = check_sessions-touched now threshold count ss h in ground (arith, rest)
  check_sessions-touched now threshold count (some s ∷ ss) h =
      let one = check_session-touched now threshold count s h in
      let next = (count + counts now threshold s) % 2 ^ 64 in
      let rest = check_sessions-touched now threshold next ss (omega arith) in
      ground (arith, one, rest)

  -- A tick of a running checker asks exactly the sessions to end that have received something, the
  -- threshold ago or longer, each on its own and whether or not another one throws; it adds those that
  -- did not throw to the count, modulo 2^64.
  pub on_tick-touched :
      (now : ℕ) (ss : List (Option Watched)) (c : SessionIdleChecker)
      → c.ticker.running ≡ true
      → c.disconnect_count < 2 ^ 64
      → on_tick A now (answers ss) c ≡ (
        record c {
          disconnect_count = (c.disconnect_count + counts_all now c.threshold_ms ss) % 2 ^ 64;
        },
        touched_all now c.threshold_ms ss,
      )
  unfolding on_tick
  on_tick-touched now ss c r h =
      let all = check_sessions-touched now c.threshold_ms c.disconnect_count ss h in
      ground (arith, all, r)

-- IOSession as what the checker watches; its RequestDisconnect does not throw.
abbrev pub io_session : (I : IBuffer) → IIdleAware
io_session I = record {
  Watched = Session I.Buf;
  get_last_recv_time_ms = λ s. s.last_recv_time_ms;
  request_disconnect = λ s. (true, request_disconnect_with I idle_timeout s);
}

module _ (I : IBuffer) where
  kept-request_disconnect_with :
      (s : Session I.Buf)
      → (request_disconnect_with I idle_timeout s).last_recv_time_ms ≡ s.last_recv_time_ms
  unfolding request_disconnect_with first_pass try_fire_on_disconnected
  kept-request_disconnect_with s = ground arith

  touched-ended :
      (now threshold : ℕ) (s : Session I.Buf)
      → expired (io_session I) now threshold (touched (io_session I) now threshold s) ≡ true
      → (touched (io_session I) now threshold s).disconnect_requested ≡ true
  touched-ended now threshold s e =
      let ends = requested-request_disconnect_with I idle_timeout s in
      let same = kept-request_disconnect_with s in ground (arith, ends, same)

  touched_all-ended :
      (now threshold : ℕ) (ss : List (Option (Session I.Buf))) {t : Session I.Buf}
      → Memᴰ (some t) (touched_all (io_session I) now threshold ss)
      → expired (io_session I) now threshold t ≡ true
      → t.disconnect_requested ≡ true
  touched_all-ended now threshold [] m e = elim m [ ]
  touched_all-ended now threshold (none ∷ ss) (Memᴰ.head same) e = absurd (ground (arith, same))
  touched_all-ended now threshold (none ∷ ss) (Memᴰ.tail m) e =
      touched_all-ended now threshold ss m e
  touched_all-ended now threshold (some s ∷ ss) {t} (Memᴰ.head same) e =
      let h : t ≡ touched (io_session I) now threshold s =
        some-injective t (touched (io_session I) now threshold s) same in
      rw h (touched-ended now threshold s (rw⁻¹ h e))
  touched_all-ended now threshold (some s ∷ ss) (Memᴰ.tail m) e =
      touched_all-ended now threshold ss m e

  -- Behind a tick of a running checker every IOSession of the snapshot that received something, but
  -- nothing for the threshold, has been asked to end.
  pub on_tick-ended :
      (now : ℕ) (ss : List (Option (Session I.Buf))) (c : SessionIdleChecker) {t : Session I.Buf}
      → c.ticker.running ≡ true
      → c.disconnect_count < 2 ^ 64
      → Memᴰ (some t) (on_tick (io_session I) now (answers ss) c).1
      → expired (io_session I) now c.threshold_ms t ≡ true
      → t.disconnect_requested ≡ true
  on_tick-ended now ss c {t} r h m e =
      touched_all-ended now c.threshold_ms ss
        (subst (λ (out : SessionIdleChecker × List (Option (Session I.Buf))). Memᴰ (some t) out.1)
          (on_tick-touched (io_session I) now ss c r h) m)
        e
