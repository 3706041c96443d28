-- ===== src/Sessions/IdleChecker/Tests.antt =====
-- The checker on three sessions at 10000 ms: one silent, one fresh, one that received nothing yet.
use fast_port.Prelude.{ℕ, ◌+◌, ◌%◌, ◌^◌, ◌≡◌, refl, true, Option, none, some, List, [], ◌∷◌, arith}
use mathlib.Core.List.{Memᴰ}
use fast_port.Buffers.Circle.{CircleBufferQueue}
use fast_port.Buffers.Interface.Instances.{circle}
use fast_port.Stats.Collector.{answers}
use fast_port.Sessions.IoSession.State.{Session, idle_timeout}
use fast_port.Sessions.IoSession.Disconnect.{request_disconnect_with, first_pass}
use fast_port.Sessions.IoSession.Lifetime.Reach.{init}
use fast_port.Sessions.IdleChecker.{
  SessionIdleChecker, check_session, check_sessions, on_tick, make_checker,
}
use fast_port.Sessions.IdleChecker.Ticks.{
  expired, io_session, touched_all, counts_all, on_tick-touched, on_tick-ended,
}

abbrev buffer : CircleBufferQueue
buffer = record { buffer = 0 ∷ []; head = 0; tail = 0; size = 0; capacity = 1 }

abbrev at_time : ℕ → Session CircleBufferQueue
at_time n = record (init buffer buffer) {
  last_recv_time_ms = n;
  outstanding_io_count = 1;
  recvs = 1;
}

abbrev watched : List (Option (Session CircleBufferQueue))
watched = some (at_time 4000) ∷ none ∷ some (at_time 9000) ∷ some (at_time 0) ∷ []

abbrev checker : SessionIdleChecker
checker =
    let c = make_checker true 1000 5000 in
    record c { ticker = record c.ticker { running = true; timer_id = 1 } }

abbrev silent : Session CircleBufferQueue
silent = request_disconnect_with circle idle_timeout (at_time 4000)

ticked : on_tick (io_session circle) 10000 (answers watched) checker ≡ (
  record checker { disconnect_count = 1 },
  some silent ∷ none ∷ some (at_time 9000) ∷ some (at_time 0) ∷ [],
)
unfolding on_tick check_sessions check_session
ticked = refl

on_tick-touched_example : on_tick (io_session circle) 10000 (answers watched) checker ≡ (
  record checker {
    disconnect_count = (0 + counts_all (io_session circle) 10000 5000 watched) % 2 ^ 64;
  },
  touched_all (io_session circle) 10000 5000 watched,
)
on_tick-touched_example =
    on_tick-touched (io_session circle) 10000 watched checker refl (omega arith)

silent-Memᴰ : Memᴰ (some silent) (on_tick (io_session circle) 10000 (answers watched) checker).1
unfolding on_tick check_sessions check_session
silent-Memᴰ = Memᴰ.head refl

silent_still : expired (io_session circle) 10000 5000 silent ≡ true
unfolding request_disconnect_with first_pass
silent_still = refl

on_tick-ended_example : silent.disconnect_requested ≡ true
on_tick-ended_example =
    on_tick-ended circle 10000 watched checker refl (omega arith) silent-Memᴰ silent_still
