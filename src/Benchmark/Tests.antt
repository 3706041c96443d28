-- ===== src/Benchmark/Tests.antt =====
-- A run over two sessions with a warm-up of two requests and a target of three.
use fast_port.Prelude.{ℕ, ◌+◌, ◌≤◌, ◌<◌, ◌≡◌, refl, Bool, true, false, List, [], ◌∷◌, arith}
use fast_port.Benchmark.Rounds.{
  SessionContext, Run, send_next, on_packet, send_all, begin_measured, begin_warmup, respond,
  responses,
}
use fast_port.Benchmark.Rounds.Effects.{tickets_of}
use fast_port.Benchmark.Rounds.Progress.{waiting, below}
use fast_port.Benchmark.Rounds.Reaches.{IsFresh}
use fast_port.Benchmark.Rounds.Whole.{warmed, measuring, run_reaches}

abbrev context : ℕ → SessionContext
context i = record {
  active = true;
  sequence = 0;
  send_time_ns = 0;
  payload_index = 0;
  session_index = i;
  awaiting = 0;
}

abbrev sessions : List SessionContext
sessions = context 0 ∷ context 1 ∷ []

abbrev fresh : Run
fresh = record {
  stop_requested = false;
  abort_requested = false;
  completed_state = false;
  disconnected_count = 0;
  next_warmup = 0;
  completed_warmup = 0;
  next_measured = 0;
  completed_measured = 0;
  running_measured = false;
  samples = [];
  warmup_sent = [];
  measured_sent = [];
  progress = [];
  done_notices = 0;
}

fresh-IsFresh : (m : Bool) → IsFresh m sessions fresh
fresh-IsFresh true = record {
  phase = λ e. refl;
  active = (refl, (refl, tt));
  idle = refl;
  some_session = omega arith;
  stop = refl;
  next = refl;
  completed = refl;
  unused = refl;
}
fresh-IsFresh false = record {
  phase = λ e. refl;
  active = (refl, (refl, tt));
  idle = refl;
  some_session = omega arith;
  stop = refl;
  next = refl;
  completed = refl;
  unused = refl;
}

-- Both sessions answer the warm-up.
abbrev warm_answers : List (ℕ × ℕ)
warm_answers = (3, 1) ∷ (4, 0) ∷ []

-- Of the measured requests, the second session answers, then the first, then the second again.
abbrev answers : List (ℕ × ℕ)
answers = (7, 1) ∷ (8, 0) ∷ (9, 1) ∷ []

run_reaches_example :
    let w = warmed 3 2 (64 ∷ []) 1 warm_answers sessions fresh in
    let s = measuring 3 2 (64 ∷ []) 1 5 warm_answers sessions fresh in
    let t = responses 3 2 (64 ∷ []) answers s.0 s.1 in
    (w.1.completed_warmup ≡ 2)
    × (tickets_of true t.1 ≡ below (waiting t.0 + t.1.completed_measured))
    × (waiting t.0 + t.1.completed_measured ≤ 3)
    × (waiting t.0 ≡ 0 → (t.1.completed_measured ≡ 3) × (w.1.done_notices < t.1.done_notices))
unfolding begin_measured begin_warmup send_all send_next respond responses on_packet
run_reaches_example =
    run_reaches 3 2 (64 ∷ []) 1 5 sessions fresh warm_answers answers (fresh-IsFresh false)
      (fresh-IsFresh true) (omega arith) (omega arith) (omega arith) (omega arith)
      (omega arith, (omega arith, tt)) refl (omega arith, (omega arith, (omega arith, tt)))
