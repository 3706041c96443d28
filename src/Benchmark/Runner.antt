-- ===== src/Benchmark/Runner.antt =====
-- LatencyBenchmarkRunner of FastPortBenchmark/LatencyBenchmarkRunner.cpp: its states, Start and Stop, the pool
-- of payloads, and the loops of the run over one session. A call runs whole; what the clocks, the random
-- sizes and the server answer are arguments.
pub mod States
pub mod Pool
pub mod Loop
use fast_port.Prelude.{
  ℕ, zero, suc, ◌+◌, ◌-◌, ◌%◌, Bool, true, false, ◌&&◌, ◌||◌, List, [], ◌∷◌, ltb, leb, ◌==◌,
  if◌then◌else◌, tabulate, to_u32, sub64,
}

pub data BenchmarkState : Type 0 where
  idle connecting warmup running completed failed : BenchmarkState

pub record BenchmarkConfig : Type 0 where
  pub iterations : ℕ
  pub warmup_iterations : ℕ
  pub payload_size : ℕ
  pub payload_min_size : ℕ
  pub payload_max_size : ℕ
  pub payload_pool_size : ℕ
  pub session_count : ℕ

-- `reports` has what onStateChanged was told, newest first.
pub record Runner : Type 0 where
  pub state : BenchmarkState
  pub stop_requested : Bool
  pub reports : List BenchmarkState
  pub samples : List (ℕ × ℕ)

abbrev pub new_runner : Runner
new_runner = record { state = idle; stop_requested = false; reports = []; samples = [] }

abbrev pub is_idle : BenchmarkState → Bool
is_idle idle = true
is_idle _ = false

-- Completed or Failed.
abbrev pub is_final : BenchmarkState → Bool
is_final completed = true
is_final failed = true
is_final _ = false

abbrev pub same_state : BenchmarkState → BenchmarkState → Bool
same_state idle idle = true
same_state connecting connecting = true
same_state warmup warmup = true
same_state running running = true
same_state completed completed = true
same_state failed failed = true
same_state _ _ = false

unfoldable pub set_state : BenchmarkState → Runner → Runner
set_state state r =
    if is_idle state
    then record r { state = state; reports = state ∷ r.reports }
    else if same_state r.state state || is_final r.state
    then r
    else record r { state = state; reports = state ∷ r.reports }

-- Start: whether it went through; the thread that it starts runs on its own.
unfoldable pub start : Runner → Bool × Runner
start r =
    if is_idle r.state
    then (true, record r { stop_requested = false; samples = [] })
    else (false, r)

-- Stop, behind the end of the thread.
unfoldable pub stop : Runner → Runner
stop r = set_state idle (record r { stop_requested = true })

-- Whether RunBenchmark takes the run over one session.
abbrev pub is_fixed_single_session : BenchmarkConfig → Bool
is_fixed_single_session c =
    leb c.session_count 1
    && ((c.payload_min_size == 0 || c.payload_min_size == c.payload_size)
        && (c.payload_max_size == 0 || c.payload_max_size == c.payload_size))

-- BuildPayloadPool: the bounds of the sizes, and the payloads, from 'A' on.
abbrev pub min_size : BenchmarkConfig → ℕ
min_size c = if c.payload_min_size == 0 then c.payload_size else c.payload_min_size

abbrev pub max_size : BenchmarkConfig → ℕ
max_size c = if c.payload_max_size == 0 then min_size c else c.payload_max_size

abbrev pub low : BenchmarkConfig → ℕ
low c = if ltb (max_size c) (min_size c) then max_size c else min_size c

abbrev pub high : BenchmarkConfig → ℕ
high c = if ltb (min_size c) (max_size c) then max_size c else min_size c

abbrev pub pool_size : BenchmarkConfig → ℕ
pool_size c = if ltb 1 c.payload_pool_size then c.payload_pool_size else 1

abbrev pub payload : ℕ → ℕ → List ℕ
payload i size = tabulate size (λ j. 65 + (i + j) % 26)

-- `size_of i`: the size that the distribution gives for the i-th payload.
unfoldable pub build_payload_pool : (ℕ → ℕ) → BenchmarkConfig → List (List ℕ)
build_payload_pool size_of c = tabulate (pool_size c) (λ i. payload i (size_of i))

-- A round of a loop: whether a stop was asked for before it, whether the answer came in time, and the
-- times of the request and of the answer.
pub record Round : Type 0 where
  pub stop_requested : Bool
  pub answered : Bool
  pub send_time : ℕ
  pub recv_time : ℕ

-- The variables of RunSequentialBenchmark, with the requests' ids and sequence numbers and the progress that
-- was reported, newest first.
pub record Sequential : Type 0 where
  pub warmup_responses : ℕ
  pub sent : List (ℕ × ℕ)
  pub samples : List (ℕ × ℕ)
  pub progress : List (ℕ × ℕ)

-- The loop of the warm-up, from a round on.
unfoldable pub warm_up : (ℕ → Round) → ℕ → ℕ → Sequential → Sequential
warm_up rounds zero i s = s
warm_up rounds (suc left) i s = elim ((rounds i).stop_requested) [
  | true ↦ s
  | false ↦
      warm_up rounds left (i + 1)
        (if (rounds i).answered then record s { warmup_responses = s.warmup_responses + 1 } else s)
]

-- A measured round. A round that is not answered reports no progress.
abbrev pub measure : ℕ → ℕ → ℕ → Round → Sequential → Sequential
measure iterations size i r s =
    let sent : Sequential = record s { sent = (i, to_u32 i) ∷ s.sent } in
    if r.answered
    then record sent {
      samples = (sub64 r.recv_time r.send_time, size) ∷ s.samples;
      progress =
          if (i % 100 == 0) || (i + 1 == iterations)
          then (i + 1, iterations) ∷ s.progress
          else s.progress;
    }
    else sent

unfoldable pub measure_all : (ℕ → Round) → ℕ → ℕ → ℕ → ℕ → Sequential → Sequential
measure_all rounds iterations size zero i s = s
measure_all rounds iterations size (suc left) i s = elim ((rounds i).stop_requested) [
  | true ↦ s
  | false ↦ measure_all rounds iterations size left (i + 1) (measure iterations size i (rounds i) s)
]
