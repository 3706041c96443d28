-- ===== src/Stats/Tests.antt =====
-- The collector on three sessions, one of them null.
use fast_port.Prelude.{ℕ, ◌*◌, ◌/◌, ltb, true, refl, ◌≡◌, none, some, [], ◌∷◌, arith}
use fast_port.Stats.Collector.{Snapshot}
use fast_port.Stats.Sampler.{StatsSampler, Readings, Doubles, make_sampler, do_sample}
use fast_port.Stats.Sampler.Samples.{sample_all, do_sample-cpu}

abbrev three : Snapshot
three =
    some (record {
      last_recv_time_ms = some 5;
      session_id = some 1;
      total_rx_bytes = 10;
      total_tx_bytes = 1;
    })
    ∷ none
    ∷ some (record {
      last_recv_time_ms = none;
      session_id = some 2;
      total_rx_bytes = 0xFFFFFFFFFFFFFFFF;
      total_tx_bytes = 2;
    })
    ∷ []

-- Half of the time that has passed, with a failed sample between.
abbrev sampler : StatsSampler
sampler = make_sampler true 1000

abbrev reading : ℕ → ℕ → ℕ → Readings
reading kernel user wall = record {
  process_times = some (kernel, user);
  system_time = wall;
  working_set_size = none;
}

abbrev failing : Readings
failing = record { process_times = none; system_time = 7; working_set_size = none }

-- Numbers with three decimals in place of doubles.
abbrev fixed : Doubles
fixed = record {
  of_uint64 = λ n. n * 1000;
  divide = λ a b. a * 1000 / b;
  times = λ a b. a * b / 1000;
  below = λ a b. ltb a b;
  hundred = 100000;
}

-- 5 of 10.
do_sample-cpu_example :
    (do_sample fixed (reading 6 4 30) (
      sample_all fixed (failing ∷ []) (do_sample fixed (reading 3 2 20) sampler))).cpu_percent_cache
    ≡ fixed.times (fixed.divide (fixed.of_uint64 5) (fixed.of_uint64 10)) fixed.hundred
do_sample-cpu_example =
    do_sample-cpu fixed (reading 3 2 20) (reading 6 4 30) (failing ∷ []) 3 2 6 4 sampler refl
      (refl, tt) refl (omega arith) (omega arith) (omega arith) (omega arith)
      (λ n d h. ground arith)
