-- ===== src/Benchmark/Runner/Loop.antt =====
-- The loops of the run over one session, in FastPortBenchmark/LatencyBenchmarkRunner.cpp.
use fast_port.Prelude.{
  ℕ, zero, suc, ◌+◌, ◌≡◌, refl, ap, sym, subst, ◌∙◌, Bool, true, false, List, ◌∷◌, arith,
  if◌then◌else◌, sub64,
}
use fast_port.Benchmark.Runner.{Round, Sequential, measure, measure_all}

-- The samples of the rounds that were answered, from a round on, newest first, before those given.
abbrev pub sampled : (ℕ → Round) → ℕ → ℕ → ℕ → List (ℕ × ℕ) → List (ℕ × ℕ)
sampled rounds size zero i before = before
sampled rounds size (suc left) i before = sampled rounds size left (i + 1) (
    if (rounds i).answered
    then (sub64 (rounds i).recv_time (rounds i).send_time, size) ∷ before
    else before)

-- A run in which no stop is asked for takes one sample of each round that was answered, in order, and of no
-- other.
pub measure_all-sampled :
    (rounds : ℕ → Round) (iterations size left i : ℕ) (s : Sequential)
    → ((k : ℕ) → (rounds k).stop_requested ≡ false)
    → (measure_all rounds iterations size left i s).samples ≡ sampled rounds size left i s.samples
unfolding measure_all
measure_all-sampled rounds iterations size zero i s h = refl
measure_all-sampled rounds iterations size (suc left) i s h =
    subst
      (λ (b : Bool).
        Sequential.samples elim b [
          | true ↦ s
          | false ↦
              measure_all rounds iterations size left (i + 1)
                (measure iterations size i (rounds i) s)
        ]
        ≡ sampled rounds size (suc left) i s.samples)
      (sym (h i))
      (measure_all-sampled rounds iterations size left (i + 1)
          (measure iterations size i (rounds i) s) h
        ∙ ap (sampled rounds size left (i + 1)) (measured (rounds i)))
  where
    measured :
        (r : Round)
        → (measure iterations size i r s).samples
          ≡ (if r.answered then (sub64 r.recv_time r.send_time, size) ∷ s.samples else s.samples)
    measured r = ground arith
