-- ===== src/Benchmark/Runner/States.antt =====
-- The states that LatencyBenchmarkRunner of FastPortBenchmark/LatencyBenchmarkRunner.cpp goes through.
use fast_port.Prelude.{
  ◌≡◌, refl, subst, Bool, true, false, ◌||◌, Bool-cases, inl, inr, List, [], ◌∷◌, All,
}
use fast_port.Benchmark.Runner.{
  BenchmarkState, idle, Runner, new_runner, is_idle, is_final, same_state, set_state,
}

-- Reports, newest first, from the idle state: each is of another state than the one before, and none
-- comes behind one that is final.
abbrev pub AreOrdered : BenchmarkState → List BenchmarkState → Type 0
AreOrdered now [] = now ≡ idle
AreOrdered now (s ∷ []) = now ≡ s
AreOrdered now (s ∷ earlier ∷ more) =
    (now ≡ s)
    × (same_state earlier s ≡ false)
    × (is_final earlier ≡ false)
    × AreOrdered earlier (earlier ∷ more)

-- The states that are asked for, in their order.
unfoldable pub set_states : List BenchmarkState → Runner → Runner
set_states [] r = r
set_states (s ∷ ss) r = set_states ss (set_state s r)

or_false : (a b : Bool) → (a || b) ≡ false → (a ≡ false) × (b ≡ false)
or_false true b e = cc
or_false false b e = (refl, e)

-- A new report behind those before it.
report-AreOrdered :
    (now s : BenchmarkState) (reports : List BenchmarkState)
    → AreOrdered now reports
    → same_state now s ≡ false
    → is_final now ≡ false
    → AreOrdered s (s ∷ reports)
report-AreOrdered now s [] o d f = refl
report-AreOrdered now s (x ∷ []) o d f =
    (refl, subst (λ y. same_state y s ≡ false) o d, subst (λ y. is_final y ≡ false) o f, refl)
report-AreOrdered now s (x ∷ y ∷ more) o d f = (
  refl,
  subst (λ y. same_state y s ≡ false) o.0 d,
  subst (λ y. is_final y ≡ false) o.0 f,
  (refl, o.1, o.2, o.3),
)

set_state-AreOrdered :
    (s : BenchmarkState) (r : Runner)
    → is_idle s ≡ false
    → AreOrdered r.state r.reports
    → AreOrdered (set_state s r).state (set_state s r).reports
unfolding set_state
set_state-AreOrdered s r n o = elim (Bool-cases (same_state r.state s || is_final r.state)) [
  | inl e ↦ rw (n, e) o
  | inr e ↦
      let (d, f) = or_false (same_state r.state s) (is_final r.state) e in
      rw (n, e) (report-AreOrdered r.state s r.reports o d f)
]

set_states-AreOrdered :
    (ss : List BenchmarkState) (r : Runner)
    → All (λ s. is_idle s ≡ false) ss
    → AreOrdered r.state r.reports
    → AreOrdered (set_states ss r).state (set_states ss r).reports
unfolding set_states
set_states-AreOrdered [] r n o = o
set_states-AreOrdered (s ∷ ss) r n o =
    set_states-AreOrdered ss (set_state s r) n.1 (set_state-AreOrdered s r n.0 o)

-- Whatever states other than Idle a new runner's threads ask for, one call after the other and in any
-- order, each report is of the state that the runner is in then and of another than the report before it,
-- and a report of Completed or Failed is the last one.
pub states-AreOrdered :
    (ss : List BenchmarkState)
    → All (λ s. is_idle s ≡ false) ss
    → AreOrdered (set_states ss new_runner).state (set_states ss new_runner).reports
states-AreOrdered ss n = set_states-AreOrdered ss new_runner n refl
