-- ===== src/Benchmark.antt =====
-- FastPortBenchmark/LatencyBenchmarkRunner.cpp: the runner's states, its payloads and its run over one session
-- (Runner), and the rounds of a run over several sessions (Rounds).
pub mod Runner
pub mod Rounds
mod Tests
