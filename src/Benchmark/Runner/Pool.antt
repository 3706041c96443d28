-- ===== src/Benchmark/Runner/Pool.antt =====
-- The pool of payloads of FastPortBenchmark/LatencyBenchmarkRunner.cpp.
use fast_port.Prelude.{
  ℕ, zero, suc, ◌+◌, ◌%◌, ◌≤◌, ◌<◌, ◌≡◌, List, arith, length, All, tabulate, length-tabulate,
}
use fast_port.Benchmark.Runner.{BenchmarkConfig, low, high, pool_size, payload, build_payload_pool}

All-tabulate :
    (P : List ℕ → Type 0) (n : ℕ) (f : ℕ → List ℕ)
    → ((i : ℕ) → i < n → P (f i))
    → All P (tabulate n f)
All-tabulate P zero f h = tt
All-tabulate P (suc n) f h =
    (h 0 (omega arith), All-tabulate P n (λ i. f (suc i)) (λ i l. h (suc i) (omega arith)))

-- Where the distribution keeps to its bounds, the pool is not empty and has as many payloads as asked for, each
-- as long as the bounds allow; and the bounds are in order.
pub build_payload_pool-sizes :
    (size_of : ℕ → ℕ) (c : BenchmarkConfig)
    → ((i : ℕ) → (low c ≤ size_of i) × (size_of i ≤ high c))
    → let pool = build_payload_pool size_of c in
      (length pool ≡ pool_size c)
      × (0 < length pool)
      × (low c ≤ high c)
      × All (λ p. (low c ≤ length p) × (length p ≤ high c)) pool
unfolding build_payload_pool
build_payload_pool-sizes size_of c b =
    let n = length-tabulate (pool_size c) (λ i. payload i (size_of i)) in
    let some : 0 < pool_size c = ground arith in
    (
      n,
      omega (arith, n),
      ground arith,
      All-tabulate (λ p. (low c ≤ length p) × (length p ≤ high c)) (pool_size c) _
          (λ i l.
            let k = length-tabulate (size_of i) (λ j. 65 + (i + j) % 26) in
            (omega (arith, k, b i), omega (arith, k, b i))),
    )
