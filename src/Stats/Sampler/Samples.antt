-- ===== src/Stats/Sampler/Samples.antt =====
-- What the cached share of the processor says of the samples.
use fast_port.Prelude.{
  ℕ, ◌+◌, ◌-◌, ◌^◌, ◌≤◌, ◌<◌, ◌≡◌, refl, none, some, false, List, [], ◌∷◌, arith, All, add64, sub64,
}
use fast_port.Stats.Sampler.{StatsSampler, Readings, Doubles, cpu_percent, do_sample}

abbrev pub Failed : Readings → Type 0
Failed r = r.process_times ≡ none

module _ (doubles : Doubles) where
  open doubles use {of_uint64, divide, times, below, hundred}

  -- One sample after the other.
  abbrev pub sample_all : List Readings → StatsSampler → StatsSampler
  sample_all [] s = s
  sample_all (r ∷ rs) s = sample_all rs (do_sample doubles r s)

  sample_all-Failed : (rs : List Readings) (s : StatsSampler) → All Failed rs → sample_all rs s ≡ s
  unfolding do_sample
  sample_all-Failed [] s f = refl
  sample_all-Failed (r ∷ rs) s (e, f) = rw e (sample_all-Failed rs s f)

  -- Between a sample that succeeds and the next one that does, with any number of failed ones between,
  -- the cached share of the processor is the process's time divided by the time that has passed, times
  -- 100, when the clock has moved, the counts, the earlier ones not above the later ones, stay below 2^64,
  -- and no such quotient times 100 is below zero. It is not divided by the number of processors.
  pub do_sample-cpu :
      (a b : Readings) (fails : List Readings) (kernel user kernel' user' : ℕ) (s : StatsSampler)
      → a.process_times ≡ some (kernel, user)
      → All Failed fails
      → b.process_times ≡ some (kernel', user')
      → kernel + user ≤ kernel' + user'
      → kernel' + user' < 2 ^ 64
      → a.system_time < b.system_time
      → b.system_time < 2 ^ 64
      → ((n d : ℕ) → 0 < d → below (times (divide (of_uint64 n) (of_uint64 d)) hundred) 0 ≡ false)
      → let used = (kernel' + user') - (kernel + user) in
        let passed = b.system_time - a.system_time in
        (do_sample doubles b (sample_all fails (do_sample doubles a s))).cpu_percent_cache
        ≡ times (divide (of_uint64 used) (of_uint64 passed)) hundred
  unfolding do_sample cpu_percent
  do_sample-cpu a b fails kernel user kernel' user' s ea f eb ordered small moved fits positive =
      let used : sub64 (add64 kernel' user') (add64 kernel user)
          ≡ (kernel' + user') - (kernel + user) =
        omega arith in
      let passed : sub64 b.system_time a.system_time ≡ b.system_time - a.system_time =
        omega arith in
      let sign =
        positive ((kernel' + user') - (kernel + user)) (b.system_time - a.system_time)
          (omega (arith, moved)) in
      rw (sample_all-Failed fails (do_sample doubles a s) f, ea, eb, used, passed)
        (ground (arith, sign))
