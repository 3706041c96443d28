-- ===== src/Stats/Sampler.antt =====
-- StatsSampler of LibNetworks/StatsSampler.cpp: the share of the processor and the memory of the process,
-- sampled by a timer. Times are counts of 100 ns in 64 bits; the operations on doubles are the machine's,
-- and parameters, and 0 stands for 0.0. The answers of the system are arguments.
pub mod Samples
use fast_port.Prelude.{
  ℕ, Bool, true, false, Option, none, some, List, [], ◌∷◌, ◌==◌, if◌then◌else◌, add64, sub64,
}
use fast_port.Timers.Queue.{TimerQueue}
use fast_port.Timers.Ticker.{Ticker, new_ticker, starts, start_ticker, stop_ticker}

pub record StatsSampler : Type 0 where
  pub ticker : Ticker
  pub prev_proc_kernel_ticks : ℕ
  pub prev_proc_user_ticks : ℕ
  pub prev_wall_ticks : ℕ
  pub has_prev_sample : Bool
  pub cpu_percent_cache : ℕ
  pub memory_bytes_cache : ℕ

abbrev pub make_sampler : Bool → ℕ → StatsSampler
make_sampler enabled interval = record {
  ticker = new_ticker enabled interval;
  prev_proc_kernel_ticks = 0;
  prev_proc_user_ticks = 0;
  prev_wall_ticks = 0;
  has_prev_sample = false;
  cpu_percent_cache = 0;
  memory_bytes_cache = 0;
}

-- What `GetProcessTimes` (the kernel and the user time), the clock and `GetProcessMemoryInfo` answer.
pub record Readings : Type 0 where
  pub process_times : Option (ℕ × ℕ)
  pub system_time : ℕ
  pub working_set_size : Option ℕ

abbrev pub or_kept : ℕ → Option ℕ → ℕ
or_kept m none = m
or_kept m (some n) = n

-- The machine's operations on doubles, each a number (its 64 bits): the cast of an integer, the quotient,
-- the product, the order and 100.0.
pub record Doubles : Type 0 where
  pub of_uint64 : ℕ → ℕ
  pub divide : ℕ → ℕ → ℕ
  pub times : ℕ → ℕ → ℕ
  pub below : ℕ → ℕ → Bool
  pub hundred : ℕ

module _ (doubles : Doubles) where
  open doubles use {of_uint64, divide, times, below, hundred}

  -- The share of one time in another, in percent, and not below 0.
  abbrev pub share : ℕ → ℕ → ℕ
  share proc_delta wall_delta =
      let cpu_pct = times (divide (of_uint64 proc_delta) (of_uint64 wall_delta)) hundred in
      if below cpu_pct 0 then 0 else cpu_pct

  -- The value that a sample stores for the processor.
  unfoldable pub cpu_percent : ℕ → ℕ → ℕ → StatsSampler → ℕ
  cpu_percent kernel user wall s =
      let proc_delta =
        sub64 (add64 kernel user) (add64 s.prev_proc_kernel_ticks s.prev_proc_user_ticks) in
      let wall_delta = sub64 wall s.prev_wall_ticks in
      if s.has_prev_sample then (if wall_delta == 0 then 0 else share proc_delta wall_delta) else 0

  unfoldable pub do_sample : Readings → StatsSampler → StatsSampler
  do_sample r s = elim r.process_times [
    | none ↦ s
    | some (kernel, user) ↦ record s {
      prev_proc_kernel_ticks = kernel;
      prev_proc_user_ticks = user;
      prev_wall_ticks = r.system_time;
      has_prev_sample = true;
      cpu_percent_cache = cpu_percent kernel user r.system_time s;
      memory_bytes_cache = or_kept s.memory_bytes_cache r.working_set_size;
    }
  ]

  -- Start samples once before it schedules the ticks.
  unfoldable pub start_sampler :
      Bool → Readings → StatsSampler → TimerQueue → StatsSampler × TimerQueue
  start_sampler created r s q =
      let (t, q') = start_ticker created s.ticker q in
      if starts s.ticker then (record (do_sample r s) { ticker = t }, q') else (s, q)

  unfoldable pub on_sampler_tick : Readings → StatsSampler → StatsSampler
  on_sampler_tick r s = if s.ticker.running then do_sample r s else s

  unfoldable pub force_sample_now : Readings → StatsSampler → StatsSampler
  force_sample_now r s = do_sample r s

unfoldable pub stop_sampler : Bool → StatsSampler → TimerQueue → StatsSampler × TimerQueue
stop_sampler current s q =
    let (t, q') = stop_ticker current s.ticker q in (record s { ticker = t }, q')
