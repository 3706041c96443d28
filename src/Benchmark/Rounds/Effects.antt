-- ===== src/Benchmark/Rounds/Effects.antt =====
-- What a call of sendNext and a response change, in the rounds of
-- FastPortBenchmark/LatencyBenchmarkRunner.cpp.
use fast_port.Prelude.{
  ℕ, ◌+◌, ◌-◌, ◌^◌, ◌≤◌, ◌<◌, ◌≡◌, Bool, true, false, List, ◌∷◌, arith, map, ltb, if◌then◌else◌,
}
use fast_port.Benchmark.Rounds.{
  SessionContext, Request, Run, send_next, on_packet, benchmark_response_id,
}

-- The counters of a phase: the measured one, or the warm-up.
abbrev pub next_of : Bool → Run → ℕ
next_of true r = r.next_measured
next_of false r = r.next_warmup

abbrev pub completed_of : Bool → Run → ℕ
completed_of true r = r.completed_measured
completed_of false r = r.completed_warmup

-- The tickets of the requests that were sent, newest first.
abbrev pub tickets_of : Bool → Run → List ℕ
tickets_of true r = map (λ (q : Request). q.request_id) r.measured_sent
tickets_of false r = map (λ (q : Request). q.request_id) r.warmup_sent

-- What a send of a phase leaves: one ticket more is taken, and used when it is below the limit.
pub record IsSend (m : Bool) (limit : ℕ) (c : SessionContext) (r : Run) (sent : Bool)
    (c' : SessionContext) (r' : Run) : Type 0 where
  pub next : next_of m r' ≡ next_of m r + 1
  pub completed : completed_of m r' ≡ completed_of m r
  pub stop : r'.stop_requested ≡ false
  pub phase : r'.running_measured ≡ r.running_measured
  pub notices : r'.done_notices ≡ r.done_notices
  pub active : c'.active ≡ true
  pub sends : sent ≡ ltb (next_of m r) limit
  pub awaits : c'.awaiting ≡ (if ltb (next_of m r) limit then c.awaiting + 1 else c.awaiting)
  pub tickets :
      tickets_of m r'
      ≡ (if ltb (next_of m r) limit then next_of m r ∷ tickets_of m r else tickets_of m r)

abbrev pub limit_of : Bool → ℕ → ℕ → ℕ
limit_of true total warmup = total
limit_of false total warmup = warmup

module _ (total warmup : ℕ) (payloads : List ℕ) where
  pub send_next-IsSend :
      (m : Bool) (now : ℕ) (c : SessionContext) (r : Run)
      → c.active ≡ true
      → r.stop_requested ≡ false
      → next_of m r + 1 < 2 ^ 64
      → let s = send_next total warmup payloads m now c r in
        IsSend m (limit_of m total warmup) c r s.0 s.1 s.2
  unfolding send_next
  send_next-IsSend true now c r a h b = rw (a, h) (ground arith)
  send_next-IsSend false now c r a h b = rw (a, h) (ground arith)

-- What a response leaves, when its session waits for one.
pub record IsResponse (m : Bool) (limit : ℕ) (c : SessionContext) (r : Run) (c' : SessionContext)
    (r' : Run) : Type 0 where
  pub next : next_of m r' ≡ next_of m r + 1
  pub completed : completed_of m r' ≡ completed_of m r + 1
  pub stop : r'.stop_requested ≡ false
  pub phase : r'.running_measured ≡ m
  pub active : c'.active ≡ true
  pub awaits : c'.awaiting ≡ (if ltb (next_of m r) limit then c.awaiting else c.awaiting - 1)
  pub tickets :
      tickets_of m r'
      ≡ (if ltb (next_of m r) limit then next_of m r ∷ tickets_of m r else tickets_of m r)
  pub notices :
      limit ≤ next_of m r → limit ≤ completed_of m r + 1 → r'.done_notices ≡ r.done_notices + 1
  pub kept : r.done_notices ≤ r'.done_notices

module _ (total warmup : ℕ) (payloads : List ℕ) where
  pub on_packet-IsResponse :
      (m : Bool) (now : ℕ) (c : SessionContext) (r : Run)
      → c.active ≡ true
      → r.stop_requested ≡ false
      → r.running_measured ≡ m
      → 0 < c.awaiting
      → next_of m r + 1 < 2 ^ 64
      → completed_of m r + 1 < 2 ^ 64
      → let s = on_packet total warmup payloads now benchmark_response_id true c r in
        IsResponse m (limit_of m total warmup) c r s.0 s.1
  unfolding on_packet send_next
  on_packet-IsResponse true now c r a h p w b d = rw (p, a, h) (ground arith)
  on_packet-IsResponse false now c r a h p w b d = rw (p, a, h) (ground arith)
