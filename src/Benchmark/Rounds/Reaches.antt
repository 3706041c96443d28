-- ===== src/Benchmark/Rounds/Reaches.antt =====
-- What a phase of a run over several sessions, in FastPortBenchmark/LatencyBenchmarkRunner.cpp, reaches.
use fast_port.Prelude.{
  ℕ, ◌+◌, ◌^◌, ◌≤◌, ◌<◌, ◌≡◌, refl, Bool, true, false, List, [], ◌∷◌, arith, length, ltb_cases,
}
use fast_port.Benchmark.Rounds.{SessionContext, Run, begin_warmup, begin_measured, responses}
use fast_port.Benchmark.Rounds.Effects.{next_of, completed_of, tickets_of, limit_of}
use fast_port.Benchmark.Rounds.Progress.{
  AreActive, AreBusy, waiting, below, InPhase, AreExpected, responses-InPhase,
}
use fast_port.Benchmark.Rounds.Start.{begin, sent-InPhase}

-- A phase that may start: its counters are at 0, nothing is asked to stop, and the sessions, one at
-- least, are active and wait for nothing.
pub record IsFresh (m : Bool) (cs : List SessionContext) (r : Run) : Type 0 where
  pub phase : m ≡ false → r.running_measured ≡ false
  pub active : AreActive cs
  pub idle : waiting cs ≡ 0
  pub some_session : 0 < length cs
  pub stop : r.stop_requested ≡ false
  pub next : next_of m r ≡ 0
  pub completed : completed_of m r ≡ 0
  pub unused : tickets_of m r ≡ []

AreBusy-waiting : (cs : List SessionContext) → 0 < length cs → AreBusy cs → 0 < waiting cs
AreBusy-waiting [] l b = absurd (omega arith)
AreBusy-waiting (c ∷ cs) l b = omega (arith, b.0)

module _ (total warmup : ℕ) (payloads : List ℕ) where
  pub begin-InPhase :
      (m : Bool) (now : ℕ) (cs : List SessionContext) (r : Run)
      → IsFresh m cs r
      → 0 < limit_of m total warmup
      → limit_of m total warmup + length cs < 2 ^ 64
      → let s = begin total warmup payloads m now cs r in
        InPhase m (limit_of m total warmup) r.done_notices s.0 s.1 × (length s.0 ≡ length cs)
  unfolding begin_measured begin_warmup
  begin-InPhase true now cs r f l b =
      sent-InPhase total warmup payloads true now cs (record r { running_measured = true }) refl
        f.active f.idle f.stop f.next f.completed f.unused l b
  begin-InPhase false now cs r f l b =
      sent-InPhase total warmup payloads false now cs r (f.phase refl) f.active f.idle f.stop f.next
        f.completed f.unused l b

-- A phase of a run, the warm-up or the measured one, on active sessions that are not lost and without a
-- request to stop, with a target that is not 0 and less than 2^64 minus their number, behind any responses
-- that come to sessions that wait for one: the tickets that were sent are the first ones, each
-- once; no more are answered than the target; and when no session waits any more, the target is
-- reached and the thread of the run was woken since the start.
pub phase_reaches :
    (total warmup : ℕ) (payloads : List ℕ) (m : Bool) (now : ℕ) (cs : List SessionContext) (r : Run)
    (rs : List (ℕ × ℕ))
    → IsFresh m cs r
    → 0 < limit_of m total warmup
    → limit_of m total warmup + length cs < 2 ^ 64
    → AreExpected total warmup payloads rs
        (begin total warmup payloads m now cs r).0
        (begin total warmup payloads m now cs r).1
    → let s = begin total warmup payloads m now cs r in
      let t = responses total warmup payloads rs s.0 s.1 in
      (tickets_of m t.1 ≡ below (waiting t.0 + completed_of m t.1))
      × (waiting t.0 + completed_of m t.1 ≤ limit_of m total warmup)
      × (waiting t.0 ≡ 0
          → (completed_of m t.1 ≡ limit_of m total warmup) × (r.done_notices < t.1.done_notices))
phase_reaches total warmup payloads m now cs r rs f l b e =
    let limit = limit_of m total warmup in
    let s = begin total warmup payloads m now cs r in
    let t = responses total warmup payloads rs s.0 s.1 in
    let (i, n) = begin-InPhase total warmup payloads m now cs r f l b in
    let same : length s.0 ≡ length cs = n in
    let (j, k) =
      responses-InPhase total warmup payloads m r.done_notices rs s.0 s.1 (omega (arith, same)) i
        e in
    let same' : length t.0 ≡ length s.0 = k in
    let reached : waiting t.0 ≡ 0 → completed_of m t.1 ≡ limit = λ w.
      ltb_cases (λ (x : ℕ). completed_of m t.1 ≡ limit) (next_of m t.1) limit {x = 0} {y = 0}
        (λ q. absurd (
          omega
            (arith, AreBusy-waiting t.0 (omega (arith, same, same', f.some_session)) (j.busy q))))
        (λ q. omega (arith, j.late)) in
    (
      j.tickets,
      ltb_cases (λ (x : ℕ). waiting t.0 + completed_of m t.1 ≤ limit) (next_of m t.1) limit {x = 0}
          {y = 0} (λ q. omega (arith, j.early)) (λ q. omega (arith, j.late)),
      λ w. (reached w, j.woken (omega (arith, reached w))),
    )
