-- ===== src/Benchmark/Rounds/Whole.antt =====
-- A whole run over several sessions, in FastPortBenchmark/LatencyBenchmarkRunner.cpp: the warm-up, then the
-- measured phase.
use fast_port.Prelude.{
  ℕ, zero, suc, ◌+◌, ◌^◌, ◌≤◌, ◌<◌, ◌≡◌, refl, ◌∙◌, true, false, List, [], ◌∷◌, arith, length,
}
use fast_port.Benchmark.Rounds.{
  SessionContext, Run, send_next, on_packet, benchmark_response_id, send_all, begin_warmup, respond,
  responses,
}
use fast_port.Benchmark.Rounds.Effects.{tickets_of}
use fast_port.Benchmark.Rounds.Progress.{waiting, below, AreExpected, responses-InPhase}
use fast_port.Benchmark.Rounds.Start.{begin}
use fast_port.Benchmark.Rounds.Reaches.{IsFresh, begin-InPhase, phase_reaches}

-- The variables of the measured phase, untouched.
record IsKept (r r' : Run) : Type 0 where
  next : r'.next_measured ≡ r.next_measured
  completed : r'.completed_measured ≡ r.completed_measured
  sent : tickets_of true r' ≡ tickets_of true r
  phase : r'.running_measured ≡ r.running_measured

IsKept-trans : (r r' r'' : Run) → IsKept r r' → IsKept r' r'' → IsKept r r''
IsKept-trans r r' r'' k l = record {
  next = l.next ∙ k.next;
  completed = l.completed ∙ k.completed;
  sent = l.sent ∙ k.sent;
  phase = l.phase ∙ k.phase;
}

module _ (total warmup : ℕ) (payloads : List ℕ) where
  send_next-IsKept :
      (now : ℕ) (c : SessionContext) (r : Run)
      → IsKept r (send_next total warmup payloads false now c r).2
  unfolding send_next
  send_next-IsKept now c r = ground arith

  on_packet-IsKept :
      (now : ℕ) (c : SessionContext) (r : Run)
      → r.running_measured ≡ false
      → IsKept r (on_packet total warmup payloads now benchmark_response_id true c r).1
  unfolding on_packet send_next
  on_packet-IsKept now c r p = rw p (ground arith)

  send_all-IsKept :
      (now : ℕ) (cs : List SessionContext) (r : Run)
      → IsKept r (send_all total warmup payloads false now cs r).1
  unfolding send_all
  send_all-IsKept now [] r = record { next = refl; completed = refl; sent = refl; phase = refl }
  send_all-IsKept now (c ∷ cs) r =
      IsKept-trans r _ _ (send_next-IsKept now c r) (send_all-IsKept now cs _)

  respond-IsKept :
      (now k : ℕ) (cs : List SessionContext) (r : Run)
      → r.running_measured ≡ false
      → IsKept r (respond total warmup payloads now k cs r).1
  unfolding respond
  respond-IsKept now k [] r p = record { next = refl; completed = refl; sent = refl; phase = refl }
  respond-IsKept now zero (c ∷ cs) r p = on_packet-IsKept now c r p
  respond-IsKept now (suc k) (c ∷ cs) r p = respond-IsKept now k cs r p

  responses-IsKept :
      (rs : List (ℕ × ℕ)) (cs : List SessionContext) (r : Run)
      → r.running_measured ≡ false
      → IsKept r (responses total warmup payloads rs cs r).1
  unfolding responses
  responses-IsKept [] cs r p = record { next = refl; completed = refl; sent = refl; phase = refl }
  responses-IsKept ((now, k) ∷ rs) cs r p =
      let one = respond-IsKept now k cs r p in
      IsKept-trans r _ _ one (responses-IsKept rs _ _ (one.phase ∙ p))

  -- The sessions and the variables behind the warm-up and its responses, and behind the start of the measured
  -- phase.
  abbrev pub warmed : ℕ → List (ℕ × ℕ) → List SessionContext → Run → List SessionContext × Run
  warmed now ws cs r =
      let s = begin total warmup payloads false now cs r in
      responses total warmup payloads ws s.0 s.1

  abbrev pub measuring :
      ℕ → ℕ → List (ℕ × ℕ) → List SessionContext → Run → List SessionContext × Run
  measuring now later ws cs r =
      let s = warmed now ws cs r in begin total warmup payloads true later s.0 s.1

  warmed-IsFresh :
      (now : ℕ) (ws : List (ℕ × ℕ)) (cs : List SessionContext) (r : Run)
      → IsFresh false cs r
      → IsFresh true cs r
      → 0 < warmup
      → warmup + length cs < 2 ^ 64
      → AreExpected total warmup payloads ws
          (begin total warmup payloads false now cs r).0
          (begin total warmup payloads false now cs r).1
      → waiting (warmed now ws cs r).0 ≡ 0
      → IsFresh true (warmed now ws cs r).0 (warmed now ws cs r).1
  unfolding begin_warmup
  warmed-IsFresh now ws cs r f g l b e w =
      let s = begin total warmup payloads false now cs r in
      let (i, n) = begin-InPhase total warmup payloads false now cs r f l b in
      let same : length s.0 ≡ length cs = n in
      let (j, k) =
        responses-InPhase total warmup payloads false r.done_notices ws s.0 s.1
          (omega (arith, same)) i e in
      let same' : length (warmed now ws cs r).0 ≡ length s.0 = k in
      let kept =
        IsKept-trans r s.1 (warmed now ws cs r).1 (send_all-IsKept now cs r)
          (responses-IsKept ws s.0 s.1 i.phase) in
      record {
        phase = λ q. cc;
        active = j.active;
        idle = w;
        some_session = omega (arith, same, same', f.some_session);
        stop = j.stop;
        next = kept.next ∙ g.next;
        completed = kept.completed ∙ g.completed;
        unused = kept.sent ∙ g.unused;
      }

warmed-length :
    (total warmup : ℕ) (payloads : List ℕ) (now : ℕ) (ws : List (ℕ × ℕ)) (cs : List SessionContext)
    (r : Run)
    → IsFresh false cs r
    → 0 < warmup
    → warmup + length cs < 2 ^ 64
    → AreExpected total warmup payloads ws
        (begin total warmup payloads false now cs r).0
        (begin total warmup payloads false now cs r).1
    → length (warmed total warmup payloads now ws cs r).0 ≡ length cs
warmed-length total warmup payloads now ws cs r f l b e =
    let s = begin total warmup payloads false now cs r in
    let (i, n) = begin-InPhase total warmup payloads false now cs r f l b in
    let same : length s.0 ≡ length cs = n in
    let (j, k) =
      responses-InPhase total warmup payloads false r.done_notices ws s.0 s.1 (omega (arith, same))
        i e in
    k ∙ n

-- A run over one active session or more, none of which is lost, without a request to stop and with targets that
-- are not 0 and less than 2^64 minus the number of sessions: the warm-up is begun, responses come to sessions
-- that wait for one until none waits, and the measured phase is begun and gets responses in the same
-- way. Then the warm-up has reached its target; the tickets that were measured are the first ones,
-- each once; no more are answered than the target; and when no session waits any more, the target is
-- reached and the thread of the run was woken since the phase began.
pub run_reaches :
    (total warmup : ℕ) (payloads : List ℕ) (now later : ℕ) (cs : List SessionContext) (r : Run)
    (ws rs : List (ℕ × ℕ))
    → IsFresh false cs r
    → IsFresh true cs r
    → 0 < warmup
    → 0 < total
    → warmup + length cs < 2 ^ 64
    → total + length cs < 2 ^ 64
    → AreExpected total warmup payloads ws
        (begin total warmup payloads false now cs r).0
        (begin total warmup payloads false now cs r).1
    → waiting (warmed total warmup payloads now ws cs r).0 ≡ 0
    → AreExpected total warmup payloads rs
        (measuring total warmup payloads now later ws cs r).0
        (measuring total warmup payloads now later ws cs r).1
    → let w = warmed total warmup payloads now ws cs r in
      let s = measuring total warmup payloads now later ws cs r in
      let t = responses total warmup payloads rs s.0 s.1 in
      (w.1.completed_warmup ≡ warmup)
      × (tickets_of true t.1 ≡ below (waiting t.0 + t.1.completed_measured))
      × (waiting t.0 + t.1.completed_measured ≤ total)
      × (waiting t.0 ≡ 0 → (t.1.completed_measured ≡ total) × (w.1.done_notices < t.1.done_notices))
run_reaches total warmup payloads now later cs r ws rs f g l k b d e w x =
    let v = warmed total warmup payloads now ws cs r in
    let warm = phase_reaches total warmup payloads false now cs r ws f l b e in
    let same : length v.0 ≡ length cs = warmed-length total warmup payloads now ws cs r f l b e in
    let fresh = warmed-IsFresh total warmup payloads now ws cs r f g l b e w in
    let (tickets, bound, done) =
      phase_reaches total warmup payloads true later v.0 v.1 rs fresh k (omega (arith, same)) x in
    ((warm.2 w).0, tickets, bound, done)
