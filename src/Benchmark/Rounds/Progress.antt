-- ===== src/Benchmark/Rounds/Progress.antt =====
-- A run over several sessions in FastPortBenchmark/LatencyBenchmarkRunner.cpp reaches its targets: no ticket
-- is lost or used twice, and the last response wakes the runner.
use fast_port.Prelude.{
  ℕ, zero, suc, ◌+◌, ◌^◌, ◌≤◌, ◌<◌, ◌≡◌, refl, ap, ◌∙◌, Bool, true, false, List, [], ◌∷◌, arith,
  length, All, lt→ltb, le→ltb, ltb_cases,
}
use fast_port.Benchmark.Rounds.{SessionContext, Run, respond, responses}
use fast_port.Benchmark.Rounds.Effects.{
  next_of, completed_of, tickets_of, limit_of, on_packet-IsResponse,
}

abbrev pub AreActive : List SessionContext → Type 0
AreActive cs = All (λ (c : SessionContext). c.active ≡ true) cs

-- Every session waits for a response.
abbrev pub AreBusy : List SessionContext → Type 0
AreBusy cs = All (λ (c : SessionContext). 0 < c.awaiting) cs

abbrev pub waiting : List SessionContext → ℕ
waiting [] = 0
waiting (c ∷ cs) = c.awaiting + waiting cs

-- The numbers below one, downwards.
abbrev pub below : ℕ → List ℕ
below zero = []
below (suc n) = n ∷ below n

-- The session at a place is there and waits for a response.
abbrev pub WaitsAt : ℕ → List SessionContext → Type 0
WaitsAt k [] = ⊥
WaitsAt zero (c ∷ cs) = 0 < c.awaiting
WaitsAt (suc k) (c ∷ cs) = WaitsAt k cs

-- What stands between two events of a phase, while nothing stops or is lost: each ticket below the limit
-- that was taken was used once, in order, and is answered or awaited; while tickets are left every
-- session waits for a response; and the runner was woken when all are answered.
pub record InPhase (m : Bool) (limit notices : ℕ) (cs : List SessionContext) (r : Run)
    : Type 0 where
  pub stop : r.stop_requested ≡ false
  pub phase : r.running_measured ≡ m
  pub active : AreActive cs
  pub early : next_of m r ≤ limit → waiting cs + completed_of m r ≡ next_of m r
  pub late : limit ≤ next_of m r → waiting cs + completed_of m r ≡ limit
  pub few : waiting cs ≤ length cs
  pub spread : next_of m r + waiting cs ≤ limit + length cs
  pub busy : next_of m r < limit → AreBusy cs
  pub tickets : tickets_of m r ≡ below (waiting cs + completed_of m r)
  pub before : notices ≤ r.done_notices
  pub woken : limit ≤ completed_of m r → notices < r.done_notices

-- What a response at a place changes in the list and in what the sessions share.
record IsAnswer (m : Bool) (limit : ℕ) (cs : List SessionContext) (r : Run)
    (cs' : List SessionContext) (r' : Run) : Type 0 where
  next : next_of m r' ≡ next_of m r + 1
  completed : completed_of m r' ≡ completed_of m r + 1
  stop : r'.stop_requested ≡ false
  phase : r'.running_measured ≡ m
  active : AreActive cs'
  some_waits : 0 < waiting cs
  sends : next_of m r < limit → waiting cs' ≡ waiting cs
  ends : limit ≤ next_of m r → waiting cs' + 1 ≡ waiting cs
  same : length cs' ≡ length cs
  busy : next_of m r < limit → AreBusy cs → AreBusy cs'
  used : next_of m r < limit → tickets_of m r' ≡ next_of m r ∷ tickets_of m r
  unused : limit ≤ next_of m r → tickets_of m r' ≡ tickets_of m r
  notices :
      limit ≤ next_of m r → limit ≤ completed_of m r + 1 → r'.done_notices ≡ r.done_notices + 1
  kept : r.done_notices ≤ r'.done_notices

WaitsAt-waiting : (k : ℕ) (cs : List SessionContext) → WaitsAt k cs → 0 < waiting cs
WaitsAt-waiting k [] w = absurd w
WaitsAt-waiting zero (c ∷ cs) w = omega (arith, w)
WaitsAt-waiting (suc k) (c ∷ cs) w = omega (arith, WaitsAt-waiting k cs w)

module _ (total warmup : ℕ) (payloads : List ℕ) where
  respond-IsAnswer :
      (m : Bool) (now k : ℕ) (cs : List SessionContext) (r : Run)
      → AreActive cs
      → r.stop_requested ≡ false
      → r.running_measured ≡ m
      → WaitsAt k cs
      → next_of m r + 1 < 2 ^ 64
      → completed_of m r + 1 < 2 ^ 64
      → let s = respond total warmup payloads now k cs r in
        IsAnswer m (limit_of m total warmup) cs r s.0 s.1
  unfolding respond
  respond-IsAnswer m now k [] r a h p w b d = absurd w
  respond-IsAnswer m now zero (c ∷ cs) r a h p w b d =
      let e = on_packet-IsResponse total warmup payloads m now c r a.0 h p w b d in
      record {
        next = e.next;
        completed = e.completed;
        stop = e.stop;
        phase = e.phase;
        active = (e.active, a.1);
        some_waits = omega (arith, w);
        sends = λ l. ground (arith, e.awaits, w, l);
        ends = λ l. ground (arith, e.awaits, w, l);
        same = refl;
        busy = λ l busy. (ground (arith, e.awaits, w, l), busy.1);
        used = λ l. e.tickets ∙ rw (lt→ltb _ _ l) refl;
        unused = λ l. e.tickets ∙ rw (le→ltb _ _ l) refl;
        notices = e.notices;
        kept = e.kept;
      }
  respond-IsAnswer m now (suc k) (c ∷ cs) r a h p w b d =
      let e = respond-IsAnswer m now k cs r a.1 h p w b d in
      record {
        next = e.next;
        completed = e.completed;
        stop = e.stop;
        phase = e.phase;
        active = (a.0, e.active);
        some_waits = omega (arith, e.some_waits);
        sends = λ l. omega (arith, e.sends l);
        ends = λ l. omega (arith, e.ends l);
        same = ap suc e.same;
        busy = λ l busy. (busy.0, e.busy l busy.1);
        used = e.used;
        unused = e.unused;
        notices = e.notices;
        kept = e.kept;
      }

  -- A response keeps what stands between events.
  respond-InPhase :
      (m : Bool) (notices now k : ℕ) (cs : List SessionContext) (r : Run)
      → limit_of m total warmup + length cs < 2 ^ 64
      → InPhase m (limit_of m total warmup) notices cs r
      → WaitsAt k cs
      → let s = respond total warmup payloads now k cs r in
        InPhase m (limit_of m total warmup) notices s.0 s.1 × (length s.0 ≡ length cs)
  respond-InPhase m notices now k cs r b i w =
      let limit = limit_of m total warmup in
      let s = respond total warmup payloads now k cs r in
      let some : 0 < waiting cs = WaitsAt-waiting k cs w in
      let bound : next_of m r + 1 < 2 ^ 64 = omega (arith, i.spread) in
      let below_limit : completed_of m r + 1 ≤ limit =
        ltb_cases (λ (x : ℕ). completed_of m r + 1 ≤ limit) (next_of m r) limit {x = 0} {y = 0}
          (λ l. omega (arith, i.early)) (λ l. omega (arith, i.late)) in
      let e = respond-IsAnswer m now k cs r i.active i.stop i.phase w bound (omega arith) in
      (
        record {
          stop = e.stop;
          phase = e.phase;
          active = e.active;
          early = λ l. omega (arith, e.next, e.completed, e.sends (omega (arith, e.next)), i.early);
          late = λ l.
              ltb_cases (λ (x : ℕ). waiting s.0 + completed_of m s.1 ≡ limit) (next_of m r) limit
                {x = 0} {y = 0} (λ n. omega (arith, e.next, e.completed, e.sends n, i.early))
                (λ n. omega (arith, e.completed, e.ends n, i.late));
          spread =
              ltb_cases (λ (x : ℕ). next_of m s.1 + waiting s.0 ≤ limit + length s.0) (next_of m r)
                limit {x = 0} {y = 0} (λ n. omega (arith, e.next, e.sends n, e.same, i.few))
                (λ n. omega (arith, e.next, e.ends n, e.same, i.spread));
          few =
              ltb_cases (λ (x : ℕ). waiting s.0 ≤ length s.0) (next_of m r) limit {x = 0} {y = 0}
                (λ n. omega (arith, e.sends n, e.same, i.few))
                (λ n. omega (arith, e.ends n, e.same, i.few));
          busy = λ l. e.busy (omega (arith, e.next)) (i.busy (omega (arith, e.next)));
          tickets =
              ltb_cases (λ (x : ℕ). tickets_of m s.1 ≡ below (waiting s.0 + completed_of m s.1))
                (next_of m r) limit {x = 0} {y = 0}
                (λ n.
                  let before : tickets_of m r ≡ below (next_of m r) =
                    i.tickets ∙ ap below (i.early (omega arith)) in
                  let total_sent : suc (next_of m r) ≡ waiting s.0 + completed_of m s.1 =
                    omega (arith, e.completed, e.sends n, i.early) in
                  e.used n ∙ (ap (◌∷◌ (next_of m r)) before ∙ ap below total_sent))
                (λ n.
                  let total_sent : waiting cs + completed_of m r
                      ≡ waiting s.0 + completed_of m s.1 =
                    omega (arith, e.completed, e.ends n) in
                  e.unused n ∙ (i.tickets ∙ ap below total_sent));
          before = omega (arith, i.before, e.kept);
          woken = λ l.
              ltb_cases (λ (x : ℕ). notices < s.1.done_notices) (next_of m r) limit {x = 0} {y = 0}
                (λ n. absurd (omega (arith, e.completed, i.early)))
                (λ n. omega (arith, i.before, e.notices n (omega (arith, e.completed))));
        },
        e.same,
      )

  -- Each of the responses comes to a session that waits for one when it comes.
  abbrev pub AreExpected : List (ℕ × ℕ) → List SessionContext → Run → Type 0
  AreExpected [] cs r = Unit
  AreExpected ((now, k) ∷ more) cs r =
      WaitsAt k cs
      × AreExpected more (respond total warmup payloads now k cs r).0
          (respond total warmup payloads now k cs r).1

  pub responses-InPhase :
      (m : Bool) (notices : ℕ) (rs : List (ℕ × ℕ)) (cs : List SessionContext) (r : Run)
      → limit_of m total warmup + length cs < 2 ^ 64
      → InPhase m (limit_of m total warmup) notices cs r
      → AreExpected rs cs r
      → let s = responses total warmup payloads rs cs r in
        InPhase m (limit_of m total warmup) notices s.0 s.1 × (length s.0 ≡ length cs)
  unfolding responses
  responses-InPhase m notices [] cs r b i w = (i, refl)
  responses-InPhase m notices ((now, k) ∷ rs) cs r b i w =
      let e = respond-InPhase m notices now k cs r b i w.0 in
      let same : length (respond total warmup payloads now k cs r).0 ≡ length cs = e.1 in
      let (i', l) = responses-InPhase m notices rs _ _ (omega (arith, same)) e.0 w.1 in
      (i', l ∙ same)
