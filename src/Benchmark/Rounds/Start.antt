-- ===== src/Benchmark/Rounds/Start.antt =====
-- The start of a phase of a run over several sessions, in FastPortBenchmark/LatencyBenchmarkRunner.cpp, and
-- what a phase reaches.
use fast_port.Prelude.{
  ℕ, suc, ◌+◌, ◌^◌, ◌≤◌, ◌<◌, ◌≡◌, refl, sym, ap, ◌∙◌, Bool, true, false, List, [], ◌∷◌, arith,
  length, lt→ltb, le→ltb, ltb_cases,
}
use fast_port.Benchmark.Rounds.{
  SessionContext, Run, send_next, send_all, begin_warmup, begin_measured,
}
use fast_port.Benchmark.Rounds.Effects.{
  next_of, completed_of, tickets_of, limit_of, send_next-IsSend,
}
use fast_port.Benchmark.Rounds.Progress.{AreActive, AreBusy, waiting, below, InPhase}

-- What the loop over the sessions changes.
record AreSent (m : Bool) (limit : ℕ) (cs : List SessionContext) (r : Run)
    (cs' : List SessionContext) (r' : Run) : Type 0 where
  next : next_of m r' ≡ next_of m r + length cs
  completed : completed_of m r' ≡ completed_of m r
  stop : r'.stop_requested ≡ false
  phase : r'.running_measured ≡ r.running_measured
  notices : r'.done_notices ≡ r.done_notices
  active : AreActive cs'
  same : length cs' ≡ length cs
  few : waiting cs' ≤ waiting cs + length cs
  all_sent : next_of m r + length cs ≤ limit → waiting cs' ≡ waiting cs + length cs
  some_sent :
      next_of m r ≤ limit
      → limit ≤ next_of m r + length cs
      → waiting cs' + next_of m r ≡ waiting cs + limit
  none_sent : limit ≤ next_of m r → waiting cs' ≡ waiting cs
  busy : next_of m r + length cs ≤ limit → AreBusy cs'
  tickets :
      next_of m r + length cs ≤ limit
      → tickets_of m r ≡ below (next_of m r)
      → tickets_of m r' ≡ below (next_of m r')
  last_tickets :
      next_of m r ≤ limit
      → limit ≤ next_of m r + length cs
      → tickets_of m r ≡ below (next_of m r)
      → tickets_of m r' ≡ below limit
  no_tickets : limit ≤ next_of m r → tickets_of m r' ≡ tickets_of m r

module _ (total warmup : ℕ) (payloads : List ℕ) where
  send_all-AreSent :
      (m : Bool) (now : ℕ) (cs : List SessionContext) (r : Run)
      → AreActive cs
      → r.stop_requested ≡ false
      → next_of m r + length cs < 2 ^ 64
      → let s = send_all total warmup payloads m now cs r in
        AreSent m (limit_of m total warmup) cs r s.0 s.1
  unfolding send_all
  send_all-AreSent m now [] r a h b = record {
    next = omega arith;
    completed = refl;
    stop = h;
    phase = refl;
    notices = refl;
    active = tt;
    same = refl;
    few = omega arith;
    all_sent = λ l. omega arith;
    some_sent = λ l l'. omega arith;
    none_sent = λ l. refl;
    busy = λ l. tt;
    tickets = λ l t. t;
    last_tickets =
        λ l l' t. t ∙ ap below (let e : next_of m r ≡ limit_of m total warmup = omega arith in e);
    no_tickets = λ l. refl;
  }
  send_all-AreSent m now (c ∷ cs) r a h b =
      let limit = limit_of m total warmup in
      let one = send_next total warmup payloads m now c r in
      let e = send_next-IsSend total warmup payloads m now c r a.0 h (omega arith) in
      let rest = send_all total warmup payloads m now cs one.2 in
      let f = send_all-AreSent m now cs one.2 a.1 e.stop (omega (arith, e.next)) in
      let c_waits : next_of m r < limit → one.1.awaiting ≡ c.awaiting + 1 =
        λ l. e.awaits ∙ rw (lt→ltb _ _ l) refl in
      let c_same : limit ≤ next_of m r → one.1.awaiting ≡ c.awaiting =
        λ l. e.awaits ∙ rw (le→ltb _ _ l) refl in
      let used : next_of m r < limit
          → tickets_of m r ≡ below (next_of m r)
          → tickets_of m one.2 ≡ below (next_of m one.2) =
        λ l t.
          e.tickets
          ∙ (rw (lt→ltb _ _ l) (ap (◌∷◌ (next_of m r)) t)
              ∙ ap below
                  (let n : suc (next_of m r) ≡ next_of m one.2 = omega (arith, e.next) in n)) in
      let unused : limit ≤ next_of m r → tickets_of m one.2 ≡ tickets_of m r =
        λ l. e.tickets ∙ rw (le→ltb _ _ l) refl in
      record {
        next = omega (arith, f.next, e.next);
        completed = f.completed ∙ e.completed;
        stop = f.stop;
        phase = f.phase ∙ e.phase;
        notices = f.notices ∙ e.notices;
        active = (e.active, f.active);
        same = ap suc f.same;
        few =
            ltb_cases
              (λ (x : ℕ).
                one.1.awaiting + waiting (send_all total warmup payloads m now cs one.2).0
                ≤ c.awaiting + waiting cs + suc (length cs))
              (next_of m r) limit {x = 0} {y = 0} (λ l. omega (arith, c_waits l, f.few))
              (λ l. omega (arith, c_same l, f.few));
        all_sent = λ l. omega (arith, c_waits (omega arith), f.all_sent (omega (arith, e.next)));
        some_sent = λ l l'.
            ltb_cases
              (λ (x : ℕ).
                one.1.awaiting + waiting rest.0 + next_of m r ≡ c.awaiting + waiting cs + limit)
              (next_of m r) limit {x = 0} {y = 0}
              (λ n. omega (
                arith,
                c_waits n,
                e.next,
                f.some_sent (omega (arith, e.next)) (omega (arith, e.next)),
              ))
              (λ n. omega (arith, c_same n, f.none_sent (omega (arith, e.next))));
        none_sent = λ l. omega (arith, c_same l, f.none_sent (omega (arith, e.next)));
        busy = λ l. (omega (arith, c_waits (omega arith)), f.busy (omega (arith, e.next)));
        tickets = λ l t. f.tickets (omega (arith, e.next)) (used (omega arith) t);
        last_tickets = λ l l' t.
            ltb_cases (λ (x : ℕ). tickets_of m rest.1 ≡ below limit) (next_of m r) limit {x = 0}
              {y = 0}
              (λ n. f.last_tickets (omega (arith, e.next)) (omega (arith, e.next)) (used n t))
              (λ n.
                f.no_tickets (omega (arith, e.next))
                ∙ (unused n
                    ∙ (t ∙ ap below (let at_end : next_of m r ≡ limit = omega arith in at_end))));
        no_tickets = λ l. f.no_tickets (omega (arith, e.next)) ∙ unused l;
      }

  -- The start of a phase.
  abbrev pub begin : Bool → ℕ → List SessionContext → Run → List SessionContext × Run
  begin true now cs r = begin_measured total warmup payloads now cs r
  begin false now cs r = begin_warmup total warmup payloads now cs r

  -- Behind a start from counters at 0, with sessions that are active and wait for nothing.
  pub sent-InPhase :
      (m : Bool) (now : ℕ) (cs : List SessionContext) (r : Run)
      → r.running_measured ≡ m
      → AreActive cs
      → waiting cs ≡ 0
      → r.stop_requested ≡ false
      → next_of m r ≡ 0
      → completed_of m r ≡ 0
      → tickets_of m r ≡ []
      → 0 < limit_of m total warmup
      → limit_of m total warmup + length cs < 2 ^ 64
      → let s = send_all total warmup payloads m now cs r in
        InPhase m (limit_of m total warmup) r.done_notices s.0 s.1 × (length s.0 ≡ length cs)
  sent-InPhase m now cs r p a w h n c t l b =
      let limit = limit_of m total warmup in
      let s = send_all total warmup payloads m now cs r in
      let e = send_all-AreSent m now cs r a h (omega arith) in
      let fresh : tickets_of m r ≡ below (next_of m r) = t ∙ ap below (sym n) in
      (
        record {
          stop = e.stop;
          phase = e.phase ∙ p;
          active = e.active;
          early = λ k. omega (arith, e.next, e.completed, e.all_sent (omega (arith, e.next)));
          late = λ k.
              omega (arith, e.next, e.completed, e.some_sent (omega arith) (omega (arith, e.next)));
          few = omega (arith, e.few, e.same);
          spread =
              ltb_cases (λ (x : ℕ). next_of m s.1 + waiting s.0 ≤ limit + length s.0)
                (next_of m s.1) limit {x = 0} {y = 0}
                (λ k. omega (arith, e.next, e.same, e.all_sent (omega (arith, e.next))))
                (λ k.
                  omega (arith, e.next, e.same, e.some_sent (omega arith) (omega (arith, e.next))));
          busy = λ k. e.busy (omega (arith, e.next));
          tickets =
              ltb_cases (λ (x : ℕ). tickets_of m s.1 ≡ below (waiting s.0 + completed_of m s.1))
                (next_of m s.1) limit {x = 0} {y = 0}
                (λ k.
                  let all : next_of m s.1 ≡ waiting s.0 + completed_of m s.1 =
                    omega (arith, e.next, e.completed, e.all_sent (omega (arith, e.next))) in
                  e.tickets (omega (arith, e.next)) fresh ∙ ap below all)
                (λ k.
                  let all : limit ≡ waiting s.0 + completed_of m s.1 = omega (
                    arith,
                    e.next,
                    e.completed,
                    e.some_sent (omega arith) (omega (arith, e.next)),
                  ) in
                  e.last_tickets (omega arith) (omega (arith, e.next)) fresh ∙ ap below all);
          before = omega (arith, e.notices);
          woken = λ k. absurd (omega (arith, e.completed));
        },
        e.same,
      )
