-- ===== src/Benchmark/Rounds.antt =====
-- The rounds of RunMultiSessionBenchmark of FastPortBenchmark/LatencyBenchmarkRunner.cpp: tickets, the
-- requests that the sessions send, and the handlers of their responses and of their ends. A handler runs
-- whole; clocks are arguments.
pub mod Effects
pub mod Progress
pub mod Start
pub mod Reaches
pub mod Whole
use fast_port.Prelude.{
  ℕ, zero, suc, ◌+◌, ◌-◌, ◌*◌, ◌%◌, ◌^◌, Bool, true, false, not, ◌&&◌, ◌||◌, List, [], ◌∷◌, length,
  get_or, leb, ◌==◌, if◌then◌else◌, add32, add64, sub64,
}

-- SessionContext. `awaiting` counts the requests that it sent and that were not answered; the session
-- itself is there once it is connected.
pub record SessionContext : Type 0 where
  pub active : Bool
  pub sequence : ℕ
  pub send_time_ns : ℕ
  pub payload_index : ℕ
  pub session_index : ℕ
  pub awaiting : ℕ

pub record Request : Type 0 where
  pub request_id : ℕ
  pub client_timestamp_ns : ℕ
  pub sequence : ℕ
  pub payload_size : ℕ

-- The variables that the handlers share, with what was sent and reported, newest first. `done_notices`
-- counts the wake-ups of the thread that runs the benchmark.
pub record Run : Type 0 where
  pub stop_requested : Bool
  pub abort_requested : Bool
  pub completed_state : Bool
  pub disconnected_count : ℕ
  pub next_warmup : ℕ
  pub completed_warmup : ℕ
  pub next_measured : ℕ
  pub completed_measured : ℕ
  pub running_measured : Bool
  pub samples : List (ℕ × ℕ)
  pub warmup_sent : List Request
  pub measured_sent : List Request
  pub progress : List ℕ
  pub done_notices : ℕ

-- PACKET_ID_BENCHMARK_RESPONSE.
abbrev pub benchmark_response_id : ℕ
benchmark_response_id = 4098

-- The two targets, and the sizes of the payloads of the pool.
module _ (total_target warmup_target : ℕ) (payloads : List ℕ) where
  abbrev pub payload_at : ℕ → ℕ → ℕ
  payload_at ticket session_index = add64 ticket (session_index * 131 % 2 ^ 64) % length payloads

  -- The request of a ticket, and the context behind it.
  abbrev pub request_of : ℕ → ℕ → SessionContext → Request
  request_of now ticket c = record {
    request_id = ticket;
    client_timestamp_ns = now;
    sequence = c.sequence;
    payload_size = get_or payloads (payload_at ticket c.session_index) 0;
  }

  abbrev pub sent_by : ℕ → ℕ → SessionContext → SessionContext
  sent_by now ticket c = record c {
    sequence = add32 c.sequence 1;
    send_time_ns = now;
    payload_index = payload_at ticket c.session_index;
    awaiting = c.awaiting + 1;
  }

  -- sendNext(ctx, false).
  abbrev pub send_warmup : ℕ → SessionContext → Run → Bool × SessionContext × Run
  send_warmup now c r =
      let r' = record r { next_warmup = add64 r.next_warmup 1 } in
      if leb warmup_target r.next_warmup then (false, c, r') else (
        true,
        sent_by now r.next_warmup c,
        record r' { warmup_sent = request_of now r.next_warmup c ∷ r.warmup_sent },
      )

  -- sendNext(ctx, true).
  abbrev pub send_measured : ℕ → SessionContext → Run → Bool × SessionContext × Run
  send_measured now c r =
      let r' = record r { next_measured = add64 r.next_measured 1 } in
      if leb total_target r.next_measured then (false, c, r') else (
        true,
        sent_by now r.next_measured c,
        record r' { measured_sent = request_of now r.next_measured c ∷ r.measured_sent },
      )

  unfoldable pub send_next : Bool → ℕ → SessionContext → Run → Bool × SessionContext × Run
  send_next measured now c r =
      if not c.active || r.stop_requested
      then (false, c, r)
      else if measured
      then send_measured now c r
      else send_warmup now c r

  -- Behind sendNext: the runner is woken when nothing was sent and the target is reached.
  abbrev pub then_notify : Bool → Bool × SessionContext × Run → SessionContext × Run
  then_notify reached (sent, c, r) =
      (c, if not sent && reached then record r { done_notices = r.done_notices + 1 } else r)

  -- The response to a request of the warm-up, and to one that is measured.
  abbrev pub on_warmup_response : ℕ → SessionContext → Run → SessionContext × Run
  on_warmup_response now c r =
      let done = add64 r.completed_warmup 1 in
      then_notify (leb warmup_target done)
        (send_next false now c (record r { completed_warmup = done }))

  abbrev pub on_measured_response : ℕ → SessionContext → Run → SessionContext × Run
  on_measured_response now c r =
      let done = add64 r.completed_measured 1 in
      let sample : ℕ × ℕ = (sub64 now c.send_time_ns, get_or payloads c.payload_index 0) in
      let r' = record r {
        samples = sample ∷ r.samples;
        completed_measured = done;
        progress =
            if (done % 1000 == 0) || (done == total_target) then done ∷ r.progress else r.progress;
      } in
      then_notify (leb total_target done) (send_next true now c r')

  -- A response that the session takes off its requests.
  abbrev pub answered : SessionContext → SessionContext
  answered c = record c { awaiting = c.awaiting - 1 }

  -- The packet handler of a session: the packet's id, and whether it parses.
  unfoldable pub on_packet : ℕ → ℕ → Bool → SessionContext → Run → SessionContext × Run
  on_packet now packet_id parsed c r =
      if packet_id == benchmark_response_id
      then (if parsed
          then (if r.running_measured
              then on_measured_response now (answered c) r
              else on_warmup_response now (answered c) r)
          else (c, r))
      else (c, r)

  -- The disconnect handler.
  unfoldable pub on_disconnect : SessionContext → Run → SessionContext × Run
  on_disconnect c r = (
    record c { active = false },
    if not r.completed_state && not r.stop_requested
        then record r {
          abort_requested = true;
          disconnected_count = add64 r.disconnected_count 1;
          done_notices = r.done_notices + 1;
        }
        else r,
  )

  -- The loop over the contexts that starts a phase.
  unfoldable pub send_all : Bool → ℕ → List SessionContext → Run → List SessionContext × Run
  send_all measured now [] r = ([], r)
  send_all measured now (c ∷ cs) r =
      let (_, c', r') = send_next measured now c r in
      let (cs', r'') = send_all measured now cs r' in (c' ∷ cs', r'')

  unfoldable pub begin_warmup : ℕ → List SessionContext → Run → List SessionContext × Run
  begin_warmup now cs r = send_all false now cs r

  unfoldable pub begin_measured : ℕ → List SessionContext → Run → List SessionContext × Run
  begin_measured now cs r = send_all true now cs (record r { running_measured = true })

  -- A response to the session at a place of the list.
  unfoldable pub respond : ℕ → ℕ → List SessionContext → Run → List SessionContext × Run
  respond now k [] r = ([], r)
  respond now zero (c ∷ cs) r =
      let (c', r') = on_packet now benchmark_response_id true c r in (c' ∷ cs, r')
  respond now (suc k) (c ∷ cs) r = let (cs', r') = respond now k cs r in (c ∷ cs', r')

  -- Responses in their order: when, and to which session.
  unfoldable pub responses : List (ℕ × ℕ) → List SessionContext → Run → List SessionContext × Run
  responses [] cs r = (cs, r)
  responses ((now, k) ∷ more) cs r = let (cs', r') = respond now k cs r in responses more cs' r'
