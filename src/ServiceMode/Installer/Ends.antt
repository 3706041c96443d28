-- ===== src/ServiceMode/Installer/Ends.antt =====
-- Installer::Stop of LibCommons/ServiceMode.cpp returns, and what its result says.
use fast_port.Prelude.{
  ℕ, zero, suc, ◌+◌, ◌^◌, ◌≤◌, ◌<◌, ◌≡◌, refl, sym, subst, Bool, true, false, ◌&&◌, Option, some,
  List, [], ◌∷◌, ◌++◌, arith, length, Bool_cases,
}
use fast_port.ServiceMode.Installer.{
  Queried, ScCall, opened, closed, queried, controlled_stop, slept, manager, service, ScAnswers,
  close_both, is_stopped, is_stop_pending,
}
use fast_port.ServiceMode.Installer.Stopping.{
  Wait, out_of_rounds, leaves, goes_on, timed_out, wait_time, await_pending, await_stopped, finish,
  or_held, send_stop, stop,
}
use fast_port.ServiceMode.Installer.Handles.{of_status, of_test}

module _ (scm : ScAnswers) (calls : List ScCall) where
  -- A wait has not run out of rounds, and what it goes on with stands in front of these calls.
  abbrev EndsIn : Wait → Type 0
  EndsIn out_of_rounds = ⊥
  EndsIn (leaves r c) = Unit
  EndsIn (goes_on s c) = (more : List ScCall) × (c ≡ more ++ calls)

  record HasEnded (w : Wait) : Type 0 where
    ended : EndsIn w

  module _ (bound : ℕ) (words : (c : List ScCall) → scm.ticks c < 2 ^ 64)
      (passes : (more : List ScCall)
        → bound ≤ length more
        → scm.ticks calls + 30000 < scm.ticks (more ++ calls)) where
    -- A wait that has not timed out has made fewer calls than the bound.
    within :
        (more : List ScCall)
        → timed_out scm (scm.ticks calls) (more ++ calls) ≡ false
        → length more < bound
    within more h = ground (arith, passes more, words (more ++ calls), words calls)

    await_stopped-HasEnded :
        (rounds : ℕ) (held : Queried) (more : List ScCall)
        → 0 < rounds
        → bound ≤ rounds + length more
        → HasEnded (await_stopped scm rounds (scm.ticks calls) held (more ++ calls))
    unfolding await_stopped
    await_stopped-HasEnded zero held more p b = absurd (omega arith)
    await_stopped-HasEnded (suc rounds) held more p b =
        let slept_more = slept held.wait_hint ∷ more in
        of_test HasEnded (is_stopped held.current_state) _ _ (λ _. record { ended = (more, refl) })
          λ _.
            of_status HasEnded (scm.status (slept_more ++ calls)) _ _ (λ _. record { ended = tt })
              λ s _.
                let more' = queried (some s) ∷ slept_more in
                of_test HasEnded (is_stopped s.current_state) _ _
                  (λ _. record { ended = (more', refl) })
                  λ _.
                    of_test HasEnded (timed_out scm (scm.ticks calls) (more' ++ calls)) _ _
                      (λ _. record { ended = tt })
                      (λ t.
                        let l = within more' t in
                        await_stopped-HasEnded rounds s more' (omega arith) (omega arith))

    -- A round that is not the first.
    await_pending-HasEnded :
        (rounds : ℕ) (more : List ScCall)
        → 0 < rounds
        → bound ≤ rounds + length more
        → HasEnded (await_pending scm rounds (scm.ticks calls) true (more ++ calls))
    unfolding await_pending
    await_pending-HasEnded zero more p b = absurd (omega arith)
    await_pending-HasEnded (suc rounds) more p b =
        of_status HasEnded (scm.status (more ++ calls)) _ _ (λ _. record { ended = tt })
          λ s _.
            let more' = slept (wait_time s.wait_hint) ∷ queried (some s) ∷ more in
            of_test HasEnded (is_stopped s.current_state) _ _ (λ _. record { ended = tt })
              λ _.
                of_test HasEnded (true && timed_out scm (scm.ticks calls) (more' ++ calls)) _ _
                  (λ _. record { ended = tt })
                  λ t.
                    of_test HasEnded (is_stop_pending s.current_state) _ _
                      (λ _.
                        let l = within more' t in
                        await_pending-HasEnded rounds more' (omega arith) (omega arith))
                      (λ _. record { ended = (more', refl) })

    first_pending-HasEnded :
        (rounds : ℕ) (more : List ScCall)
        → 1 < rounds
        → bound ≤ rounds + length more
        → HasEnded (await_pending scm rounds (scm.ticks calls) false (more ++ calls))
    unfolding await_pending
    first_pending-HasEnded zero more p b = absurd (omega arith)
    first_pending-HasEnded (suc rounds) more p b =
        of_status HasEnded (scm.status (more ++ calls)) _ _ (λ _. record { ended = tt })
          λ s _.
            let more' = queried (some s) ∷ more in
            of_test HasEnded (is_stopped s.current_state) _ _ (λ _. record { ended = tt })
              λ _.
                of_test HasEnded (is_stop_pending s.current_state) _ _
                  (λ _. await_pending-HasEnded rounds more' (omega arith) (omega arith))
                  (λ _. record { ended = (more', refl) })

    Returns : Option (Bool × List ScCall) → Type 0
    Returns o = (r : Bool) × (c : List ScCall) × (o ≡ some (r, c))

    finish-Returns : (w : Wait) → HasEnded w → Returns (finish w)
    unfolding Returns
    finish-Returns out_of_rounds e = absurd e.ended
    finish-Returns (leaves r c) e = (r, c, refl)
    finish-Returns (goes_on s c) e = (true, close_both c, refl)

    send_stop-Returns :
        (rounds : ℕ) (w : Wait)
        → 0 < rounds
        → bound ≤ rounds
        → HasEnded w
        → Returns (send_stop scm rounds (scm.ticks calls) w)
    unfolding send_stop
    send_stop-Returns rounds out_of_rounds p b e = absurd e.ended
    send_stop-Returns rounds (leaves r c) p b e = finish-Returns (leaves r c) e
    send_stop-Returns rounds (goes_on held c) p b e =
        subst (λ k. Returns (send_stop scm rounds (scm.ticks calls) (goes_on held k)))
          (sym e.ended.1) (sent e.ended.0)
      where
        sent :
            (more : List ScCall)
            → Returns (send_stop scm rounds (scm.ticks calls) (goes_on held (more ++ calls)))
        sent more =
            let done = (scm.control_stop (more ++ calls)).0 in
            let written = (scm.control_stop (more ++ calls)).1 in
            let more' = controlled_stop done written ∷ more in
            Bool_cases Returns done
              (λ _.
                finish-Returns _
                  (await_stopped-HasEnded rounds (or_held held written) more' p (omega arith)))
              (λ _.
                finish-Returns (leaves false (close_both (more' ++ calls))) (record { ended = tt }))

    stop-Returns : (rounds : ℕ) → 1 < rounds → bound ≤ rounds → Returns (stop scm rounds calls)
    unfolding stop
    stop-Returns rounds p b =
        Bool_cases Returns (scm.opens manager calls)
          (λ _.
            Bool_cases Returns (scm.opens service (opened manager ∷ calls))
              (λ _. send_stop-Returns rounds _ (omega arith) b (
                first_pending-HasEnded rounds (opened service ∷ opened manager ∷ []) p
                  (omega arith)))
              (λ _.
                finish-Returns (leaves false (closed manager ∷ opened manager ∷ calls))
                  (record { ended = tt })))
          (λ _. finish-Returns (leaves false calls) (record { ended = tt }))

-- Stop returns, whatever state the service is in and however long its stop is pending, where a number of
-- calls of the system takes more than 30 seconds of the tick count, which stays below 2^64: as many
-- rounds as that, and at least two, are enough for each of its waits.
pub stop-returns :
    (scm : ScAnswers) (calls : List ScCall) (bound rounds : ℕ)
    → ((c : List ScCall) → scm.ticks c < 2 ^ 64)
    → ((more : List ScCall)
        → bound ≤ length more
        → scm.ticks calls + 30000 < scm.ticks (more ++ calls))
    → 1 < rounds
    → bound ≤ rounds
    → (r : Bool) × (c : List ScCall) × (stop scm rounds calls ≡ some (r, c))
unfolding Returns
stop-returns scm calls bound rounds words passes p b =
    stop-Returns scm calls bound words passes rounds p b
