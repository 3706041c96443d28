-- ===== src/ServiceMode/Installer/Stopping.antt =====
-- Installer::Stop of LibCommons/ServiceMode.cpp: the wait for a stop that is pending, the stop code,
-- and the wait for the service to stop.
use fast_port.Prelude.{
  ℕ, zero, suc, ◌/◌, Bool, true, false, ◌&&◌, Option, none, some, List, ◌∷◌, if◌then◌else◌, ltb,
  sub64,
}
use fast_port.ServiceMode.Installer.{
  Queried, ScCall, opened, closed, queried, controlled_stop, slept, manager, service, ScAnswers,
  close_both, is_stopped, is_stop_pending,
}

-- How a wait leaves Stop: it returns, it goes on with a status, or its rounds run out.
pub data Wait : Type 0 where
  out_of_rounds : Wait
  leaves : Bool → List ScCall → Wait
  goes_on : Queried → List ScCall → Wait

-- A tenth of the hint, from one second to ten.
abbrev pub wait_time : ℕ → ℕ
wait_time hint =
    if ltb (hint / 10) 1000 then 1000 else if ltb 10000 (hint / 10) then 10000 else hint / 10

-- The calls behind the sleep of a round of the first wait, which its first round leaves out.
abbrev pub paused_for : Bool → Queried → List ScCall → List ScCall
paused_for true s calls = slept (wait_time s.wait_hint) ∷ calls
paused_for false s calls = calls

-- Behind the second wait.
abbrev pub finish : Wait → Option (Bool × List ScCall)
finish out_of_rounds = none
finish (leaves result calls) = some (result, calls)
finish (goes_on s calls) = some (true, close_both calls)

abbrev pub or_held : Queried → Option Queried → Queried
or_held held none = held
or_held held (some s) = s

module _ (scm : ScAnswers) where
  -- GetTickCount64() - dwStartTime > dwTimeout, with 30 seconds.
  abbrev pub timed_out : ℕ → List ScCall → Bool
  timed_out start calls = ltb 30000 (sub64 (scm.ticks calls) start)

  -- The first wait: `pending` is bPending.
  unfoldable pub await_pending : ℕ → ℕ → Bool → List ScCall → Wait
  await_pending zero start pending calls = out_of_rounds
  await_pending (suc rounds) start pending calls = elim (scm.status calls) [
    | none ↦ leaves false (close_both (queried none ∷ calls))
    | some s ↦
        let calls' = paused_for pending s (queried (some s) ∷ calls) in
        elim (is_stopped s.current_state) [
          | true ↦ leaves true (close_both calls')
          | false ↦ elim (pending && timed_out start calls') [
            | true ↦ leaves false (close_both calls')
            | false ↦ elim (is_stop_pending s.current_state) [
              | true ↦ await_pending rounds start true calls'
              | false ↦ goes_on s calls'
            ]
          ]
        ]
  ]

  -- The second wait, with the status that is held.
  unfoldable pub await_stopped : ℕ → ℕ → Queried → List ScCall → Wait
  await_stopped zero start held calls = out_of_rounds
  await_stopped (suc rounds) start held calls = elim (is_stopped held.current_state) [
    | true ↦ goes_on held calls
    | false ↦
        let slept_calls = slept held.wait_hint ∷ calls in
        elim (scm.status slept_calls) [
          | none ↦ leaves false (close_both (queried none ∷ slept_calls))
          | some s ↦
              let calls' = queried (some s) ∷ slept_calls in
              elim (is_stopped s.current_state) [
                | true ↦ goes_on s calls'
                | false ↦ elim (timed_out start calls') [
                  | true ↦ leaves false (close_both calls')
                  | false ↦ await_stopped rounds start s calls'
                ]
              ]
        ]
  ]

  -- The stop code: ControlService writes the status over the one that is held.
  unfoldable pub send_stop : ℕ → ℕ → Wait → Option (Bool × List ScCall)
  send_stop rounds start out_of_rounds = none
  send_stop rounds start (leaves result calls) = some (result, calls)
  send_stop rounds start (goes_on held calls) =
      let (done, written) = scm.control_stop calls in
      let calls' = controlled_stop done written ∷ calls in
      if done
      then finish (await_stopped rounds start (or_held held written) calls')
      else some (false, close_both calls')

  -- Installer::Stop, with a number of rounds for each wait. None when they run out.
  unfoldable pub stop : ℕ → List ScCall → Option (Bool × List ScCall)
  stop rounds calls =
      let start = scm.ticks calls in
      if scm.opens manager calls
      then (let calls' = opened manager ∷ calls in
          if scm.opens service calls'
          then send_stop rounds start (await_pending rounds start false (opened service ∷ calls'))
          else some (false, closed manager ∷ calls'))
      else some (false, calls)
