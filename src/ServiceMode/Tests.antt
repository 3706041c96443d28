-- ===== src/ServiceMode/Tests.antt =====
-- A service and its installer on concrete answers of the system.
use fast_port.Prelude.{
  ℕ, ◌+◌, ◌*◌, ◌≤◌, ◌<◌, ◌≡◌, ◌++◌, refl, Bool, true, false, Option, some, List, [], ◌∷◌, arith,
  length, ltb, if◌then◌else◌, length-append,
}
use fast_port.ServiceMode.Status.{
  ServiceState, stopped, stop_pending, running, Callback, on_stopped, Outcome, returns, throws_code,
  Event, ServiceMode, Surroundings, make,
}
use fast_port.ServiceMode.Controls.{
  Control, control_stop, control_pause, control_other, start, handle_all,
}
use fast_port.ServiceMode.Controls.Settled.{IsSettled, controls_settle}
use fast_port.ServiceMode.Controls.CheckPoints.{Numbered, check_points_rise}
use fast_port.ServiceMode.Installer.{
  Queried, ScCall, opened, closed, controlled_stop, manager, service, slept, queried, ScAnswers,
  install,
}
use fast_port.ServiceMode.Installer.Stopping.{stop, await_pending, await_stopped, send_stop}
use fast_port.ServiceMode.Installer.Handles.{IsBalanced}
use fast_port.ServiceMode.Installer.Handles.Stopping.{install_stop-close}
use fast_port.ServiceMode.Installer.Ends.{stop-returns}
use fast_port.ServiceMode.Installer.Result.{SawStopped, stop-SawStopped}

-- A subclass whose OnStopped throws while fewer than eight events have happened.
abbrev outcome : Callback → List Event → Outcome
outcome on_stopped es = if ltb (length es) 8 then throws_code 5 else returns
outcome _ es = returns

abbrev world : Surroundings
world = record { opens_source = λ _. true; runs = outcome }

abbrev fresh : ServiceMode
fresh = make true true false

-- The first stop fails, the second succeeds.
abbrev controls : List Control
controls = control_stop ∷ control_other 200 ∷ control_pause ∷ control_stop ∷ []

controls_settle_example : IsSettled (handle_all world controls (start world fresh))
controls_settle_example = controls_settle world fresh controls

check_points_rise_example :
    let m = handle_all world controls (start world (make true true false)) in
    Numbered m.next_check_point m.events
check_points_rise_example = check_points_rise world true true false controls (omega arith)

-- A service that is seen running, then pending, then stopped, each second or so.
abbrev status : List ScCall → Option Queried
status calls =
    if ltb (length calls) 4
    then some (record { current_state = running; wait_hint = 0 })
    else if ltb (length calls) 6
    then some (record { current_state = stop_pending; wait_hint = 500 })
    else some (record { current_state = stopped; wait_hint = 0 })

abbrev scm : ScAnswers
scm = record {
  opens = λ _ _. true;
  creates_service = λ _. false;
  status = status;
  control_stop = λ calls. (true, status calls);
  deletes = λ _. true;
  ticks = λ calls. if ltb (length calls) 100 then 1000 * length calls else 100000;
}

passes : (more : List ScCall) → 31 ≤ length more → scm.ticks [] + 30000 < scm.ticks (more ++ [])
passes more h = ground (arith, length-append more [])

stop-returns_example : (r : Bool) × (c : List ScCall) × (stop scm 31 [] ≡ some (r, c))
stop-returns_example =
    stop-returns scm [] 31 31 (λ c. ground arith) passes (omega arith) (omega arith)

install_stop-close_example :
    IsBalanced [] (install scm []).1
    × ((rounds : ℕ) (r : Bool) (calls' : List ScCall)
        → stop scm rounds [] ≡ some (r, calls')
        → IsBalanced [] calls')
install_stop-close_example = install_stop-close scm []

abbrev seen : ServiceState → ℕ → Option Queried
seen state hint = some (record { current_state = state; wait_hint = hint })

-- The calls of a Stop that succeeds on this service.
abbrev stopping : List ScCall
stopping =
    closed service
    ∷ closed manager
    ∷ queried (seen stopped 0)
    ∷ slept 500
    ∷ queried (seen stop_pending 500)
    ∷ slept 0
    ∷ controlled_stop true (seen running 0)
    ∷ queried (seen running 0)
    ∷ opened service
    ∷ opened manager
    ∷ []

stop-SawStopped_example : SawStopped stopping
unfolding stop await_pending await_stopped send_stop
stop-SawStopped_example = stop-SawStopped scm 5 [] stopping refl
