-- ===== src/ServiceMode/Program.antt =====
-- Running a service of LibCommons/ServiceMode.cpp: ServiceMain, Run and Execute. The options are those
-- that the command line gives; what the system's dispatcher does is an argument.
use fast_port.Prelude.{ℕ, ◌≡◌, refl, Bool, true, false, Option, none, some, List, if◌then◌else◌}
use fast_port.ServiceMode.Status.{
  ServiceMode, Surroundings, on_started, returns, throws, throws_code, call,
}
use fast_port.ServiceMode.Controls.{Control, start, handle_all}
use fast_port.ServiceMode.Installer.{ScCall, ScAnswers, install, un_install}
use fast_port.ServiceMode.Installer.Stopping

-- What StartServiceCtrlDispatcher does: it fails, or it calls ServiceMain, whose handler is registered or
-- not, sends controls, and returns when the service has stopped.
pub data Dispatch : Type 0 where
  fails : Dispatch
  runs : Bool → List Control → Dispatch

module _ (world : Surroundings) where
  -- None is an exception that leaves the function, here the error of RegisterServiceCtrlHandler.
  unfoldable pub service_main : Bool → ServiceMode → Option ServiceMode
  service_main true m = some (start world m)
  service_main false m = none

  abbrev pub controlled : List Control → Option ServiceMode → Option (Bool × ServiceMode)
  controlled cs none = none
  controlled cs (some m) = some (true, handle_all world cs m)

  -- Run, as it is released.
  unfoldable pub run : Dispatch → ServiceMode → Option (Bool × ServiceMode)
  run fails m = some (false, m)
  run (runs registered controls) m = controlled controls (service_main registered m)

  -- Run, as it is debugged: the subclass is started, with no status and no dispatcher.
  unfoldable pub run_debug : ServiceMode → Option (Bool × ServiceMode)
  run_debug m = elim (world.runs on_started m.events) [
    | returns ↦ some (true, call on_started m)
    | throws ↦ none
    | throws_code _ ↦ none
  ]

-- The options that stand on the command line; `run` has no branch.
pub record Options : Type 0 where
  pub help : Bool
  pub install : Bool
  pub uninstall : Bool
  pub stop : Bool

abbrev pub the_calls : Option (Bool × List ScCall) → Option (List ScCall)
the_calls none = none
the_calls (some (_, calls)) = some calls

-- The calls of the installer that the options ask for, the first of them that stands in the order of the
-- branches. Its answer is looked at by the log only.
unfoldable pub administer : ScAnswers → ℕ → Options → List ScCall → Option (List ScCall)
administer scm rounds o calls =
    if o.install
    then some (install scm calls).1
    else if o.uninstall
    then the_calls (un_install scm rounds calls)
    else if o.stop
    then the_calls (Stopping.stop scm rounds calls)
    else some calls

-- What follows the installer in Execute, whatever it did: the service runs.
abbrev pub then_run {ℓ} :
    {S : Type ℓ} → Option (Bool × S) → Option (List ScCall) → Option (Bool × S × List ScCall)
then_run o none = none
then_run none (some calls) = none
then_run (some (_, m)) (some calls) = some (true, m, calls)

-- Execute, for a way to run the service. None when the rounds run out, or an exception leaves it.
unfoldable pub execute {ℓ} :
    {S : Type ℓ}
    → ScAnswers
    → ℕ
    → (S → Option (Bool × S))
    → Options
    → S
    → List ScCall
    → Option (Bool × S × List ScCall)
execute scm rounds runs_service o m calls =
    if o.help
    then some (false, m, calls)
    else then_run (runs_service m) (administer scm rounds o calls)

-- Installing a service runs it as well: the dispatcher is started behind Install, and the result is true
-- whether or not either succeeded.
execute-install :
    (world : Surroundings) (scm : ScAnswers) (rounds : ℕ) (d : Dispatch) (m m' : ServiceMode)
    (ran : Bool) (calls : List ScCall) (uninstall stop : Bool)
    → run world d m ≡ some (ran, m')
    → execute scm rounds
        (run world d)
        (record { help = false; install = true; uninstall = uninstall; stop = stop })
        m
        calls
      ≡ some (true, m', (install scm calls).1)
unfolding execute administer
execute-install world scm rounds d m m' ran calls uninstall stop r = rw r refl
