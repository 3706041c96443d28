-- ===== src/ServiceMode/Installer.antt =====
-- The installer of LibCommons/ServiceMode.cpp, and what it asks the system's service control manager:
-- Install and UnInstall here, Stop in Installer/Stopping, GetServiceBinaryName and
-- GetServiceBinaryLocation in Installer/BinaryName. Names, rights and the log are left out; an assert
-- does nothing.
pub mod Stopping
pub mod BinaryName
pub mod Handles
pub mod Ends
pub mod Result
use fast_port.Prelude.{
  ℕ, zero, suc, ◌+◌, Bool, true, false, Option, none, some, List, [], ◌∷◌, if◌then◌else◌,
}
use fast_port.ServiceMode.Status.{ServiceState, stopped, stop_pending}

-- What SERVICE_STATUS_PROCESS and SERVICE_STATUS hold of a service.
pub record Queried : Type 0 where
  pub current_state : ServiceState
  pub wait_hint : ℕ

pub data Handle : Type 0 where
  manager service : Handle

-- The calls of the system, with what the handles and the status were asked for.
pub data ScCall : Type 0 where
  opened closed : Handle → ScCall
  queried : Option Queried → ScCall
  controlled_stop : Bool → Option Queried → ScCall
  asked_config : ℕ → ScCall
  slept : ℕ → ScCall
  deleted : Bool → ScCall

-- The answers of the system, by the calls before, newest first. A status is none where the call
-- fails. ControlService says whether it succeeded, and what it wrote into the status, if anything.
pub record ScAnswers : Type 0 where
  pub opens : Handle → List ScCall → Bool
  pub creates_service : List ScCall → Bool
  pub status : List ScCall → Option Queried
  pub control_stop : List ScCall → Bool × Option Queried
  pub deletes : List ScCall → Bool
  -- GetTickCount64.
  pub ticks : List ScCall → ℕ

-- CloseServiceHandle of the manager, then of the service.
abbrev pub close_both : List ScCall → List ScCall
close_both calls = closed service ∷ closed manager ∷ calls

-- dwCurrentState against SERVICE_STOPPED and SERVICE_STOP_PENDING.
abbrev pub is_stopped : ServiceState → Bool
is_stopped stopped = true
is_stopped _ = false

abbrev pub is_stop_pending : ServiceState → Bool
is_stop_pending stop_pending = true
is_stop_pending _ = false

module _ (scm : ScAnswers) where
  -- Installer::Install.
  unfoldable pub install : List ScCall → Bool × List ScCall
  install calls =
      if scm.opens manager calls
      then (let calls' = opened manager ∷ calls in
          if scm.creates_service calls'
          then (true, close_both (opened service ∷ calls'))
          else (false, closed manager ∷ calls'))
      else (false, calls)

  -- The wait of UnInstall: another round, a second later, when the query fails and the status that
  -- was last written is a pending stop. The status is none while it is zero. None when the rounds run
  -- out.
  unfoldable pub await_uninstall :
      ℕ → Option Queried → List ScCall → Option (Option Queried × List ScCall)
  await_uninstall zero held calls = none
  await_uninstall (suc rounds) held calls = elim (scm.status calls) [
    | some s ↦ some (some s, queried (some s) ∷ calls)
    | none ↦ elim held [
      | none ↦ some (none, queried none ∷ calls)
      | some s ↦ elim (is_stop_pending s.current_state) [
        | true ↦ await_uninstall rounds (some s) (slept 1000 ∷ queried none ∷ calls)
        | false ↦ some (some s, queried none ∷ calls)
      ]
    ]
  ]

  -- The status that UnInstall holds behind ControlService: what that wrote, or zero.
  abbrev pub delete_service : Option (Option Queried × List ScCall) → Option (Bool × List ScCall)
  delete_service none = none
  delete_service (some (_, calls)) = some (scm.deletes calls, deleted (scm.deletes calls) ∷ calls)

  -- Installer::UnInstall. None when the rounds run out.
  unfoldable pub un_install : ℕ → List ScCall → Option (Bool × List ScCall)
  un_install rounds calls =
      if scm.opens manager calls
      then (let calls' = opened manager ∷ calls in
          if scm.opens service calls'
          then (let calls'' = opened service ∷ calls' in
              let (done, written) = scm.control_stop calls'' in
              delete_service (
                await_uninstall rounds written
                  (slept 1000 ∷ controlled_stop done written ∷ calls'')))
          else some (true, calls'))
      else some (false, calls)
