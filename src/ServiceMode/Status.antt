-- ===== src/ServiceMode/Status.antt =====
-- The status of a service: the constructor, SetServiceStatus and the entries of the event log, of
-- LibCommons/ServiceMode.cpp. What the service tells the system is an event; the text of an entry is
-- left out but for what it is about.
use fast_port.Prelude.{ℕ, ◌+◌, Bool, true, false, List, [], ◌∷◌, if◌then◌else◌, add32}

-- The values of dwCurrentState.
pub data ServiceState : Type 0 where
  stopped start_pending stop_pending running continue_pending pause_pending paused : ServiceState

pub record ServiceStatus : Type 0 where
  pub current_state : ServiceState
  pub controls_accepted : ℕ
  pub win32_exit_code : ℕ
  pub service_specific_exit_code : ℕ
  pub check_point : ℕ
  pub wait_hint : ℕ

-- The virtual functions that a subclass gives.
pub data Callback : Type 0 where
  on_started on_stopped on_paused on_continue on_shutdown : Callback

-- How a callback ends: it returns, throws a DWORD, or throws anything else.
pub data Outcome : Type 0 where
  returns throws : Outcome
  throws_code : ℕ → Outcome

-- An entry of the event log: a control was taken, it failed with a code, or it failed.
pub data Entry : Type 0 where
  taken failed : Callback → Entry
  failed_with : Callback → ℕ → Entry

-- What leaves the service: a status for the system, an entry of the log, a call of the subclass.
pub data Event : Type 0 where
  reported : ServiceStatus → Event
  logged : Entry → Event
  called : Callback → Event

-- `events` has the newest in front. `next_check_point` is the static of SetServiceStatus.
pub record ServiceMode : Type 0 where
  pub status : ServiceStatus
  pub next_check_point : ℕ
  pub events : List Event

-- What the system and the subclass answer, by what has happened before: whether the event source
-- opens, and how a callback ends. A callback reports no status of its own.
pub record Surroundings : Type 0 where
  pub opens_source : List Event → Bool
  pub runs : Callback → List Event → Outcome

-- SERVICE_ACCEPT_STOP, _PAUSE_CONTINUE, _SHUTDOWN and _SESSIONCHANGE: distinct bits.
abbrev pub accept_stop : ℕ
accept_stop = 1

abbrev pub accept_pause_continue : ℕ
accept_pause_continue = 2

abbrev pub accept_shutdown : ℕ
accept_shutdown = 4

abbrev pub accept_session_change : ℕ
accept_session_change = 128

-- The constructor: bCanStop, bCanShutdown, bCanPauseContinue.
unfoldable pub make : Bool → Bool → Bool → ServiceMode
make can_stop can_shutdown can_pause_continue =
    let with_stop = accept_session_change + (if can_stop then accept_stop else 0) in
    let with_shutdown = with_stop + (if can_shutdown then accept_shutdown else 0) in
    record {
      status = record {
        current_state = start_pending;
        controls_accepted =
            with_shutdown + (if can_pause_continue then accept_pause_continue else 0);
        win32_exit_code = 0;
        service_specific_exit_code = 0;
        check_point = 0;
        wait_hint = 0;
      };
      next_check_point = 1;
      events = [];
    }

-- The states that are reported without a check point.
abbrev pub is_running_or_stopped : ServiceState → Bool
is_running_or_stopped running = true
is_running_or_stopped stopped = true
is_running_or_stopped _ = false

-- SetServiceStatus(dwCurrentState, dwWin32ExitCode, dwWaitHint).
unfoldable pub set_service_status : ServiceState → ℕ → ℕ → ServiceMode → ServiceMode
set_service_status state exit_code hint m =
    let final = is_running_or_stopped state in
    let status : ServiceStatus = record m.status {
      current_state = state;
      win32_exit_code = exit_code;
      wait_hint = hint;
      check_point = if final then 0 else m.next_check_point;
    } in
    record m {
      status = status;
      next_check_point = if final then m.next_check_point else add32 m.next_check_point 1;
      events = reported status ∷ m.events;
    }

-- WriteEventLogEntry; WriteErrorLogEntry is the same with an entry that has a code.
unfoldable pub write_event_log_entry : Surroundings → Entry → ServiceMode → ServiceMode
write_event_log_entry world e m =
    if world.opens_source m.events then record m { events = logged e ∷ m.events } else m

-- A call of the subclass.
abbrev pub call : Callback → ServiceMode → ServiceMode
call c m = record m { events = called c ∷ m.events }
