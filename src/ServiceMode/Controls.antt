-- ===== src/ServiceMode/Controls.antt =====
-- The controls of a service, of LibCommons/ServiceMode.cpp: Start, Pause, Stop, Continue and Shutdown,
-- the handler that the system calls, ServiceMain, and Run and Execute.
pub mod Settled
pub mod CheckPoints
use fast_port.Prelude.{ℕ, Bool, true, false, Option, none, some, List, [], ◌∷◌, if◌then◌else◌}
use fast_port.ServiceMode.Status.{
  ServiceState, stopped, start_pending, stop_pending, running, continue_pending, pause_pending,
  paused, Callback, on_started, on_stopped, on_paused, on_continue, on_shutdown, Outcome, returns,
  throws, throws_code, Entry, taken, failed, failed_with, ServiceMode, Surroundings,
  set_service_status, write_event_log_entry, call,
}

-- The values of dwCtrl.
pub data Control : Type 0 where
  control_stop control_pause control_continue control_shutdown control_interrogate : Control
  control_other : ℕ → Control

module _ (world : Surroundings) where
  -- The catch blocks: an entry is written and, where the source does, a status is reported.
  abbrev pub caught : Entry → Option (ServiceState × ℕ) → ServiceMode → ServiceMode
  caught e none m = write_event_log_entry world e m
  caught e (some (state, exit_code)) m =
      set_service_status state exit_code 0 (write_event_log_entry world e m)

  -- The body of a control behind its first report: the entry and the callback, then the state that is
  -- reported when it returns, or that of the catch blocks, which see the code where there is one.
  abbrev pub attempt :
      Callback → ServiceState → (ℕ → Option (ServiceState × ℕ)) → ServiceMode → ServiceMode
  attempt c reached left m =
      let m' = write_event_log_entry world (taken c) m in
      elim (world.runs c m'.events) [
        | returns ↦ set_service_status reached 0 0 (call c m')
        | throws_code e ↦ caught (failed_with c e) (left e) (call c m')
        | throws ↦ caught (failed c) (left 0) (call c m')
      ]

  unfoldable pub start : ServiceMode → ServiceMode
  start m =
      attempt on_started running (λ e. some (stopped, e)) (set_service_status start_pending 0 0 m)

  unfoldable pub pause : ServiceMode → ServiceMode
  pause m =
      attempt on_paused paused (λ _. some (running, 0)) (set_service_status pause_pending 0 0 m)

  unfoldable pub stop : ServiceMode → ServiceMode
  stop m =
      let original = m.status.current_state in
      attempt on_stopped stopped (λ _. some (original, 0)) (set_service_status stop_pending 0 0 m)

  unfoldable pub continue : ServiceMode → ServiceMode
  continue m =
      attempt on_continue running (λ _. some (paused, 0))
        (set_service_status continue_pending 0 0 m)

  unfoldable pub shutdown : ServiceMode → ServiceMode
  shutdown m = attempt on_shutdown stopped (λ _. none) m

  unfoldable pub service_ctrl_handler : Control → ServiceMode → ServiceMode
  service_ctrl_handler control_stop m = stop m
  service_ctrl_handler control_pause m = pause m
  service_ctrl_handler control_continue m = continue m
  service_ctrl_handler control_shutdown m = shutdown m
  service_ctrl_handler control_interrogate m = m
  service_ctrl_handler (control_other _) m = m

  -- The controls that the system sends, in order.
  unfoldable pub handle_all : List Control → ServiceMode → ServiceMode
  handle_all [] m = m
  handle_all (c ∷ cs) m = handle_all cs (service_ctrl_handler c m)
