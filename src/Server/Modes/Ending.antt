-- ===== src/Server/Modes/Ending.antt =====
-- What a server of FastPortServer/IOCPServiceMode.cpp or FastPortServerRIO/RIOServiceMode.cpp still owns when
-- it is stopped, and what its service reports when it could not start.
use fast_port.Prelude.{ℕ, ◌≡◌, refl, sym, subst, false, Option, none, some, List}
use fast_port.Stats.Sampler.{Doubles}
use fast_port.ServiceMode.Status.{
  ServiceState, ServiceStatus, running, stopped, failed, failed_with, throws, throws_code, Callback,
  on_started, Event, Outcome, returns, ServiceMode, Surroundings, start_pending, taken,
  set_service_status, write_event_log_entry, call,
}
use fast_port.ServiceMode.Controls.{start, attempt, caught}
use fast_port.Server.Modes.Statements.{ServerMode, execute}
use fast_port.Server.Modes.{
  Kind, iocp_server, rio_server, StartAnswers, run, on_stopped, on_shutdown,
}
use fast_port.Server.Modes

set_service_status-state :
    (state : ServiceState) (exit_code hint : ℕ) (m : ServiceMode)
    → (set_service_status state exit_code hint m).status.current_state ≡ state
unfolding set_service_status
set_service_status-state state exit_code hint m = refl

-- A callback that returns takes the service to the state that the control is for.
attempt-returns :
    (world : Surroundings) {c : Callback} (reached : ServiceState)
    (left : ℕ → Option (ServiceState × ℕ)) (m : ServiceMode)
    → world.runs c (write_event_log_entry world (taken c) m).events ≡ returns
    → (attempt world c reached left m).status.current_state ≡ reached
attempt-returns world {c} reached left m e =
    let m' : ServiceMode = call c (write_event_log_entry world (taken c) m) in
    subst
      (λ (o : Outcome).
        ServiceStatus.current_state (
          ServiceMode.status (elim o [
            | returns ↦ set_service_status reached 0 0 m'
            | throws_code k ↦ caught world (failed_with c k) (left k) m'
            | throws ↦ caught world (failed c) (left 0) m'
          ]))
        ≡ reached)
      (sym e) (set_service_status-state reached 0 0 m')

module _ (doubles : Doubles) where
  -- OnStopped keeps the acceptor and lets the RIO service go, OnShutdown the other way round; both let the
  -- checker and the statistics go, and neither says that the server runs no more.
  pub kept_at_the_end :
      (kind : Kind) (s : ServerMode)
      → let stopped = run doubles (on_stopped kind) s in
        let shut = run doubles (on_shutdown kind) s in
        (stopped.acceptor ≡ s.acceptor)
        × (shut.acceptor ≡ none)
        × (shut.rio_service ≡ s.rio_service)
        × (stopped.stats_sampler ≡ none)
        × (shut.stats_sampler ≡ none)
        × (stopped.running ≡ s.running)
        × (shut.running ≡ s.running)
  unfolding run on_stopped on_shutdown execute
  kept_at_the_end iocp_server s = (refl, refl, refl, refl, refl, refl, refl)
  kept_at_the_end rio_server s = (refl, refl, refl, refl, refl, refl, refl)

  -- A RIO server whose extension does not load has started nothing, but OnStarted returns, and the service
  -- reports that it is running.
  pub failed_start-running :
      (world : Surroundings) (m : ServiceMode) (a : StartAnswers) (s : ServerMode)
      → a.extension_loaded ≡ false
      → ((es : List Event) → world.runs on_started es ≡ returns)
      → (run doubles (Modes.on_started rio_server a) s ≡ s)
        × ((start world m).status.current_state ≡ running)
  unfolding run Modes.on_started start
  failed_start-running world m a s f r = (
    rw f refl,
    attempt-returns world running (λ e. some (stopped, e)) (set_service_status start_pending 0 0 m)
        (r _),
  )
