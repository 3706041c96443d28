-- ===== src/ServiceMode/Controls/Settled.antt =====
-- Between two controls a service of LibCommons/ServiceMode.cpp is in no pending state, and the system
-- knows the state that it is in.
use fast_port.Prelude.{
  ℕ, ◌≡◌, refl, Bool, true, false, Option, none, some, List, [], ◌∷◌, Bool_cases,
}
use fast_port.ServiceMode.Status.{
  ServiceState, stopped, running, paused, ServiceStatus, Callback, on_started, on_stopped,
  on_paused, on_continue, on_shutdown, Outcome, returns, throws, throws_code, Entry, failed,
  failed_with, taken, Event, reported, logged, called, ServiceMode, Surroundings,
  set_service_status, write_event_log_entry, call,
}
use fast_port.ServiceMode.Controls.{
  Control, control_stop, control_pause, control_continue, control_shutdown, control_interrogate,
  control_other, caught, attempt, start, pause, stop, continue, shutdown, service_ctrl_handler,
  handle_all,
}

-- The status that the system was told last.
abbrev pub last_report : List Event → Option ServiceStatus
last_report [] = none
last_report (reported s ∷ es) = some s
last_report (logged e ∷ es) = last_report es
last_report (called c ∷ es) = last_report es

abbrev pub is_settled : ServiceState → Bool
is_settled stopped = true
is_settled running = true
is_settled paused = true
is_settled _ = false

pub record IsSettled (m : ServiceMode) : Type 0 where
  pub settled : is_settled m.status.current_state ≡ true
  pub known : last_report m.events ≡ some m.status

set_service_status-IsSettled :
    (state : ServiceState) (exit_code hint : ℕ) (m : ServiceMode)
    → is_settled state ≡ true
    → IsSettled (set_service_status state exit_code hint m)
unfolding set_service_status
set_service_status-IsSettled state exit_code hint m h = record { settled = h; known = refl }

module _ (world : Surroundings) where
  write-IsSettled :
      (e : Entry) (m : ServiceMode) → IsSettled m → IsSettled (write_event_log_entry world e m)
  unfolding write_event_log_entry
  write-IsSettled e m s =
      Bool_cases (λ (k : ServiceMode). IsSettled k) (world.opens_source m.events)
        (λ _. record { settled = s.settled; known = s.known }) (λ _. s)

  -- A control that reports a settled state on every way out leaves the service settled.
  attempt-IsSettled :
      (c : Callback) (reached : ServiceState) (left : ServiceState) (code : ℕ → ℕ) (m : ServiceMode)
      → is_settled reached ≡ true
      → is_settled left ≡ true
      → IsSettled (attempt world c reached (λ e. some (left, code e)) m)
  attempt-IsSettled c reached left code m r l =
      ends (world.runs c (write_event_log_entry world (taken c) m).events)
    where
      ends :
          (o : Outcome)
          → IsSettled elim o [
            | returns ↦
                set_service_status reached 0 0 (call c (write_event_log_entry world (taken c) m))
            | throws_code e ↦
                caught world
                  (failed_with c e)
                  (some (left, code e))
                  (call c (write_event_log_entry world (taken c) m))
            | throws ↦
                caught world
                  (failed c)
                  (some (left, code 0))
                  (call c (write_event_log_entry world (taken c) m))
          ]
      ends returns = set_service_status-IsSettled reached 0 0 _ r
      ends (throws_code e) = set_service_status-IsSettled left (code e) 0 _ l
      ends throws = set_service_status-IsSettled left (code 0) 0 _ l

  start-IsSettled : (m : ServiceMode) → IsSettled (start world m)
  unfolding start
  start-IsSettled m = attempt-IsSettled on_started running stopped (λ e. e) _ refl refl

  shutdown-IsSettled : (m : ServiceMode) → IsSettled m → IsSettled (shutdown world m)
  unfolding shutdown
  shutdown-IsSettled m s =
      ends (world.runs on_shutdown (write_event_log_entry world (taken on_shutdown) m).events)
    where
      m' : ServiceMode
      m' = call on_shutdown (write_event_log_entry world (taken on_shutdown) m)

      s' : IsSettled m'
      s' =
          let w = write-IsSettled (taken on_shutdown) m s in
          record { settled = w.settled; known = w.known }

      ends :
          (o : Outcome)
          → IsSettled elim o [
            | returns ↦ set_service_status stopped 0 0 m'
            | throws_code e ↦ caught world (failed_with on_shutdown e) none m'
            | throws ↦ caught world (failed on_shutdown) none m'
          ]
      ends returns = set_service_status-IsSettled stopped 0 0 _ refl
      ends (throws_code e) = write-IsSettled (failed_with on_shutdown e) m' s'
      ends throws = write-IsSettled (failed on_shutdown) m' s'

  handler-IsSettled :
      (c : Control) (m : ServiceMode) → IsSettled m → IsSettled (service_ctrl_handler world c m)
  unfolding service_ctrl_handler stop pause continue
  handler-IsSettled control_stop m s =
      attempt-IsSettled on_stopped stopped m.status.current_state (λ _. 0) _ refl s.settled
  handler-IsSettled control_pause m s =
      attempt-IsSettled on_paused paused running (λ _. 0) _ refl refl
  handler-IsSettled control_continue m s =
      attempt-IsSettled on_continue running paused (λ _. 0) _ refl refl
  handler-IsSettled control_shutdown m s = shutdown-IsSettled m s
  handler-IsSettled control_interrogate m s = s
  handler-IsSettled (control_other _) m s = s

  handle_all-IsSettled :
      (cs : List Control) (m : ServiceMode) → IsSettled m → IsSettled (handle_all world cs m)
  unfolding handle_all
  handle_all-IsSettled [] m s = s
  handle_all-IsSettled (c ∷ cs) m s = handle_all-IsSettled cs _ (handler-IsSettled c m s)

-- Behind Start and any controls, however the callbacks end and whatever the system answers, the service
-- is stopped, running or paused, never pending, and the status that the system was told last is the
-- service's.
pub controls_settle :
    (world : Surroundings) (m : ServiceMode) (cs : List Control)
    → IsSettled (handle_all world cs (start world m))
controls_settle world m cs = handle_all-IsSettled world cs (start world m) (start-IsSettled world m)
