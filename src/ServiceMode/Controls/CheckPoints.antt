-- ===== src/ServiceMode/Controls/CheckPoints.antt =====
-- The check points of the statuses that a service of LibCommons/ServiceMode.cpp reports.
use fast_port.Prelude.{
  ℕ, ◌+◌, ◌*◌, ◌^◌, ◌<◌, ◌≤◌, ◌≡◌, ◌⊎◌, inl, inr, refl, subst, Bool, true, false, Option, none,
  some, List, [], ◌∷◌, arith, Bool_cases, Bool-cases, length, add32,
}
use fast_port.ServiceMode.Status.{
  ServiceState, stopped, running, paused, start_pending, stop_pending, pause_pending,
  continue_pending, Callback, on_started, on_stopped, on_paused, on_continue, on_shutdown, Outcome,
  returns, throws, throws_code, Entry, failed, failed_with, taken, Event, reported, logged, called,
  ServiceMode, Surroundings, make, is_running_or_stopped, set_service_status, write_event_log_entry,
  call,
}
use fast_port.ServiceMode.Controls.{
  Control, control_stop, control_pause, control_continue, control_shutdown, control_interrogate,
  control_other, caught, attempt, start, pause, stop, continue, shutdown, service_ctrl_handler,
  handle_all,
}

-- Of these events, newest first: a report of a running or stopped service has the check point 0, and any
-- other has one that is not 0, below `n`, and above those of all such reports before it.
abbrev pub Numbered : ℕ → List Event → Type 0
Numbered n [] = Unit
Numbered n (reported s ∷ es) =
    ((is_running_or_stopped s.current_state ≡ true) × (s.check_point ≡ 0) × Numbered n es)
    ⊎ ((is_running_or_stopped s.current_state ≡ false)
        × (0 < s.check_point)
        × (s.check_point < n)
        × Numbered s.check_point es)
Numbered n (logged e ∷ es) = Numbered n es
Numbered n (called c ∷ es) = Numbered n es

Numbered-le : (n k : ℕ) (es : List Event) → n ≤ k → Numbered n es → Numbered k es
Numbered-le n k [] l h = tt
Numbered-le n k (reported s ∷ es) l (inl h) = inl (h.0, h.1, Numbered-le n k es l h.2)
Numbered-le n k (reported s ∷ es) l (inr h) = inr (h.0, h.1, omega (arith, h.2), h.3)
Numbered-le n k (logged e ∷ es) l h = Numbered-le n k es l h
Numbered-le n k (called c ∷ es) l h = Numbered-le n k es l h

-- The next check point is at most `k`, and above all that were given.
pub record IsCounted (k : ℕ) (m : ServiceMode) : Type 0 where
  pub positive : 0 < m.next_check_point
  pub bounded : m.next_check_point ≤ k
  pub numbered : Numbered m.next_check_point m.events

IsCounted-le : (k k' : ℕ) (m : ServiceMode) → k ≤ k' → IsCounted k m → IsCounted k' m
IsCounted-le k k' m l c = record {
  positive = c.positive;
  bounded = omega (arith, c.bounded);
  numbered = c.numbered;
}

-- A report takes one number at most.
set_service_status-IsCounted :
    (state : ServiceState) (exit_code hint k : ℕ) (m : ServiceMode)
    → k + 1 < 2 ^ 32
    → IsCounted k m
    → IsCounted (k + 1) (set_service_status state exit_code hint m)
unfolding set_service_status
set_service_status-IsCounted state exit_code hint k m b c =
    elim (Bool-cases (is_running_or_stopped state)) [
      | inl e ↦ rw e (record {
        positive = c.positive;
        bounded = omega (arith, c.bounded);
        numbered = inl (e, refl, c.numbered);
      })
      | inr e ↦
          let n : add32 m.next_check_point 1 ≡ m.next_check_point + 1 = omega (arith, c.bounded) in
          rw (e, n)
            (record {
              positive = omega arith;
              bounded = omega (arith, c.bounded);
              numbered = inr (e, c.positive, omega arith, c.numbered);
            })
    ]

module _ (world : Surroundings) where
  write-IsCounted :
      (e : Entry) (k : ℕ) (m : ServiceMode)
      → IsCounted k m
      → IsCounted k (write_event_log_entry world e m)
  unfolding write_event_log_entry
  write-IsCounted e k m c =
      Bool_cases (λ (m : ServiceMode). IsCounted k m) (world.opens_source m.events)
        (λ _. record { positive = c.positive; bounded = c.bounded; numbered = c.numbered }) (λ _. c)

  -- A control's body behind its first report makes one more report at most.
  attempt-IsCounted :
      (c : Callback) (reached : ServiceState) (left : ℕ → Option (ServiceState × ℕ)) (k : ℕ)
      (m : ServiceMode)
      → k + 1 < 2 ^ 32
      → IsCounted k m
      → IsCounted (k + 1) (attempt world c reached left m)
  attempt-IsCounted c reached left k m b h =
      ends (world.runs c (write_event_log_entry world (taken c) m).events)
    where
      m' : ServiceMode
      m' = call c (write_event_log_entry world (taken c) m)

      h' : IsCounted k m'
      h' =
          let w = write-IsCounted (taken c) k m h in
          record { positive = w.positive; bounded = w.bounded; numbered = w.numbered }

      after :
          (e : Entry) (way : Option (ServiceState × ℕ)) → IsCounted (k + 1) (caught world e way m')
      after e none =
          IsCounted-le k (k + 1) (write_event_log_entry world e m') (omega arith)
            (write-IsCounted e k m' h')
      after e (some (state, code)) =
          set_service_status-IsCounted state code 0 k (write_event_log_entry world e m') b
            (write-IsCounted e k m' h')

      ends :
          (o : Outcome)
          → IsCounted (k + 1) elim o [
            | returns ↦ set_service_status reached 0 0 m'
            | throws_code e ↦ caught world (failed_with c e) (left e) m'
            | throws ↦ caught world (failed c) (left 0) m'
          ]
      ends returns = set_service_status-IsCounted reached 0 0 k m' b h'
      ends (throws_code e) = after (failed_with c e) (left e)
      ends throws = after (failed c) (left 0)

  -- A control with a first report.
  begun-IsCounted :
      (first : ServiceState) (c : Callback) (reached : ServiceState)
      (left : ℕ → Option (ServiceState × ℕ)) (k : ℕ) (m : ServiceMode)
      → k + 2 < 2 ^ 32
      → IsCounted k m
      → IsCounted (k + 2) (attempt world c reached left (set_service_status first 0 0 m))
  begun-IsCounted first c reached left k m b h =
      subst (λ n. IsCounted n (attempt world c reached left (set_service_status first 0 0 m)))
        (let e : k + 1 + 1 ≡ k + 2 = omega arith in e)
        (attempt-IsCounted c reached left (k + 1) _ (omega arith)
          (set_service_status-IsCounted first 0 0 k m (omega arith) h))

  handler-IsCounted :
      (c : Control) (k : ℕ) (m : ServiceMode)
      → k + 2 < 2 ^ 32
      → IsCounted k m
      → IsCounted (k + 2) (service_ctrl_handler world c m)
  unfolding service_ctrl_handler stop pause continue shutdown
  handler-IsCounted control_stop k m b h =
      begun-IsCounted stop_pending on_stopped stopped (λ _. some (m.status.current_state, 0)) k m b
        h
  handler-IsCounted control_pause k m b h =
      begun-IsCounted pause_pending on_paused paused (λ _. some (running, 0)) k m b h
  handler-IsCounted control_continue k m b h =
      begun-IsCounted continue_pending on_continue running (λ _. some (paused, 0)) k m b h
  handler-IsCounted control_shutdown k m b h =
      IsCounted-le (k + 1) (k + 2) _ (omega arith)
        (attempt-IsCounted on_shutdown stopped (λ _. none) k m (omega arith) h)
  handler-IsCounted control_interrogate k m b h = IsCounted-le k (k + 2) m (omega arith) h
  handler-IsCounted (control_other _) k m b h = IsCounted-le k (k + 2) m (omega arith) h

  handle_all-IsCounted :
      (cs : List Control) (k : ℕ) (m : ServiceMode)
      → k + 2 * length cs < 2 ^ 32
      → IsCounted k m
      → IsCounted (k + 2 * length cs) (handle_all world cs m)
  unfolding handle_all
  handle_all-IsCounted [] k m b h = IsCounted-le k (k + 2 * 0) m (omega arith) h
  handle_all-IsCounted (c ∷ cs) k m b h =
      subst (λ n. IsCounted n (handle_all world cs (service_ctrl_handler world c m)))
        (let e : k + 2 + 2 * length cs ≡ k + 2 * length (c ∷ cs) = omega arith in e)
        (handle_all-IsCounted cs (k + 2) _ (omega arith) (handler-IsCounted c k m (omega arith) h))

make-IsCounted : (s d p : Bool) → IsCounted 1 (make s d p)
unfolding make
make-IsCounted s d p = record { positive = omega arith; bounded = omega arith; numbered = tt }

-- A service that was started and took at most 2^31 - 2 controls has given its pending and paused
-- statuses check points that are not 0, each above all before it, and its running and stopped statuses
-- the check point 0, however the callbacks ended.
pub check_points_rise :
    (world : Surroundings) (can_stop can_shutdown can_pause_continue : Bool) (cs : List Control)
    → 3 + 2 * length cs < 2 ^ 32
    → let m = handle_all world cs (start world (make can_stop can_shutdown can_pause_continue)) in
      Numbered m.next_check_point m.events
unfolding start
check_points_rise world s d p cs b =
    (handle_all-IsCounted world cs 3 _ b (
      begun-IsCounted world start_pending on_started running (λ e. some (stopped, e)) 1 (make s d p)
        (omega arith) (make-IsCounted s d p))).numbered
