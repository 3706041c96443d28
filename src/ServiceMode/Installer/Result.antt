-- ===== src/ServiceMode/Installer/Result.antt =====
-- What the result of Installer::Stop of LibCommons/ServiceMode.cpp says of the service.
use fast_port.Prelude.{
  ℕ, zero, suc, ◌≡◌, refl, subst, Bool, true, false, ◌&&◌, Option, none, some, List, [], ◌∷◌,
  Bool_cases,
}
use fast_port.ServiceMode.Installer.{
  Queried, ScCall, opened, closed, queried, controlled_stop, slept, manager, service, ScAnswers,
  close_both, is_stopped, is_stop_pending,
}
use fast_port.ServiceMode.Installer.Stopping.{
  Wait, out_of_rounds, leaves, goes_on, timed_out, paused_for, await_pending, await_stopped, finish,
  or_held, send_stop, stop,
}
use fast_port.ServiceMode.Installer.Handles.{of_status, of_test}

-- The status that the system gave last.
abbrev pub last_status : List ScCall → Option Queried
last_status [] = none
last_status (queried (some s) ∷ calls) = some s
last_status (controlled_stop done (some s) ∷ calls) = some s
last_status (_ ∷ calls) = last_status calls

-- That status is that the service is stopped.
abbrev pub SawStopped : List ScCall → Type 0
SawStopped calls =
    (s : Queried) × (last_status calls ≡ some s) × (is_stopped s.current_state ≡ true)

abbrev Tells : Bool → Wait → Type 0
Tells strict out_of_rounds = Unit
Tells strict (leaves r c) = r ≡ true → SawStopped c
Tells strict (goes_on s c) =
    (last_status c ≡ some s) × (strict ≡ true → is_stopped s.current_state ≡ true)

record IsTold (strict : Bool) (w : Wait) : Type 0 where
  told : Tells strict w

paused_for-last_status :
    (pending : Bool) (s : Queried) (calls : List ScCall)
    → last_status (paused_for pending s (queried (some s) ∷ calls)) ≡ some s
paused_for-last_status true s calls = refl
paused_for-last_status false s calls = refl

refused : (strict : Bool) (c : List ScCall) → IsTold strict (leaves false c)
refused strict c = record { told = λ e. cc }

module _ (scm : ScAnswers) (start : ℕ) where
  await_pending-IsTold :
      (rounds : ℕ) (pending : Bool) (calls : List ScCall)
      → IsTold false (await_pending scm rounds start pending calls)
  unfolding await_pending
  await_pending-IsTold zero pending calls = record { told = tt }
  await_pending-IsTold (suc rounds) pending calls =
      of_status (IsTold false) (scm.status calls) _ _
        (λ _. refused false (close_both (queried none ∷ calls)))
        λ s _.
          let calls' = paused_for pending s (queried (some s) ∷ calls) in
          let l = paused_for-last_status pending s calls in
          of_test (IsTold false) (is_stopped s.current_state) _ _
            (λ h. record { told = λ _. (s, l, h) })
            λ _.
              of_test (IsTold false) (pending && timed_out scm start calls') _ _
                (λ _. refused false (close_both calls'))
                λ _.
                  of_test (IsTold false) (is_stop_pending s.current_state) _ _
                    (λ _. await_pending-IsTold rounds true calls')
                    (λ _. record { told = (l, λ e. cc) })

  await_stopped-IsTold :
      (rounds : ℕ) (held : Queried) (calls : List ScCall)
      → last_status calls ≡ some held
      → IsTold true (await_stopped scm rounds start held calls)
  unfolding await_stopped
  await_stopped-IsTold zero held calls l = record { told = tt }
  await_stopped-IsTold (suc rounds) held calls l =
      let slept_calls = slept held.wait_hint ∷ calls in
      of_test (IsTold true) (is_stopped held.current_state) _ _ (λ h. record { told = (l, λ _. h) })
        λ _.
          of_status (IsTold true) (scm.status slept_calls) _ _
            (λ _. refused true (close_both (queried none ∷ slept_calls)))
            λ s _.
              let calls' = queried (some s) ∷ slept_calls in
              of_test (IsTold true) (is_stopped s.current_state) _ _
                (λ h. record { told = (refl, λ _. h) })
                λ _.
                  of_test (IsTold true) (timed_out scm start calls') _ _
                    (λ _. refused true (close_both calls'))
                    (λ _. await_stopped-IsTold rounds s calls' refl)

  Says : Option (Bool × List ScCall) → Type 0
  Says o = (c : List ScCall) → o ≡ some (true, c) → SawStopped c

  -- A result that is given at once.
  gives : (r : Bool) (c : List ScCall) → (r ≡ true → SawStopped c) → Says (some (r, c))
  unfolding Says
  gives r c h c' e = let same_calls : c ≡ c' = cc in subst SawStopped same_calls (h cc)

  finish-Says : (w : Wait) → IsTold true w → Says (finish w)
  unfolding Says
  finish-Says out_of_rounds t = λ c e. cc
  finish-Says (leaves r c') t = gives r c' t.told
  finish-Says (goes_on s c') t = gives true (close_both c') (λ _. (s, t.told.0, t.told.1 refl))

  or_held-last_status :
      (held : Queried) (c : List ScCall) (done : Bool) (written : Option Queried)
      → last_status c ≡ some held
      → last_status (controlled_stop done written ∷ c) ≡ some (or_held held written)
  or_held-last_status held c done none l = l
  or_held-last_status held c done (some s) l = refl

  send_stop-Says : (rounds : ℕ) (w : Wait) → IsTold false w → Says (send_stop scm rounds start w)
  unfolding send_stop
  send_stop-Says rounds out_of_rounds t = finish-Says out_of_rounds (record { told = tt })
  send_stop-Says rounds (leaves r c) t = gives r c t.told
  send_stop-Says rounds (goes_on held c) t =
      let done = (scm.control_stop c).0 in
      let written = (scm.control_stop c).1 in
      let calls' = controlled_stop done written ∷ c in
      Bool_cases Says done
        (λ _. finish-Says _ (
          await_stopped-IsTold rounds (or_held held written) calls'
            (or_held-last_status held c done written t.told.0)))
        (λ _. gives false (close_both calls') (λ e. cc))

-- When Stop says that it succeeded, the last status that the system gave is that the service is stopped.
pub stop-SawStopped :
    (scm : ScAnswers) (rounds : ℕ) (calls c : List ScCall)
    → stop scm rounds calls ≡ some (true, c)
    → SawStopped c
unfolding stop Says
stop-SawStopped scm rounds calls =
    let start = scm.ticks calls in
    let calls'' = opened service ∷ opened manager ∷ calls in
    Bool_cases (Says scm start) (scm.opens manager calls)
      (λ _.
        Bool_cases (Says scm start) (scm.opens service (opened manager ∷ calls))
          (λ _.
            send_stop-Says scm start rounds (await_pending scm rounds start false calls'')
              (await_pending-IsTold scm start rounds false calls''))
          (λ _. gives scm start false (closed manager ∷ opened manager ∷ calls) (λ e. cc)))
      (λ _. gives scm start false calls (λ e. cc))
