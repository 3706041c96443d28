-- ===== src/ServiceMode/Installer/Handles/Stopping.antt =====
-- The handles of Install and Stop, of LibCommons/ServiceMode.cpp.
use fast_port.Prelude.{
  ℕ, zero, suc, ◌+◌, ◌≡◌, refl, subst, Bool, true, false, ◌&&◌, Option, none, some, List, ◌∷◌,
  arith, Bool_cases,
}
use fast_port.ServiceMode.Installer.{
  Queried, Handle, ScCall, opened, closed, queried, controlled_stop, slept, manager, service,
  ScAnswers, close_both, is_stopped, is_stop_pending, install,
}
use fast_port.ServiceMode.Installer.Stopping.{
  Wait, out_of_rounds, leaves, goes_on, timed_out, paused_for, await_pending, await_stopped, finish,
  or_held, send_stop, stop,
}
use fast_port.ServiceMode.Installer.Handles.{
  opens, closes, IsBalanced, Moved, one_each, close_both-Moved, of_status, of_test,
}

-- A wait that leaves Stop has closed both handles, and one that goes on none.
abbrev WaitCloses : Handle → List ScCall → Wait → Type 0
WaitCloses h calls out_of_rounds = Unit
WaitCloses h calls (leaves result calls') = Moved h 1 calls calls'
WaitCloses h calls (goes_on s calls') = Moved h 0 calls calls'

record HasClosed (h : Handle) (calls : List ScCall) (w : Wait) : Type 0 where
  so_far : WaitCloses h calls w

HasClosed-Moved :
    (h : Handle) (calls calls' : List ScCall) (w : Wait)
    → Moved h 0 calls calls'
    → HasClosed h calls' w
    → HasClosed h calls w
HasClosed-Moved h calls calls' out_of_rounds m c = record { so_far = tt }
HasClosed-Moved h calls calls' (leaves result calls'') m c = record {
  so_far = (omega (arith, m, c.so_far), omega (arith, m, c.so_far));
}
HasClosed-Moved h calls calls' (goes_on s calls'') m c = record {
  so_far = (omega (arith, m, c.so_far), omega (arith, m, c.so_far));
}

paused_for-Moved :
    (h : Handle) (pending : Bool) (s : Queried) (calls : List ScCall)
    → Moved h 0 calls (paused_for pending s (queried (some s) ∷ calls))
paused_for-Moved h true s calls = (refl, omega arith)
paused_for-Moved h false s calls = (refl, omega arith)

left :
    (h : Handle) (calls calls' : List ScCall) {r : Bool}
    → Moved h 0 calls calls'
    → HasClosed h calls (leaves r (close_both calls'))
left h calls calls' m = record { so_far = close_both-Moved h calls calls' m }

module _ (scm : ScAnswers) (start : ℕ) (h : Handle) where
  await_pending-HasClosed :
      (rounds : ℕ) (pending : Bool) (calls : List ScCall)
      → HasClosed h calls (await_pending scm rounds start pending calls)
  unfolding await_pending
  await_pending-HasClosed zero pending calls = record { so_far = tt }
  await_pending-HasClosed (suc rounds) pending calls =
      of_status (HasClosed h calls) (scm.status calls) _ _
        (λ _. left h calls (queried none ∷ calls) (refl, omega arith))
        λ s _.
          let m = paused_for-Moved h pending s calls in
          let calls' = paused_for pending s (queried (some s) ∷ calls) in
          of_test (HasClosed h calls) (is_stopped s.current_state) _ _ (λ _. left h calls calls' m)
            λ _.
              of_test (HasClosed h calls) (pending && timed_out scm start calls') _ _
                (λ _. left h calls calls' m)
                λ _.
                  of_test (HasClosed h calls) (is_stop_pending s.current_state) _ _
                    (λ _.
                      HasClosed-Moved h calls calls' _ m
                        (await_pending-HasClosed rounds true calls'))
                    (λ _. record { so_far = m })

  await_stopped-HasClosed :
      (rounds : ℕ) (held : Queried) (calls : List ScCall)
      → HasClosed h calls (await_stopped scm rounds start held calls)
  unfolding await_stopped
  await_stopped-HasClosed zero held calls = record { so_far = tt }
  await_stopped-HasClosed (suc rounds) held calls =
      let slept_calls = slept held.wait_hint ∷ calls in
      of_test (HasClosed h calls) (is_stopped held.current_state) _ _
        (λ _. record { so_far = (refl, omega arith) })
        λ _.
          of_status (HasClosed h calls) (scm.status slept_calls) _ _
            (λ _. left h calls (queried none ∷ slept_calls) (refl, omega arith))
            λ s _.
              let calls' = queried (some s) ∷ slept_calls in
              of_test (HasClosed h calls) (is_stopped s.current_state) _ _
                (λ _. record { so_far = (refl, omega arith) })
                λ _.
                  of_test (HasClosed h calls) (timed_out scm start calls') _ _
                    (λ _. left h calls calls' (refl, omega arith))
                    λ _.
                      HasClosed-Moved h calls calls' _ (refl, omega arith)
                        (await_stopped-HasClosed rounds s calls')

  Closed : List ScCall → Option (Bool × List ScCall) → Type 0
  Closed calls o = (r : Bool) (calls' : List ScCall) → o ≡ some (r, calls') → Moved h 1 calls calls'

  finish-Closed : (calls : List ScCall) (w : Wait) → HasClosed h calls w → Closed calls (finish w)
  unfolding Closed
  finish-Closed calls out_of_rounds c r calls' e = cc
  finish-Closed calls (leaves result calls'') c r calls' e =
      let same_calls : calls'' ≡ calls' = cc in subst (λ k. Moved h 1 calls k) same_calls c.so_far
  finish-Closed calls (goes_on s calls'') c r calls' e =
      let same_calls : close_both calls'' ≡ calls' = cc in
      subst (λ k. Moved h 1 calls k) same_calls (close_both-Moved h calls calls'' c.so_far)

  send_stop-Closed :
      (rounds : ℕ) (calls : List ScCall) (w : Wait)
      → HasClosed h calls w
      → Closed calls (send_stop scm rounds start w)
  unfolding send_stop
  send_stop-Closed rounds calls out_of_rounds c = finish-Closed calls out_of_rounds c
  send_stop-Closed rounds calls (leaves result calls'') c =
      finish-Closed calls (leaves result calls'') c
  send_stop-Closed rounds calls (goes_on held calls'') c =
      let done = (scm.control_stop calls'').0 in
      let written = (scm.control_stop calls'').1 in
      let calls' = controlled_stop done written ∷ calls'' in
      let m : Moved h 0 calls calls' = (omega (arith, c.so_far), omega (arith, c.so_far)) in
      Bool_cases (Closed calls) done
        (λ _. finish-Closed calls (await_stopped scm rounds start (or_held held written) calls') (
          HasClosed-Moved h calls calls' _ m
            (await_stopped-HasClosed rounds (or_held held written) calls')))
        (λ _. finish-Closed calls (leaves false (close_both calls')) (left h calls calls' m))

-- A call that ends has opened as many handles as it has closed.
Ends : Handle → List ScCall → Option (Bool × List ScCall) → Type 0
Ends h calls o =
    (r : Bool) (calls' : List ScCall)
    → o ≡ some (r, calls')
    → opens h calls' + closes h calls ≡ closes h calls' + opens h calls

Ends-some :
    (h : Handle) (calls calls' : List ScCall) (r : Bool)
    → opens h calls' + closes h calls ≡ closes h calls' + opens h calls
    → Ends h calls (some (r, calls'))
unfolding Ends
Ends-some h calls calls' r b r' calls'' e =
    let same_calls : calls' ≡ calls'' = cc in
    subst (λ k. opens h k + closes h calls ≡ closes h k + opens h calls) same_calls b

module _ (scm : ScAnswers) (h : Handle) where
  install-balanced :
      (calls : List ScCall)
      → opens h (install scm calls).1 + closes h calls
        ≡ closes h (install scm calls).1 + opens h calls
  unfolding install
  install-balanced calls =
      Bool_cases P (scm.opens manager calls)
        (λ _.
          Bool_cases P (scm.creates_service (opened manager ∷ calls)) (λ _. omega arith)
            (λ _. omega arith))
        (λ _. omega arith)
    where
      P : Bool × List ScCall → Type 0
      P p = opens h p.1 + closes h calls ≡ closes h p.1 + opens h calls

  stop-Ends : (rounds : ℕ) (calls : List ScCall) → Ends h calls (stop scm rounds calls)
  unfolding stop Closed Ends
  stop-Ends rounds calls =
      let start = scm.ticks calls in
      let calls' = opened manager ∷ calls in
      let calls'' = opened service ∷ calls' in
      Bool_cases (Ends h calls) (scm.opens manager calls)
        (λ _.
          Bool_cases (Ends h calls) (scm.opens service calls')
            (λ _ r k e.
              let m : Moved h 1 calls'' k =
                send_stop-Closed scm start h rounds calls''
                  (await_pending scm rounds start false calls'')
                  (await_pending-HasClosed scm start h rounds false calls'') r k e in
              omega (arith, m, one_each h))
            (λ _. Ends-some h calls (closed manager ∷ calls') false (omega arith)))
        (λ _. Ends-some h calls calls false (omega arith))

-- Install closes on every path each handle that it opened, and so does Stop, on every path on which it
-- returns, whatever the system answers.
pub install_stop-close :
    (scm : ScAnswers) (calls : List ScCall)
    → IsBalanced calls (install scm calls).1
      × ((rounds : ℕ) (r : Bool) (calls' : List ScCall)
          → stop scm rounds calls ≡ some (r, calls')
          → IsBalanced calls calls')
unfolding Ends
install_stop-close scm calls = (
  λ h. install-balanced scm h calls,
  λ rounds r calls' e h. stop-Ends scm h rounds calls r calls' e,
)
