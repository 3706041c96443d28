-- ===== src/ServiceMode/Installer/Handles/Uninstalling.antt =====
-- The handles of UnInstall, of LibCommons/ServiceMode.cpp.
use fast_port.Prelude.{
  ℕ, zero, suc, ◌+◌, ◌≡◌, refl, subst, Bool, true, Option, none, some, List, ◌∷◌, arith, Bool_cases,
  Option-cases, inl, inr,
}
use fast_port.ServiceMode.Installer.{
  Queried, Handle, ScCall, opened, queried, controlled_stop, slept, deleted, manager, service,
  ScAnswers, is_stop_pending, await_uninstall, delete_service, un_install,
}
use fast_port.ServiceMode.Installer.Handles.{opens, closes, Moved, of_status, of_test}

-- The wait of UnInstall opens and closes nothing.
await_uninstall-Moved :
    (scm : ScAnswers) (h : Handle) (rounds : ℕ) (held : Option Queried) (calls : List ScCall)
    (r : Option Queried) (calls' : List ScCall)
    → await_uninstall scm rounds held calls ≡ some (r, calls')
    → Moved h 0 calls calls'
unfolding await_uninstall
await_uninstall-Moved scm h zero held calls = λ r calls' e. cc
await_uninstall-Moved scm h (suc rounds) held calls =
    of_status P (scm.status calls) _ _
      (λ _.
        of_status P held _ _ (λ _ r k e. ended (queried none ∷ calls) k (refl, omega arith) cc)
          λ s _.
            of_test P (is_stop_pending s.current_state) _ _
              (λ _ r k e.
                let m =
                  await_uninstall-Moved scm h rounds (some s) (slept 1000 ∷ queried none ∷ calls) r
                    k e in
                (omega (arith, m), omega (arith, m)))
              (λ _ r k e. ended (queried none ∷ calls) k (refl, omega arith) cc))
      (λ s _ r k e. ended (queried (some s) ∷ calls) k (refl, omega arith) cc)
  where
    P : Option (Option Queried × List ScCall) → Type 0
    P o =
        (r : Option Queried) (calls' : List ScCall) → o ≡ some (r, calls') → Moved h 0 calls calls'

    ended : (k k' : List ScCall) → Moved h 0 calls k → k ≡ k' → Moved h 0 calls k'
    ended k k' m e = subst (λ j. Moved h 0 calls j) e m

-- What a call of UnInstall has done: it has closed nothing, and opened the manager, and the service
-- where the test holds.
abbrev pub Leaves : Bool → List ScCall → Option (Bool × List ScCall) → Type 0
Leaves found calls o =
    (r : Bool) (calls' : List ScCall)
    → o ≡ some (r, calls')
    → ((h : Handle) → closes h calls' ≡ closes h calls)
      × (opens manager calls' ≡ opens manager calls + 1)
      × (found ≡ true → opens service calls' ≡ opens service calls + 1)

delete_service-Leaves :
    (scm : ScAnswers) (rounds : ℕ) (held : Option Queried) (calls : List ScCall) (done : Bool)
    (written : Option Queried) (found : Bool)
    → Leaves found calls (
        delete_service scm (
          await_uninstall scm rounds held
            (slept 1000 ∷ controlled_stop done written ∷ opened service ∷ opened manager ∷ calls)))
delete_service-Leaves scm rounds held calls done written found =
    elim (Option-cases (await_uninstall scm rounds held before)) [
      | inl e ↦ rw e (λ r calls' e'. cc)
      | inr ((w, k), e) ↦ rw e (λ r calls' e'.
          let m : (h : Handle) → Moved h 0 before k =
            λ h. await_uninstall-Moved scm h rounds held before w k e in
          let same_calls : deleted (scm.deletes k) ∷ k ≡ calls' = cc in
          subst
            (λ j.
              ((h : Handle) → closes h j ≡ closes h calls)
              × (opens manager j ≡ opens manager calls + 1)
              × (found ≡ true → opens service j ≡ opens service calls + 1))
            same_calls
            (λ h. omega (arith, m h), omega (arith, m manager), λ _. omega (arith, m service)))
    ]
  where
    before : List ScCall
    before = slept 1000 ∷ controlled_stop done written ∷ opened service ∷ opened manager ∷ calls

-- A call of UnInstall that opens the manager and returns has closed no handle: the manager's stays open,
-- and, where the service was found, the service's.
pub un_install-leaks :
    (scm : ScAnswers) (rounds : ℕ) (calls : List ScCall)
    → scm.opens manager calls ≡ true
    → Leaves (scm.opens service (opened manager ∷ calls)) calls (un_install scm rounds calls)
unfolding un_install
un_install-leaks scm rounds calls m = rw m (
    Bool_cases (Leaves (scm.opens service (opened manager ∷ calls)) calls)
      (scm.opens service (opened manager ∷ calls))
      (λ _. delete_service-Leaves scm rounds _ calls _ _ _)
      (λ n r calls' e.
        let same_calls : opened manager ∷ calls ≡ calls' = cc in
        subst
          (λ j.
            ((h : Handle) → closes h j ≡ closes h calls)
            × (opens manager j ≡ opens manager calls + 1)
            × (scm.opens service (opened manager ∷ calls) ≡ true
                → opens service j ≡ opens service calls + 1))
          same_calls (λ h. refl, omega arith, λ y. cc)))
