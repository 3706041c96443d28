-- ===== src/ServiceMode/Installer/Handles.antt =====
-- How often the installer of LibCommons/ServiceMode.cpp opens and closes a handle, and the splits on
-- the system's answers.
pub mod Stopping
pub mod Uninstalling
use fast_port.Prelude.{
  ℕ, zero, suc, ◌+◌, ◌≡◌, refl, subst, Bool, true, false, ◌&&◌, Option, none, some, List, [], ◌∷◌,
  arith, Bool_cases, Option-cases, inl, inr,
}
use fast_port.ServiceMode.Installer.{
  Queried, Handle, ScCall, opened, closed, queried, controlled_stop, asked_config, slept, deleted,
  manager, service, ScAnswers, close_both, is_stopped, is_stop_pending, install, await_uninstall,
  delete_service, un_install,
}
use fast_port.ServiceMode.Installer.Stopping.{
  Wait, out_of_rounds, leaves, goes_on, timed_out, paused_for, await_pending, await_stopped, finish,
  or_held, send_stop, stop,
}

abbrev pub same : Handle → Handle → ℕ
same manager manager = 1
same service service = 1
same _ _ = 0

-- How often a handle was opened, and closed.
abbrev pub opens : Handle → List ScCall → ℕ
opens h [] = 0
opens h (opened k ∷ calls) = same h k + opens h calls
opens h (_ ∷ calls) = opens h calls

abbrev pub closes : Handle → List ScCall → ℕ
closes h [] = 0
closes h (closed k ∷ calls) = same h k + closes h calls
closes h (_ ∷ calls) = closes h calls

-- Each handle that was opened since was closed.
abbrev pub IsBalanced : List ScCall → List ScCall → Type 0
IsBalanced calls calls' =
    (h : Handle) → opens h calls' + closes h calls ≡ closes h calls' + opens h calls

pub one_each : (h : Handle) → same h manager + same h service ≡ 1
one_each manager = refl
one_each service = refl

-- Nothing was opened, and `n` handles of this kind were closed.
abbrev pub Moved : Handle → ℕ → List ScCall → List ScCall → Type 0
Moved h n calls calls' = (opens h calls' ≡ opens h calls) × (closes h calls' ≡ closes h calls + n)

pub close_both-Moved :
    (h : Handle) (calls calls' : List ScCall)
    → Moved h 0 calls calls'
    → Moved h 1 calls (close_both calls')
close_both-Moved h calls calls' m = (omega (arith, m), omega (arith, m, one_each h))

-- A property of both ways on holds of the code that branches on an answer.
pub of_status {ℓ κ} :
    {A : Type ℓ} (P : A → Type κ) (o : Option Queried) (x : A) (f : Queried → A)
    → (o ≡ none → P x)
    → ((s : Queried) → o ≡ some s → P (f s))
    → P (elim o [ none ↦ x | some s ↦ f s ])
of_status P none x f p q = p refl
of_status P (some s) x f p q = q s refl

pub of_test {ℓ κ} :
    {A : Type ℓ} (P : A → Type κ) (b : Bool) (x y : A)
    → (b ≡ true → P x)
    → (b ≡ false → P y)
    → P (elim b [ true ↦ x | false ↦ y ])
of_test P true x y p q = p refl
of_test P false x y p q = q refl
