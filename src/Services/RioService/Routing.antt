-- ===== src/Services/RioService/Routing.antt =====
-- On one thread, each session sees its own completions, in the order of the queue, and no other session's.
use fast_port.Prelude.{
  ℕ, zero, suc, ◌≡◌, ◌∙◌, refl, sym, ap, Option, none, some, List, [], ◌∷◌, ◌++◌, ◌==◌,
  if◌then◌else◌, arith,
}
use fast_port.Buffers.Interface.{IBuffer}
use fast_port.Rio.Session.State.{RioSession, RioEnv}
use fast_port.Rio.Session.Receiving.{on_rio_io_completed}
use fast_port.Services.RioService.{
  RioContext, RioResult, Dequeued, results, corrupt_cq, modify_at, deliver, process_result,
  process_results, worker_loop,
}

-- The session at a place, or the one given.
abbrev pub session_at : {S : Type 0} → S → ℕ → List S → S
session_at d n [] = d
session_at d zero (s ∷ ss) = s
session_at d (suc n) (s ∷ ss) = session_at d n ss

abbrev pub Inside : {S : Type 0} → ℕ → List S → Type 0
Inside n [] = ⊥
Inside zero (s ∷ ss) = Unit
Inside (suc n) (s ∷ ss) = Inside n ss

Inside-modify_at :
    {S : Type 0} (n m : ℕ) (f : S → S) (ss : List S) → Inside n ss → Inside n (modify_at m f ss)
Inside-modify_at n m f [] h = absurd h
Inside-modify_at zero zero f (s ∷ ss) h = h
Inside-modify_at zero (suc m) f (s ∷ ss) h = h
Inside-modify_at (suc n) zero f (s ∷ ss) h = h
Inside-modify_at (suc n) (suc m) f (s ∷ ss) h = Inside-modify_at n m f ss h

session_at-modify_at :
    {S : Type 0} (d : S) (n m : ℕ) (f : S → S) (ss : List S)
    → Inside n ss
    → session_at d n (modify_at m f ss)
      ≡ (if m == n then f (session_at d n ss) else session_at d n ss)
session_at-modify_at d n m f [] h = absurd h
session_at-modify_at d zero zero f (s ∷ ss) h = refl
session_at-modify_at d zero (suc m) f (s ∷ ss) h = ground arith
session_at-modify_at d (suc n) zero f (s ∷ ss) h = ground arith
session_at-modify_at d (suc n) (suc m) f (s ∷ ss) h =
    let rest = session_at-modify_at d n m f ss h in ground (arith, rest)

module _ (I : IBuffer) (env : RioEnv I.Buf) where
  open I use {Buf}

  -- A result, for one session: its completion, or nothing.
  abbrev pub own : ℕ → RioResult → RioSession Buf → RioSession Buf
  own n r s = elim r.context [
    | none ↦ s
    | some context ↦ elim context.session [
      | none ↦ s
      | some m ↦
          if m == n
          then on_rio_io_completed I env r.status_ok r.bytes_transferred context.op_type s
          else s
    ]
  ]

  abbrev pub own_all : ℕ → List RioResult → RioSession Buf → RioSession Buf
  own_all n [] s = s
  own_all n (r ∷ rs) s = own_all n rs (own n r s)

  -- The results up to a corrupt queue.
  abbrev pub taken : List Dequeued → List RioResult
  taken [] = []
  taken (results rs ∷ ds) = rs ++ taken ds
  taken (corrupt_cq ∷ ds) = []

  process_result-own :
      (d : RioSession Buf) (n : ℕ) (r : RioResult) (ss : List (RioSession Buf))
      → Inside n ss
      → (session_at d n (process_result I env r ss) ≡ own n r (session_at d n ss))
        × Inside n (process_result I env r ss)
  unfolding process_result
  process_result-own d n r ss h = go r.context
    where
      go :
          (c : Option RioContext)
          → let t = elim c as (λ x. List (RioSession Buf)) [
            | none ↦ ss
            | some context ↦ deliver I env r context.op_type context.session ss
          ] in
            (session_at d n t ≡ elim c as (λ x. RioSession Buf) [
              | none ↦ session_at d n ss
              | some context ↦ elim context.session as (λ x. RioSession Buf) [
                | none ↦ session_at d n ss
                | some m ↦
                    if m == n
                    then on_rio_io_completed I env r.status_ok r.bytes_transferred context.op_type
                        (session_at d n ss)
                    else session_at d n ss
              ]
            ])
            × Inside n t
      go none = (refl, h)
      go (some context) = named context.session
        where
          f : RioSession Buf → RioSession Buf
          f = on_rio_io_completed I env r.status_ok r.bytes_transferred context.op_type

          named :
              (o : Option ℕ)
              → let t = deliver I env r context.op_type o ss in
                (session_at d n t ≡ elim o as (λ x. RioSession Buf) [
                  | none ↦ session_at d n ss
                  | some m ↦ if m == n then f (session_at d n ss) else session_at d n ss
                ])
                × Inside n t
          named none = (refl, h)
          named (some m) = (session_at-modify_at d n m f ss h, Inside-modify_at n m f ss h)

  process_results-own :
      (d : RioSession Buf) (n : ℕ) (rs : List RioResult) (ss : List (RioSession Buf))
      → Inside n ss
      → (session_at d n (process_results I env rs ss) ≡ own_all n rs (session_at d n ss))
        × Inside n (process_results I env rs ss)
  unfolding process_results
  process_results-own d n [] ss h = (refl, h)
  process_results-own d n (r ∷ rs) ss h =
      let one = process_result-own d n r ss h in
      let rest = process_results-own d n rs (process_result I env r ss) one.1 in
      (rest.0 ∙ ap (own_all n rs) one.0, rest.1)

  own_all-append :
      (n : ℕ) (qs rs : List RioResult) (s : RioSession Buf)
      → own_all n (qs ++ rs) s ≡ own_all n rs (own_all n qs s)
  own_all-append n [] rs s = refl
  own_all-append n (q ∷ qs) rs s = own_all-append n qs rs (own n q s)

  -- The state of a session behind the loop of one thread is what its own results, up to a corrupt queue and in the
  -- order of the queue, make of it: a result for one session changes no other, and none is lost.
  pub worker_loop-own :
      (d : RioSession Buf) (n : ℕ) (ds : List Dequeued) (ss : List (RioSession Buf))
      → Inside n ss
      → session_at d n (worker_loop I env ds ss) ≡ own_all n (taken ds) (session_at d n ss)
  unfolding worker_loop
  worker_loop-own d n [] ss h = refl
  worker_loop-own d n (results rs ∷ ds) ss h =
      let one = process_results-own d n rs ss h in
      worker_loop-own d n ds (process_results I env rs ss) one.1
      ∙ ap (own_all n (taken ds)) one.0
      ∙ sym (own_all-append n rs (taken ds) (session_at d n ss))
  worker_loop-own d n (corrupt_cq ∷ ds) ss h = refl
