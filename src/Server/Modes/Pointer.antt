-- ===== src/Server/Modes/Pointer.antt =====
-- The global pointer to the handler of the administrator's packets, in FastPortServer/IOCPServiceMode.cpp and
-- FastPortServerRIO/RIOServiceMode.cpp: whether what it points to is there.
use fast_port.Prelude.{
  ℕ, ◌≡◌, refl, sym, subst, Bool, true, false, Option, none, some, List, [], ◌∷◌, ◌++◌, Bool_cases,
}
use fast_port.Timers.Queue.{TimerQueue}
use fast_port.Stats.Sampler.{Doubles}
use fast_port.Services.Acceptor.{iocp, rio}
use fast_port.Server.Modes.Statements.{
  SamplerObject, CollectorObject, HandlerObject, ServerMode, new_server, Statement, create_acceptor,
  set_running, make_idle_checker, start_idle_checker, make_rio_service, initialize_rio_service,
  make_rio_buffers, initialize_rio_buffers, start_rio_service, execute,
}
use fast_port.Server.Modes.{
  Kind, iocp_server, rio_server, StartAnswers, start_statistics, both, on_started, on_stopped,
  on_shutdown, Call, started, stopped, shut, statements, run,
}

-- A pointer that is not null is that of the handler, whose collector is there, with its sampler.
abbrev pub Reaches :
    Option ℕ → Option HandlerObject → Option CollectorObject → Option SamplerObject → Type 0
Reaches none _ _ _ = Unit
Reaches (some p) (some h) (some c) (some o) =
    (p ≡ h.id) × (h.collector ≡ c.id) × (c.sampler ≡ some o.id)
Reaches (some p) _ _ _ = ⊥

abbrev pub IsSafe : ServerMode → Type 0
IsSafe s = Reaches s.admin_pointer s.admin_handler s.stats_collector s.stats_sampler

-- A server is started when it was not, or has been stopped or shut down since.
abbrev pub AreProper : Bool → List Call → Type 0
AreProper on [] = Unit
AreProper on (started a ∷ calls) = (on ≡ false) × AreProper true calls
AreProper on (stopped ∷ calls) = AreProper false calls
AreProper on (shut ∷ calls) = AreProper false calls

abbrev pub history : Kind → List Call → List Statement
history kind [] = []
history kind (c ∷ calls) = statements kind c ++ history kind calls

null_IsSafe : (s : ServerMode) → s.admin_pointer ≡ none → IsSafe s
null_IsSafe s e =
    subst (λ p. Reaches p s.admin_handler s.stats_collector s.stats_sampler) (sym e) tt

module _ (doubles : Doubles) where
  -- A property of every state that a list of statements goes through.
  abbrev pub Throughout : (ServerMode → Type 0) → List Statement → ServerMode → Type 0
  Throughout P [] s = P s
  Throughout P (c ∷ cs) s = P s × Throughout P cs (execute doubles c s)

  Throughout-append :
      (P : ServerMode → Type 0) (xs ys : List Statement) (s : ServerMode)
      → Throughout P xs s
      → Throughout P ys (run doubles xs s)
      → Throughout P (xs ++ ys) s
  unfolding run
  Throughout-append P [] ys s h k = k
  Throughout-append P (x ∷ xs) ys s h k = (h.0, Throughout-append P xs ys _ h.1 k)

  start_statistics-IsSafe :
      (a : StartAnswers) (s : ServerMode)
      → s.admin_pointer ≡ none
      → Throughout IsSafe (start_statistics a) s
  unfolding execute
  start_statistics-IsSafe a s e = rw e (tt, (tt, (tt, (tt, (tt, (refl, refl, refl))))))

  on_started-IsSafe :
      (kind : Kind) (a : StartAnswers) (s : ServerMode)
      → s.admin_pointer ≡ none
      → Throughout IsSafe (on_started kind a) s
  unfolding on_started execute
  on_started-IsSafe iocp_server a s e =
      let n = null_IsSafe s e in
      let s1 = execute doubles (create_acceptor iocp a.service_started a.listen a.posts) s in
      let s2 = execute doubles make_idle_checker (execute doubles set_running s1) in
      let s3 = execute doubles (start_idle_checker a.checker_timer) s2 in
      (n, (n, (n, (n, start_statistics-IsSafe a s3 e))))
  on_started-IsSafe rio_server a s e =
      let n = null_IsSafe s e in
      let s1 = execute doubles make_rio_service s in
      let s2 = execute doubles (initialize_rio_service a.queue_made) s1 in
      let s3 = execute doubles make_rio_buffers s2 in
      let s4 = execute doubles (initialize_rio_buffers a.block a.registered) s3 in
      let s5 = execute doubles (create_acceptor rio a.service_started a.listen a.posts) s4 in
      let s6 = execute doubles set_running (execute doubles (start_rio_service 1) s5) in
      Bool_cases (λ (cs : List Statement). Throughout IsSafe cs s) a.extension_loaded
        (λ _.
          let listening =
            Bool_cases (λ (cs : List Statement). Throughout IsSafe cs s4)
              (both a.block a.registered)
              {x = create_acceptor rio a.service_started a.listen a.posts
                ∷ start_rio_service 1
                ∷ set_running
                ∷ start_statistics a}
              {y = []} (λ _. (n, (n, (n, start_statistics-IsSafe a s6 e)))) (λ _. n) in
          (
            n,
            (
              n,
              Bool_cases (λ (cs : List Statement). Throughout IsSafe cs s2) a.queue_made {y = []}
                  (λ _. (n, (n, listening))) (λ _. n),
            ),
          ))
        (λ _. n)

  on_stopped-IsSafe :
      (kind : Kind) (s : ServerMode) → IsSafe s → Throughout IsSafe (on_stopped kind) s
  unfolding on_stopped execute
  on_stopped-IsSafe iocp_server s h = (h, (tt, (tt, (tt, (tt, (tt, tt))))))
  on_stopped-IsSafe rio_server s h = (h, (tt, (tt, (tt, (tt, (tt, tt))))))

  on_shutdown-IsSafe :
      (kind : Kind) (s : ServerMode) → IsSafe s → Throughout IsSafe (on_shutdown kind) s
  unfolding on_shutdown execute
  on_shutdown-IsSafe iocp_server s h = (h, (tt, (tt, (tt, (tt, (tt, (tt, tt)))))))
  on_shutdown-IsSafe rio_server s h = (h, (tt, (tt, (tt, (tt, (tt, tt))))))

  ended-null :
      (kind : Kind) (s : ServerMode)
      → ((run doubles (on_stopped kind) s).admin_pointer ≡ none)
        × ((run doubles (on_shutdown kind) s).admin_pointer ≡ none)
  unfolding run on_stopped on_shutdown execute
  ended-null iocp_server s = (refl, refl)
  ended-null rio_server s = (refl, refl)

  -- The last of the states.
  Throughout-last :
      (P : ServerMode → Type 0) (cs : List Statement) (s : ServerMode)
      → Throughout P cs s
      → P (run doubles cs s)
  unfolding run
  Throughout-last P [] s h = h
  Throughout-last P (c ∷ cs) s h = Throughout-last P cs _ h.1

  history-IsSafe :
      (kind : Kind) (calls : List Call) (on : Bool) (s : ServerMode)
      → AreProper on calls
      → IsSafe s
      → (on ≡ false → s.admin_pointer ≡ none)
      → Throughout IsSafe (history kind calls) s
  history-IsSafe kind [] on s p h n = h
  history-IsSafe kind (started a ∷ calls) on s p h n =
      let t = on_started-IsSafe kind a s (n p.0) in
      Throughout-append IsSafe (on_started kind a) (history kind calls) s t (
        history-IsSafe kind calls true _ p.1 (Throughout-last IsSafe (on_started kind a) s t)
          (λ e. cc))
  history-IsSafe kind (stopped ∷ calls) on s p h n =
      let t = on_stopped-IsSafe kind s h in
      Throughout-append IsSafe (on_stopped kind) (history kind calls) s t (
        history-IsSafe kind calls false _ p (Throughout-last IsSafe (on_stopped kind) s t)
          (λ _. (ended-null kind s).0))
  history-IsSafe kind (shut ∷ calls) on s p h n =
      let t = on_shutdown-IsSafe kind s h in
      Throughout-append IsSafe (on_shutdown kind) (history kind calls) s t (
        history-IsSafe kind calls false _ p (Throughout-last IsSafe (on_shutdown kind) s t)
          (λ _. (ended-null kind s).1))

  -- Behind every statement of every history of a new server, in which it is started only when it was not or
  -- has ended since, and whatever the system answers: the global pointer is null, or it is that of the
  -- handler that the server owns, whose collector and sampler are there.
  pub pointer-IsSafe :
      (kind : Kind) (calls : List Call) (q : TimerQueue)
      → AreProper false calls
      → Throughout IsSafe (history kind calls) (new_server q)
  pointer-IsSafe kind calls q p = history-IsSafe kind calls false (new_server q) p tt (λ _. refl)
