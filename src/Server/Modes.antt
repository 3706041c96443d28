-- ===== src/Server/Modes.antt =====
-- The life of a server: OnStarted, OnStopped and OnShutdown of FastPortServer/IOCPServiceMode.cpp and
-- FastPortServerRIO/RIOServiceMode.cpp, statement by statement over the objects that the server owns.
-- An object is known by a number, so that a pointer to one that is gone can be told. What the system
-- answers is an argument.
pub mod Statements
pub mod Providers
pub mod Pointer
pub mod Ending
mod Tests
use fast_port.Prelude.{ℕ, Bool, true, false, Option, none, some, List, [], ◌∷◌, ◌++◌, if◌then◌else◌}
use fast_port.Services.Acceptor.{iocp, rio, ListenAnswers, PostAnswer}
use fast_port.Stats.Sampler.{Readings, Doubles}
use fast_port.Server.Modes.Statements.{
  ServerMode, Statement, create_acceptor, set_running, make_idle_checker, start_idle_checker,
  make_stats_sampler, start_stats_sampler, make_stats_collector, make_admin_handler, store_pointer,
  clear_pointer, stop_idle_checker, stop_stats_sampler, reset_admin_handler, reset_stats_collector,
  reset_stats_sampler, shut_acceptor, make_rio_service, initialize_rio_service, make_rio_buffers,
  initialize_rio_buffers, start_rio_service, stop_rio_service, execute,
}

pub data Kind : Type 0 where
  iocp_server rio_server : Kind

-- The answers to OnStarted: whether the service of the acceptor started, those to its socket and its first
-- accepts, whether the timers were made, what the first sample reads, and for the RIO server whether
-- the extension loads, the completion queue, the block and its registration are made.
pub record StartAnswers : Type 0 where
  pub service_started : Bool
  pub listen : ListenAnswers
  pub posts : List PostAnswer
  pub checker_timer : Bool
  pub sampler_timer : Bool
  pub readings : Readings
  pub extension_loaded : Bool
  pub queue_made : Bool
  pub block : Option ℕ
  pub registered : Option ℕ

-- The part that the two have in common: the statistics and the handler of the administrator's packets.
abbrev pub start_statistics : StartAnswers → List Statement
start_statistics a =
    make_stats_sampler
    ∷ start_stats_sampler a.sampler_timer a.readings
    ∷ make_stats_collector
    ∷ make_admin_handler
    ∷ store_pointer
    ∷ []

abbrev pub both : Option ℕ → Option ℕ → Bool
both (some _) (some _) = true
both _ _ = false

-- OnStarted of IOCPServiceMode.
abbrev pub iocp_started : StartAnswers → List Statement
iocp_started a =
    create_acceptor iocp a.service_started a.listen a.posts
    ∷ set_running
    ∷ make_idle_checker
    ∷ start_idle_checker a.checker_timer
    ∷ start_statistics a

-- OnStarted of RIOServiceMode, up to the step that fails.
abbrev pub rio_started : StartAnswers → List Statement
rio_started a =
    if a.extension_loaded
    then make_rio_service
      ∷ initialize_rio_service a.queue_made
      ∷ (if a.queue_made
          then make_rio_buffers
            ∷ initialize_rio_buffers a.block a.registered
            ∷ (if both a.block a.registered
                then create_acceptor rio a.service_started a.listen a.posts
                  ∷ start_rio_service 1
                  ∷ set_running
                  ∷ start_statistics a
                else [])
          else [])
    else []

unfoldable pub on_started : Kind → StartAnswers → List Statement
on_started iocp_server a = iocp_started a
on_started rio_server a = rio_started a

-- What OnStopped and OnShutdown end: the checker and the statistics, or the statistics.
abbrev pub end_statistics : List Statement
end_statistics =
    stop_stats_sampler ∷ reset_admin_handler ∷ reset_stats_collector ∷ reset_stats_sampler ∷ []

abbrev pub iocp_stopped : List Statement
iocp_stopped = clear_pointer ∷ stop_idle_checker ∷ end_statistics

abbrev pub rio_stopped : List Statement
rio_stopped = clear_pointer ∷ end_statistics ++ (stop_rio_service ∷ [])

unfoldable pub on_stopped : Kind → List Statement
on_stopped iocp_server = iocp_stopped
on_stopped rio_server = rio_stopped

abbrev pub iocp_shutdown : List Statement
iocp_shutdown = clear_pointer ∷ stop_idle_checker ∷ end_statistics ++ (shut_acceptor ∷ [])

abbrev pub rio_shutdown : List Statement
rio_shutdown = clear_pointer ∷ end_statistics ++ (shut_acceptor ∷ [])

unfoldable pub on_shutdown : Kind → List Statement
on_shutdown iocp_server = iocp_shutdown
on_shutdown rio_server = rio_shutdown

-- The calls of a service on its server.
pub data Call : Type 0 where
  started : StartAnswers → Call
  stopped shut : Call

abbrev pub statements : Kind → Call → List Statement
statements kind (started a) = on_started kind a
statements kind stopped = on_stopped kind
statements kind shut = on_shutdown kind

module _ (doubles : Doubles) where
  unfoldable pub run : List Statement → ServerMode → ServerMode
  run [] s = s
  run (c ∷ cs) s = run cs (execute doubles c s)
