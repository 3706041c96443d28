-- ===== src/Server/Modes/Statements.antt =====
-- The statements of the calls of FastPortServer/IOCPServiceMode.cpp and FastPortServerRIO/RIOServiceMode.cpp,
-- and the objects that they make, start, stop and let go. The timer queue is the process's.
use fast_port.Prelude.{ℕ, ◌+◌, Bool, true, false, Option, none, some, List, if◌then◌else◌}
use fast_port.Timers.Queue.{TimerQueue}
use fast_port.Sessions.IdleChecker.{SessionIdleChecker, make_checker}
use fast_port.Sessions.IdleChecker
use fast_port.Stats.Sampler.{
  StatsSampler, Readings, Doubles, make_sampler, start_sampler, stop_sampler,
}
use fast_port.Services.Acceptor.{Acceptor, NetworkMode, ListenAnswers, PostAnswer, make_acceptor}
use fast_port.Services.Acceptor
use fast_port.Services.RioService.{RioService}
use fast_port.Services.RioService
use fast_port.Rio.Slices.{RioBufferManager}
use fast_port.Rio.Slices
use fast_port.Server.RioMode.{pool_size}

-- m_StatsSampler, and who it is.
pub record SamplerObject : Type 0 where
  pub id : ℕ
  pub sampler : StatsSampler

-- The collector has a pointer to the sampler, the handler a reference to the collector.
pub record CollectorObject : Type 0 where
  pub id : ℕ
  pub sampler : Option ℕ

pub record HandlerObject : Type 0 where
  pub id : ℕ
  pub collector : ℕ

-- `admin_pointer` is g_pAdminHandler or g_pRIOAdminHandler. The IOCP server has no service and buffers of
-- its own, the RIO server no checker.
pub record ServerMode : Type 0 where
  pub admin_pointer : Option ℕ
  pub idle_checker : Option SessionIdleChecker
  pub stats_sampler : Option SamplerObject
  pub stats_collector : Option CollectorObject
  pub admin_handler : Option HandlerObject
  pub acceptor : Option Acceptor
  pub rio_service : Option RioService
  pub rio_buffers : Option RioBufferManager
  pub running : Bool
  pub timers : TimerQueue
  pub next_object : ℕ

abbrev pub new_server : TimerQueue → ServerMode
new_server q = record {
  admin_pointer = none;
  idle_checker = none;
  stats_sampler = none;
  stats_collector = none;
  admin_handler = none;
  acceptor = none;
  rio_service = none;
  rio_buffers = none;
  running = false;
  timers = q;
  next_object = 1;
}

-- The guarded pairs of calls are one statement: `stop_idle_checker` stops and lets go, `shut_acceptor` and
-- `stop_rio_service` end an object that is then gone.
pub data Statement : Type 0 where
  create_acceptor : NetworkMode → Bool → ListenAnswers → List PostAnswer → Statement
  set_running make_idle_checker make_stats_sampler make_stats_collector make_admin_handler :
      Statement
  start_idle_checker : Bool → Statement
  start_stats_sampler : Bool → Readings → Statement
  store_pointer clear_pointer stop_idle_checker stop_stats_sampler : Statement
  reset_admin_handler reset_stats_collector reset_stats_sampler shut_acceptor : Statement
  make_rio_service make_rio_buffers stop_rio_service : Statement
  initialize_rio_service : Bool → Statement
  initialize_rio_buffers : Option ℕ → Option ℕ → Statement
  start_rio_service : ℕ → Statement

-- IOSocketAcceptor::Create, whose acceptor has no service yet.
unfoldable pub create : NetworkMode → Bool → ListenAnswers → List PostAnswer → Option Acceptor
create mode service_started listen posts =
    let (ok, a) = Acceptor.start false service_started listen posts (make_acceptor mode) in
    if ok then some a else none

abbrev pub is_some {ℓ} : {A : Type ℓ} → Option A → Bool
is_some none = false
is_some (some _) = true

abbrev pub id_of : Option SamplerObject → Option ℕ
id_of none = none
id_of (some o) = some o.id

abbrev pub id_or_null : Option CollectorObject → ℕ
id_or_null none = 0
id_or_null (some o) = o.id

-- Stop of a checker and of a sampler that is there, from a thread of no timer.
abbrev pub stop_checker :
    Option SessionIdleChecker → TimerQueue → Option SessionIdleChecker × TimerQueue
stop_checker none q = (none, q)
stop_checker (some c) q = let (c', q') = IdleChecker.stop false c q in (some c', q')

abbrev pub stop_sampler_object :
    Option SamplerObject → TimerQueue → Option SamplerObject × TimerQueue
stop_sampler_object none q = (none, q)
stop_sampler_object (some o) q =
    let (s, q') = stop_sampler false o.sampler q in (some (record o { sampler = s }), q')

-- A checker or a sampler that is let go stops: its destructor calls Stop.
module _ (doubles : Doubles) where
  abbrev pub start_checker :
      Bool → Option SessionIdleChecker → TimerQueue → Option SessionIdleChecker × TimerQueue
  start_checker created none q = (none, q)
  start_checker created (some c) q = let (c', q') = IdleChecker.start created c q in (some c', q')

  abbrev pub start_sampler_object :
      Bool → Readings → Option SamplerObject → TimerQueue → Option SamplerObject × TimerQueue
  start_sampler_object created r none q = (none, q)
  start_sampler_object created r (some o) q =
      let (s, q') = start_sampler doubles created r o.sampler q in
      (some (record o { sampler = s }), q')

  abbrev pub initialized : Bool → Option RioService → Option RioService
  initialized made none = none
  initialized made (some v) = some (RioService.initialize made v).1

  abbrev pub with_block : Option ℕ → Option ℕ → Option RioBufferManager → Option RioBufferManager
  with_block address id none = none
  with_block address id (some m) = some (Slices.initialize address id pool_size m).1

  abbrev pub with_threads : ℕ → Option RioService → Option RioService
  with_threads n none = none
  with_threads n (some v) = some (RioService.start n v).1

  unfoldable pub execute : Statement → ServerMode → ServerMode
  execute (create_acceptor mode started listen posts) s = record s {
    acceptor = create mode started listen posts;
  }
  execute set_running s = record s { running = is_some s.acceptor }
  execute make_idle_checker s = record s {
    idle_checker = some (make_checker true 1000 60000);
    timers = (stop_checker s.idle_checker s.timers).1;
  }
  execute (start_idle_checker created) s =
      let (c, q) = start_checker created s.idle_checker s.timers in
      record s { idle_checker = c; timers = q }
  execute make_stats_sampler s = record s {
    stats_sampler = some (record { id = s.next_object; sampler = make_sampler true 1000 });
    timers = (stop_sampler_object s.stats_sampler s.timers).1;
    next_object = s.next_object + 1;
  }
  execute (start_stats_sampler created r) s =
      let (o, q) = start_sampler_object created r s.stats_sampler s.timers in
      record s { stats_sampler = o; timers = q }
  execute make_stats_collector s = record s {
    stats_collector = some (record { id = s.next_object; sampler = id_of s.stats_sampler });
    next_object = s.next_object + 1;
  }
  execute make_admin_handler s = record s {
    admin_handler = some (record { id = s.next_object; collector = id_or_null s.stats_collector });
    next_object = s.next_object + 1;
  }
  execute store_pointer s = record s { admin_pointer = stored s.admin_handler }
    where
      stored : Option HandlerObject → Option ℕ
      stored none = none
      stored (some h) = some h.id
  execute clear_pointer s = record s { admin_pointer = none }
  execute stop_idle_checker s = record s {
    idle_checker = none;
    timers = (stop_checker s.idle_checker s.timers).1;
  }
  execute stop_stats_sampler s =
      let (o, q) = stop_sampler_object s.stats_sampler s.timers in
      record s { stats_sampler = o; timers = q }
  execute reset_admin_handler s = record s { admin_handler = none }
  execute reset_stats_collector s = record s { stats_collector = none }
  execute reset_stats_sampler s = record s {
    stats_sampler = none;
    timers = (stop_sampler_object s.stats_sampler s.timers).1;
  }
  execute shut_acceptor s = record s { acceptor = none }
  execute make_rio_service s = record s {
    rio_service = some (record { has_queue = false; is_running = false; worker_threads = 0 });
  }
  execute (initialize_rio_service made) s = record s {
    rio_service = initialized made s.rio_service;
  }
  execute make_rio_buffers s = record s { rio_buffers = some Slices.make }
  execute (initialize_rio_buffers address id) s = record s {
    rio_buffers = with_block address id s.rio_buffers;
  }
  execute (start_rio_service n) s = record s { rio_service = with_threads n s.rio_service }
  execute stop_rio_service s = record s { rio_service = none }
