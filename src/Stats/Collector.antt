-- ===== src/Stats/Collector.antt =====
-- ServerStatsCollector of LibNetworks/ServerStatsCollector.cpp. Counters have 64 bits, numbers of sessions
-- 32. The providers' answers, the two clocks and the sampler's values are arguments; the percentage is
-- whatever the sampler holds.
pub mod Pages
use fast_port.Prelude.{
  ℕ, ◌+◌, ◌-◌, ◌≤◌, Bool, true, false, Option, none, some, List, [], ◌∷◌, ◌++◌, length, take, drop,
  ltb, leb, ◌==◌, if◌then◌else◌, ◌||◌, add32, add64, sub64, to_u32, min,
}

pub data ServerMode : Type 0 where
  unknown iocp rio : ServerMode

-- A session of the snapshot, with what the casts to IIdleAware and to INetworkSession give.
pub record SessionStats : Type 0 where
  pub last_recv_time_ms : Option ℕ
  pub session_id : Option ℕ
  pub total_rx_bytes : ℕ
  pub total_tx_bytes : ℕ

-- A provider: none was given, it throws, or it answers.
pub data Provided (A : Type 0) : Type 0 where
  absent throws : Provided A
  answers : A → Provided A

-- A snapshot may hold null pointers.
abbrev pub Snapshot : Type 0
Snapshot = List (Option SessionStats)

pub record SummaryData : Type 0 where
  pub uptime_ms : ℕ
  pub active_session_count : ℕ
  pub total_rx_bytes : ℕ
  pub total_tx_bytes : ℕ
  pub idle_disconnect_count : ℕ
  pub server_mode : ServerMode
  pub process_memory_bytes : ℕ
  pub process_cpu_percent : ℕ
  pub server_timestamp_ms : ℕ

pub record SessionInfoData : Type 0 where
  pub session_id : ℕ
  pub last_recv_ms : ℕ
  pub rx_bytes : ℕ
  pub tx_bytes : ℕ

pub record SessionListData : Type 0 where
  pub total : ℕ
  pub offset : ℕ
  pub sessions : List SessionInfoData

abbrev pub max_limit : ℕ
max_limit = 1000

abbrev pub value_or : {A : Type 0} → A → Provided A → A
value_or d absent = d
value_or d throws = d
value_or d (answers a) = a

abbrev pub or_0 : Option ℕ → ℕ
or_0 none = 0
or_0 (some n) = n

-- The loop over the sessions, which goes on from the sums so far.
unfoldable pub add_rx : ℕ → Snapshot → ℕ
add_rx sum [] = sum
add_rx sum (none ∷ ss) = add_rx sum ss
add_rx sum (some s ∷ ss) = add_rx (add64 sum s.total_rx_bytes) ss

unfoldable pub add_tx : ℕ → Snapshot → ℕ
add_tx sum [] = sum
add_tx sum (none ∷ ss) = add_tx sum ss
add_tx sum (some s ∷ ss) = add_tx (add64 sum s.total_tx_bytes) ss

-- `sampler` is the cached CPU share and memory, if a sampler was given.
unfoldable pub snapshot_summary :
    ServerMode → ℕ → ℕ → ℕ → Provided Snapshot → Provided ℕ → Option (ℕ × ℕ) → SummaryData
snapshot_summary server_mode start_ms steady_ms wall_ms sessions idle sampler =
    let snapshot = value_or [] sessions in
    record {
      uptime_ms = sub64 steady_ms start_ms;
      active_session_count = to_u32 (length snapshot);
      total_rx_bytes = add_rx 0 snapshot;
      total_tx_bytes = add_tx 0 snapshot;
      idle_disconnect_count = value_or 0 idle;
      server_mode = server_mode;
      process_memory_bytes = elim sampler [ none ↦ 0 | some (cpu, memory) ↦ memory ];
      process_cpu_percent = elim sampler [ none ↦ 0 | some (cpu, memory) ↦ cpu ];
      server_timestamp_ms = wall_ms;
    }

unfoldable pub clamp_limit : ℕ → ℕ
clamp_limit limit = if (limit == 0) || ltb max_limit limit then max_limit else limit

abbrev pub info : SessionStats → SessionInfoData
info s = record {
  session_id = or_0 s.session_id;
  last_recv_ms = or_0 s.last_recv_time_ms;
  rx_bytes = s.total_rx_bytes;
  tx_bytes = s.total_tx_bytes;
}

unfoldable pub infos : Snapshot → List SessionInfoData
infos [] = []
infos (none ∷ ss) = infos ss
infos (some s ∷ ss) = info s ∷ infos ss

-- The part behind the provider. An end that wrapped below the offset would make `reserve` throw; here it
-- gives no sessions, and `Pages` is about snapshots that are too short for it.
unfoldable pub page : ℕ → ℕ → Snapshot → SessionListData
page offset limit snapshot =
    let total = to_u32 (length snapshot) in
    if leb total offset
    then record { total = total; offset = offset; sessions = [] }
    else (let end_idx = min (add32 offset limit) total in
        record {
          total = total;
          offset = offset;
          sessions = infos (take (end_idx - offset) (drop offset snapshot));
        })

unfoldable pub snapshot_sessions : Provided Snapshot → ℕ → ℕ → SessionListData
snapshot_sessions absent offset limit = page offset (clamp_limit limit) []
snapshot_sessions throws offset limit = record { total = 0; offset = offset; sessions = [] }
snapshot_sessions (answers snapshot) offset limit = page offset (clamp_limit limit) snapshot
