-- ===== src/Server/Messages.antt =====
-- The messages of Protos/Commons.proto, Tests.proto, Benchmark.proto and Admin.proto that the handlers read
-- and fill. Their wire format is protobuf's, and a parameter.
use fast_port.Prelude.{ℕ, Option, List}
use fast_port.Stats.Collector.{ServerMode, SessionInfoData}

pub record Header : Type 0 where
  pub request_id : ℕ
  pub timestamp_ms : ℕ

pub data ResultCode : Type 0 where
  unspecified ok error : ResultCode

pub record AdminStatusSummaryRequest : Type 0 where
  pub header : Header

pub record AdminStatusSummaryResponse : Type 0 where
  pub header : Header
  pub result : ResultCode
  pub server_uptime_ms : ℕ
  pub active_session_count : ℕ
  pub total_rx_bytes : ℕ
  pub total_tx_bytes : ℕ
  pub idle_disconnect_count : ℕ
  pub server_mode : ServerMode
  pub process_memory_bytes : ℕ
  pub process_cpu_percent : ℕ
  pub server_timestamp_ms : ℕ

pub record AdminSessionListRequest : Type 0 where
  pub header : Header
  pub offset : ℕ
  pub limit : ℕ

pub record AdminSessionListResponse : Type 0 where
  pub header : Header
  pub result : ResultCode
  pub total : ℕ
  pub offset : ℕ
  pub sessions : List SessionInfoData

pub record BenchmarkRequest : Type 0 where
  pub header : Header
  pub client_timestamp_ns : ℕ
  pub sequence : ℕ
  pub payload : List ℕ

pub record BenchmarkResponse : Type 0 where
  pub header : Header
  pub result : ResultCode
  pub client_timestamp_ns : ℕ
  pub server_recv_timestamp_ns : ℕ
  pub server_send_timestamp_ns : ℕ
  pub sequence : ℕ
  pub payload : List ℕ

-- The field `data` is left out: no handler reads or fills it.
pub record EchoRequest : Type 0 where
  pub header : Header
  pub data_str : List ℕ

pub record EchoResponse : Type 0 where
  pub header : Header
  pub result : ResultCode
  pub data_str : List ℕ

-- A message that a handler sends.
pub data Message : Type 0 where
  summary_response : AdminStatusSummaryResponse → Message
  session_list_response : AdminSessionListResponse → Message
  benchmark_response : BenchmarkResponse → Message
  echo_request : EchoRequest → Message
  echo_response : EchoResponse → Message

-- `ParseFromString` and `SerializeToArray`.
pub record Wire : Type 0 where
  pub parse_summary : List ℕ → Option AdminStatusSummaryRequest
  pub parse_session_list : List ℕ → Option AdminSessionListRequest
  pub parse_benchmark : List ℕ → Option BenchmarkRequest
  pub parse_echo : List ℕ → Option EchoRequest
  pub serialize : Message → List ℕ
