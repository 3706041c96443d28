-- ===== src/Server/RioMode.antt =====
-- The function that makes a session for an accepted socket, in OnStarted of
-- FastPortServerRIO/RIOServiceMode.cpp. `memory_at` is the memory of a slice; the answers of the two
-- allocations are not looked at, so a slice that was not given stays as it was made, empty.
pub mod Exhaustion
use fast_port.Prelude.{ℕ, zero, suc, ◌*◌, Bool, true, false, Option, none, some, List}
use fast_port.Buffers.External.{ExternalCircleBufferQueue}
use fast_port.Buffers.External
use fast_port.Buffers.Interface.Instances.{external}
use fast_port.Rio.Slices.{RioBufferSlice, RioBufferManager, make, initialize, allocate_slice}
use fast_port.Rio.Session.State.{RioSession, RioEnv, new_session}
use fast_port.Rio.Session.Receiving.{initialize_session}

-- C_RIO_RECV_BUFFER_SIZE and C_RIO_SEND_BUFFER_SIZE.
abbrev pub recv_buffer_size : ℕ
recv_buffer_size = 16384

abbrev pub send_buffer_size : ℕ
send_buffer_size = 16384

-- 64 MB.
abbrev pub pool_size : ℕ
pool_size = 67108864

-- The manager behind Initialize, with the address and the id that the system gave.
abbrev pub started_pool : ℕ → ℕ → RioBufferManager
started_pool address id = (initialize (some address) (some id) pool_size make).1

abbrev pub empty_slice : RioBufferSlice
empty_slice = record { buffer_id = 0; offset = 0; len = 0; address = 0 }

abbrev pub or_empty : Option RioBufferSlice → RioBufferSlice
or_empty none = empty_slice
or_empty (some s) = s

module _ (env : RioEnv ExternalCircleBufferQueue) (memory_at : RioBufferSlice → List ℕ) where
  -- The session, with its receive loop started, and the manager.
  unfoldable pub create_session :
      Bool → RioBufferManager → RioSession ExternalCircleBufferQueue × RioBufferManager
  create_session has_queue m =
      let (received, m') = allocate_slice recv_buffer_size m in
      let (sent, m'') = allocate_slice send_buffer_size m' in
      let session =
        new_session has_queue (or_empty received) (or_empty sent)
          (External.make (memory_at (or_empty received)))
          (External.make (memory_at (or_empty sent))) in
      ((initialize_session external env session).1, m'')

  -- The manager behind a number of connections. No slice comes back when a session ends.
  unfoldable pub connections : ℕ → RioBufferManager → RioBufferManager
  connections zero m = m
  connections (suc n) m = (create_session true (connections n m)).1
