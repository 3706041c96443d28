-- ===== src/Lib.antt =====
-- FastPort: a network engine for Windows, over completion ports (LibNetworks) and over registered I/O
-- (LibNetworksRIO). A session owns a receive and a send buffer; the framer cuts the receive buffer's
-- bytes into packets; a message is serialised into the send buffer and sent from there.
--
-- Prelude          shared helpers: tests, lists, machine words.
-- Buffers          LibCommons/IBuffer.ixx as an interface with laws (Buffers/Interface), its instances
--                  LibCommons/CircleBufferQueue.ixx (Buffers/Circle) and
--                  LibCommons/ExternalCircleBufferQueue.ixx (Buffers/External), and the byte queue that
--                  they implement (Buffers/Fifo). Write, Pop, AllocateWrite and the others are `write`,
--                  `pop`, `allocate_write` on a record of the storage and the indices.
-- Packets          LibNetworks/Packet.ixx (Packets/Packet), LibNetworks/PacketFramer.ixx
--                  (Packets/Framer), and the grammar of the byte stream (Packets/Stream).
-- Sessions         LibNetworks/IOSession.cpp: the gathering writer of SendMessage (Sessions/Gather), and
--                  the session itself (Sessions/IoSession): its state and surroundings (State), the end
--                  of a session (Disconnect), posting of receives (Posting), sending (Sending), the
--                  completion handlers (Receiving), then what holds of its histories (Lifetime) and of
--                  what it delivers (Delivery).
--                  Sessions/IdleChecker is LibNetworks/SessionIdleChecker.cpp. Sessions/Outbound is
--                  LibNetworks/OutboundSession.cpp with LibNetworks/IOSocketConnector.cpp
--                  (Sessions/Outbound/Connector).
-- Timers           LibCommons/TimerQueue.cpp: the entries and the calls (Timers/Queue), its histories
--                  (Timers/Queue/History), and what they keep (Timers/Queue/Promises). RunEntry is
--                  `begin_entry` and `end_entry`, CancelImpl is `cancel_impl` and `close_entry`, before
--                  and behind the wait; ScheduleImpl is one step. Timers/Api has the public calls,
--                  Timers/Scoped the class ScopedTimer, and Timers/Ticker what the idle checker and the
--                  sampler have in common.
-- Rio              LibNetworksRIO/RioBufferManager.cpp: slices of a registered block (Rio/Slices); and
--                  LibNetworksRIO/RIOSession.cpp (Rio/Session): its state (State), sending (Sending),
--                  receiving and completions (Receiving), then its histories (Histories, Liveness), what it
--                  delivers (Delivery) and what a message adds to its bytes (Messages).
-- Stats            LibNetworks/ServerStatsCollector.cpp: the summary and the pages of the session list
--                  (Stats/Collector); LibNetworks/StatsSampler.cpp (Stats/Sampler).
-- Server           The messages of Protos (Server/Messages), LibNetworks/AdminPacketHandler.cpp
--                  (Server/Admin), and the dispatch and the handlers of
--                  FastPortServer/IOCPInboundSession.cpp and FastPortServerRIO/RIOInboundSession.cpp
--                  (Server/Inbound); and how FastPortServerRIO/RIOServiceMode.cpp makes sessions
--                  (Server/RioMode); LibCommons/Container.ixx (Server/Container) and the sessions'
--                  registration in it (Server/Registry).
-- Services         LibNetworks/iOService.cpp (Services/IoService), LibNetworksRIO/RIOService.cpp
--                  (Services/RioService) and LibNetworks/IOSocketAcceptor.cpp (Services/Acceptor).
-- ServiceMode      LibCommons/ServiceMode.cpp: what a service reports (ServiceMode/Status), its controls
--                  (Controls), its installer (Installer; Installer/Stopping is Installer::Stop) and its run
--                  (Program). OnStarted, OnStopped and OnShutdown of the two servers, which a service
--                  calls, are lists of statements in Server/Modes, over FastPortServer/IOCPServiceMode.cpp and
--                  FastPortServerRIO/RIOServiceMode.cpp.
-- Benchmark        FastPortBenchmark/LatencyBenchmarkRunner.cpp: states, payloads and the run over one
--                  session (Benchmark/Runner), and the rounds of a run over several sessions
--                  (Benchmark/Rounds), where a session's handler runs whole.
--
-- Numbers are natural numbers with the source's wrap-around written out: `size_t` modulo 2^64, atomic
-- counters of 32 bits modulo 2^32, sizes on the wire modulo 2^16. A byte is a number, read modulo 256
-- where the source reads it as one.
--
-- A session runs one call or one completion handler at a time: a history is any sequence of them, and
-- the system answers each posting as it likes (`Env`). A handler's interleaving with another handler
-- inside itself is not modelled, nor is memory order. Callbacks answer with the calls that they make,
-- which run at once. Protobuf messages are their serialised bytes. Logging is left out.
--
-- A RIO session takes a completion only for an operation that it holds; a send completes with at most
-- the bytes that it was given. The threads of a service are alike: their number stands for them, and the
-- order in which they take completions off is the order of the queue. `worker_loop` of RIOService is the
-- loop of one thread: with several, the results are processed behind the queue's lock, in no fixed order.
-- Of a zero-copy call of a buffer, the spans are filled or read at once. An outgoing session sends and
-- receives nothing before its connect has completed.
--
-- Bounds and fuel: the receive loops run on one round more than there are readable bytes, which is
-- enough, since each round but the last takes a packet of at least four bytes off.
--
-- The installer's waits run on a number of rounds. As many as the calls of the system that take 30 seconds
-- together, and two, are enough. The system and the callbacks of a service answer by what was called
-- before; a callback of a service reports no status. The waits of UnInstall and of GetServiceBinaryName
-- have no bound in the source, and nothing is said of how they end.
--
-- A timer queue's system fires only timers that have a handle, a one-shot timer once, and a wait is over
-- when no callback is left. CancelImpl takes an entry off the map and marks it cancelled in one step, where
-- the source does so in two. The slices' clients give back what they hold.
--
-- Not modelled: sockets (calls of Winsock), the thread pool, logging, locks, the main functions of the
-- applications, the clients, and the benchmark's connects, waits and results. Protobuf's wire format,
-- the machine's operations on doubles, and whether an administration handler throws are parameters.
pub mod Prelude
pub mod Buffers
pub mod Packets
pub mod Sessions
pub mod Timers
pub mod Rio
pub mod Stats
pub mod Server
pub mod Services
pub mod ServiceMode
pub mod Benchmark
