-- ===== src/Server/RioMode/Exhaustion.antt =====
-- How many connections the pool of slices is enough for.
use fast_port.Prelude.{
  ℕ, zero, suc, ◌+◌, ◌*◌, ◌≤◌, ◌≡◌, refl, ap, Bool, true, false, none, List, [], length, arith, leb,
  leb→le, leb_false→lt, Bool_cases,
}
use fast_port.Buffers.External.{ExternalCircleBufferQueue}
use fast_port.Buffers.External
use fast_port.Buffers.Interface.Instances.{external}
use fast_port.Rio.Slices.{RioBufferSlice, RioBufferManager, initialize, take_free, allocate_slice}
use fast_port.Rio.Session.State.{RioEnv, new_session}
use fast_port.Rio.Session.Receiving.{request_recv, start_receive_loop, initialize_session}
use fast_port.Server.RioMode.{pool_size, started_pool, empty_slice, create_session, connections}

-- A manager that has given out a number of bytes, and was given none back.
abbrev pub Spent : ℕ → RioBufferManager → Type 0
Spent n m = (m.free_list ≡ []) × (m.total_size ≡ pool_size) × (m.current_offset ≡ n)

started_pool-Spent : (address id : ℕ) → Spent 0 (started_pool address id)
unfolding initialize
started_pool-Spent address id = (refl, refl, refl)

allocate_slice-Spent :
    (n : ℕ) (m : RioBufferManager)
    → Spent n m
    → n + 16384 ≤ pool_size
    → Spent (n + 16384) (allocate_slice 16384 m).1
unfolding allocate_slice take_free
allocate_slice-Spent n m (f, t, o) h = ground (arith, f, t, o, h)

allocate_slice-spent :
    (m : RioBufferManager) → Spent pool_size m → allocate_slice 16384 m ≡ (none, m)
unfolding allocate_slice take_free
allocate_slice-spent m (f, t, o) = ground (arith, f, t, o)

-- A session whose receive memory is empty posts no receive.
no_memory :
    (env : RioEnv ExternalCircleBufferQueue) (has_queue : Bool)
    (recv_slice send_slice : RioBufferSlice) (memory : List ℕ)
    (send_buffer : ExternalCircleBufferQueue)
    → length memory ≡ 0
    → let t =
        (initialize_session external env
          (new_session has_queue recv_slice send_slice (External.make memory) send_buffer)).1 in
      (t.recvs ≡ 0) × (t.recv_slice ≡ recv_slice) × (t.send_slice ≡ send_slice)
unfolding initialize_session start_receive_loop request_recv External.make
    External.get_writeable_buffers
no_memory env has_queue recv_slice send_slice memory send_buffer e = ground (arith, e)

module _ (env : RioEnv ExternalCircleBufferQueue) (memory_at : RioBufferSlice → List ℕ) where
  create_session-Spent :
      (n : ℕ) (m : RioBufferManager)
      → Spent n m
      → n + 32768 ≤ pool_size
      → Spent (n + 32768) (create_session env memory_at true m).1
  unfolding create_session
  create_session-Spent n m s h =
      let first = allocate_slice-Spent n m s (omega (arith, h)) in
      let second =
        allocate_slice-Spent (n + 16384) (allocate_slice 16384 m).1 first (omega (arith, h)) in
      (second.0, second.1, omega (arith, second.2))

  create_session-spent :
      (m : RioBufferManager) → Spent pool_size m → (create_session env memory_at true m).1 ≡ m
  unfolding create_session
  create_session-spent m s = let e = allocate_slice-spent m s in rw (e, e) refl

  connections-Spent :
      (n : ℕ) (m : RioBufferManager)
      → Spent 0 m
      → n ≤ 2048
      → Spent (n * 32768) (connections env memory_at n m)
  unfolding connections
  connections-Spent zero m s h = s
  connections-Spent (suc n) m s h =
      let before = connections-Spent n m s (omega (arith, h)) in
      let after =
        create_session-Spent (n * 32768) (connections env memory_at n m) before
          (omega (arith, h)) in
      (after.0, after.1, omega (arith, after.2))

  connections-spent :
      (n : ℕ) (m : RioBufferManager)
      → Spent 0 m
      → 2048 ≤ n
      → Spent pool_size (connections env memory_at n m)
  unfolding connections
  connections-spent zero m s h = absurd (omega arith)
  connections-spent (suc n) m s h =
      Bool_cases (λ (r : Bool). Spent pool_size (connections env memory_at (suc n) m)) (leb 2048 n)
        {x = true} {y = false}
        (λ e.
          let before = connections-spent n m s (leb→le 2048 n e) in
          rw (create_session-spent (connections env memory_at n m) before) before)
        (λ e.
          let few = leb_false→lt 2048 n e in
          let at = connections-Spent (suc n) m s (omega (arith, few)) in
          (at.0, at.1, omega (arith, at.2, few, h)))

  -- When the memory of a slice has the slice's length: after 2048 connections or more since the pool was
  -- made, the next session gets two empty slices and has no receive in flight.
  pub pool_exhausted :
      (n address id : ℕ) (has_queue : Bool)
      → ((s : RioBufferSlice) → length (memory_at s) ≡ s.len)
      → 2048 ≤ n
      → let t =
          (create_session env memory_at has_queue
            (connections env memory_at n (started_pool address id))).0 in
        (t.recv_slice.len ≡ 0) × (t.send_slice.len ≡ 0) × (t.recvs ≡ 0)
  unfolding create_session
  pool_exhausted n address id has_queue sized h =
      let m = connections env memory_at n (started_pool address id) in
      let e =
        allocate_slice-spent m
          (connections-spent n (started_pool address id) (started_pool-Spent address id) h) in
      let deaf =
        no_memory env has_queue empty_slice empty_slice (memory_at empty_slice)
          (External.make (memory_at empty_slice)) (sized empty_slice) in
      rw (e, e) (ap (λ s. s.len) deaf.1, ap (λ s. s.len) deaf.2, deaf.0)
