-- ===== src/Buffers/External/Laws.antt =====
-- ExternalCircleBufferQueue behaves as CircleBufferQueue does over a copy of its memory.
use fast_port.Prelude.{◌+◌, ◌<◌, ℕ, ◌≡◌, refl, Bool, List, length, sub64, [], ◌∷◌, arith}
use fast_port.Buffers.Span.{scatter}
use fast_port.Buffers.Fifo.{Op, Reply, done}
use fast_port.Buffers.Circle
use fast_port.Buffers.Circle.{CircleBufferQueue}
use fast_port.Buffers.Circle.Bounds.{IsValid}
use fast_port.Buffers.Circle.ZeroCopy.{copy_in_empty}
use fast_port.Buffers.Span.Bounds.{scatter-spans_from}
use native.Mathlib.Nat.{mod-lt}
use fast_port.Buffers.External.{
  ExternalCircleBufferQueue, write, pop, peek, consume, clear, allocate_write, commit_write,
  get_read_buffers, get_writeable_buffers, fill_reserved, receive_into, can_read_size,
  can_write_size, step, run,
}

-- The owning queue with the same storage and indices.
abbrev pub owned : ExternalCircleBufferQueue → CircleBufferQueue
owned q = record {
  buffer = q.buffer;
  head = q.head;
  tail = q.tail;
  size = q.size;
  capacity = q.capacity;
}

module _ (q : ExternalCircleBufferQueue) where
  pub write-owned :
      (bs : List ℕ) → let (ok, q') = write q bs in (ok, owned q') ≡ Circle.write (owned q) bs
  unfolding write Circle.write
  write-owned bs = ground arith

  pub pop-owned : (n : ℕ) → let (out, q') = pop q n in (out, owned q') ≡ Circle.pop (owned q) n
  unfolding pop Circle.pop
  pop-owned n = ground arith

  pub peek-owned : (n : ℕ) → peek q n ≡ Circle.peek (owned q) n
  unfolding peek Circle.peek
  peek-owned n = refl

  pub consume-owned :
      (n : ℕ) → let (ok, q') = consume q n in (ok, owned q') ≡ Circle.consume (owned q) n
  unfolding consume Circle.consume
  consume-owned n = ground arith

  pub allocate_write-owned :
      (n : ℕ)
      → let (ok, ss, q') = allocate_write q n in
        (ok, ss, owned q') ≡ Circle.allocate_write (owned q) n
  unfolding allocate_write Circle.allocate_write
  allocate_write-owned n = ground arith

  pub commit_write-owned :
      (n : ℕ) → let (ok, q') = commit_write q n in (ok, owned q') ≡ Circle.commit_write (owned q) n
  unfolding commit_write Circle.commit_write
  commit_write-owned n = ground arith

  pub get_read_buffers-owned : get_read_buffers q ≡ Circle.get_read_buffers (owned q)
  unfolding get_read_buffers Circle.get_read_buffers
  get_read_buffers-owned = refl

  pub get_writeable_buffers-owned : get_writeable_buffers q ≡ Circle.get_writeable_buffers (owned q)
  unfolding get_writeable_buffers Circle.get_writeable_buffers
  get_writeable_buffers-owned = refl

  pub can_read_size-owned : can_read_size q ≡ Circle.can_read_size (owned q)
  unfolding can_read_size Circle.can_read_size
  can_read_size-owned = refl

  pub can_write_size-owned : can_write_size q ≡ Circle.can_write_size (owned q)
  unfolding can_write_size Circle.can_write_size
  can_write_size-owned = refl

  pub clear-owned : owned (clear q) ≡ Circle.clear (owned q)
  unfolding clear Circle.clear
  clear-owned = refl

module _ {q : ExternalCircleBufferQueue} (v : IsValid (owned q)) where
  head_in : q.head < q.capacity
  head_in = rw v.head_at (mod-lt (q.tail + q.size) v.positive)

  pub fill_reserved-eq-write : (bs : List ℕ) → fill_reserved q bs ≡ write q bs
  unfolding fill_reserved allocate_write write
  fill_reserved-eq-write bs =
      ground (arith, scatter-spans_from q.buffer q.capacity q.head (length bs) bs v.small head_in)

  pub receive_into-eq-write : (bs : List ℕ) → receive_into q bs ≡ write q bs
  unfolding receive_into get_writeable_buffers commit_write write scatter
  receive_into-eq-write bs = ground (
    arith,
    scatter-spans_from q.buffer q.capacity q.head (sub64 q.capacity q.size) bs v.small head_in,
    copy_in_empty q.buffer q.capacity q.head bs,
  )

abbrev replied : Bool × ExternalCircleBufferQueue → Reply × CircleBufferQueue
replied r = (done r.0, owned r.1)

step-owned :
    (q : ExternalCircleBufferQueue) (op : Op)
    → let (r, q') = step q op in (r, owned q') ≡ Circle.step (owned q) op
unfolding step Circle.step fill_reserved Circle.fill_reserved receive_into Circle.receive_into
step-owned q (Op.write bs) = unfold write Circle.write in ground arith
step-owned q (Op.fill bs) = unfold allocate_write Circle.allocate_write in ground arith
step-owned q (Op.receive bs) =
    unfold get_writeable_buffers Circle.get_writeable_buffers commit_write Circle.commit_write in
    ground arith
step-owned q (Op.pop n) = unfold pop Circle.pop in ground arith
step-owned q (Op.peek n) = unfold peek Circle.peek in ground arith
step-owned q (Op.consume n) = unfold consume Circle.consume in ground arith
step-owned q Op.view = unfold get_read_buffers Circle.get_read_buffers in refl
step-owned q Op.can_read = unfold can_read_size Circle.can_read_size in refl
step-owned q Op.can_write = unfold can_write_size Circle.can_write_size in refl
step-owned q Op.clear = unfold clear Circle.clear in refl

-- No history of calls tells the queue over borrowed memory from the owning queue with the same storage
-- and indices, valid or not: Write, Pop, Peek, Consume, the sizes and Clear, the bytes in the spans of
-- GetReadBuffers with the number it returns, and the zero-copy writes whose spans are filled at once.
pub run-owned :
    (ops : List Op) (q : ExternalCircleBufferQueue) → run q ops ≡ Circle.run (owned q) ops
unfolding run Circle.run
run-owned [] q = refl
run-owned (op ∷ ops) q = rw (run-owned ops (step q op).1, ← step-owned q op) refl
