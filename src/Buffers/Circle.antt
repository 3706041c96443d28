-- ===== src/Buffers/Circle.antt =====
-- CircleBufferQueue of LibCommons/CircleBufferQueue.ixx, the owning byte queue of a session. Each
-- method runs under the queue's lock and returns the new state beside its results; `none` stands
-- for a `false` that leaves the caller's span as it was. A queue of capacity zero divides by zero
-- in the source and is outside `Bounds.IsValid`.
pub mod Bounds
pub mod Refine
pub mod ZeroCopy
pub mod Run
use fast_port.Prelude.{
  ℕ, ◌-◌, ◌%◌, Bool, true, false, Option, none, some, List, [], ◌∷◌, length, take, replicate, ltb,
  ◌==◌, if◌then◌else◌, add64, sub64,
}
use fast_port.Buffers.Span.{Span, copy_in, copy_out, spans_from, scatter, gather, advance}
use fast_port.Buffers.Fifo.{Op, Reply, done, bytes, count, seen}

pub record CircleBufferQueue : Type 0 where
  pub buffer : List ℕ
  pub head : ℕ
  pub tail : ℕ
  pub size : ℕ
  pub capacity : ℕ

-- The constructor; `resize` fills with zeros.
unfoldable pub make : ℕ → CircleBufferQueue
make capacity = record {
  buffer = replicate capacity 0;
  head = 0;
  tail = 0;
  size = 0;
  capacity = capacity;
}

unfoldable pub write : CircleBufferQueue → List ℕ → Bool × CircleBufferQueue
write q bs = if ltb (sub64 q.capacity q.size) (length bs) then (false, q) else (
  true,
  record q {
    buffer = copy_in q.buffer q.capacity q.head bs;
    head = advance q.capacity q.head (length bs);
    size = add64 q.size (length bs);
  },
)

unfoldable pub pop : CircleBufferQueue → ℕ → Option (List ℕ) × CircleBufferQueue
pop q n = if ltb q.size n then (none, q) else (
  some (copy_out q.buffer q.capacity q.tail n),
  record q { tail = advance q.capacity q.tail n; size = q.size - n },
)

unfoldable pub peek : CircleBufferQueue → ℕ → Option (List ℕ)
peek q n = if ltb q.size n then none else some (copy_out q.buffer q.capacity q.tail n)

-- The result and `outBuffers`.
unfoldable pub get_read_buffers : CircleBufferQueue → ℕ × List Span
get_read_buffers q = if q.size == 0 then (0, []) else (q.size, spans_from q.capacity q.tail q.size)

unfoldable pub allocate_write : CircleBufferQueue → ℕ → Bool × List Span × CircleBufferQueue
allocate_write q n = if ltb (sub64 q.capacity q.size) n then (false, [], q) else (
  true,
  spans_from q.capacity q.head n,
  record q { head = advance q.capacity q.head n; size = add64 q.size n },
)

unfoldable pub consume : CircleBufferQueue → ℕ → Bool × CircleBufferQueue
consume q n =
    if ltb q.size n
    then (false, q)
    else (true, record q { tail = advance q.capacity q.tail n; size = q.size - n })

unfoldable pub can_read_size : CircleBufferQueue → ℕ
can_read_size q = q.size

unfoldable pub can_write_size : CircleBufferQueue → ℕ
can_write_size q = sub64 q.capacity q.size

unfoldable pub clear : CircleBufferQueue → CircleBufferQueue
clear q = record q { head = 0; tail = 0; size = 0 }

unfoldable pub get_writeable_buffers : CircleBufferQueue → ℕ × List Span
get_writeable_buffers q =
    let free_space = sub64 q.capacity q.size in
    if free_space == 0 then (0, []) else (free_space, spans_from q.capacity q.head free_space)

unfoldable pub commit_write : CircleBufferQueue → ℕ → Bool × CircleBufferQueue
commit_write q n =
    if ltb (sub64 q.capacity q.size) n
    then (false, q)
    else (true, record q { head = advance q.capacity q.head n; size = add64 q.size n })

-- The two zero-copy writes as their clients make them: reserve, then fill the spans; or fill the
-- free spans (as a completed receive does), then commit.
unfoldable pub fill_reserved : CircleBufferQueue → List ℕ → Bool × CircleBufferQueue
fill_reserved q bs =
    let (ok, spans, q') = allocate_write q (length bs) in
    if ok then (true, record q' { buffer = scatter q'.buffer spans bs }) else (false, q')

unfoldable pub receive_into : CircleBufferQueue → List ℕ → Bool × CircleBufferQueue
receive_into q bs =
    let (free_space, spans) = get_writeable_buffers q in
    if ltb free_space (length bs)
    then (false, q)
    else commit_write (record q { buffer = scatter q.buffer spans bs }) (length bs)

unfoldable pub step : CircleBufferQueue → Op → Reply × CircleBufferQueue
step q (Op.write bs) = let (ok, q') = write q bs in (done ok, q')
step q (Op.fill bs) = let (ok, q') = fill_reserved q bs in (done ok, q')
step q (Op.receive bs) = let (ok, q') = receive_into q bs in (done ok, q')
step q (Op.pop n) = let (out, q') = pop q n in (bytes out, q')
step q (Op.peek n) = (bytes (peek q n), q)
step q (Op.consume n) = let (ok, q') = consume q n in (done ok, q')
step q Op.view = let (n, spans) = get_read_buffers q in (seen n (gather q.buffer spans), q)
step q Op.can_read = (count (can_read_size q), q)
step q Op.can_write = (count (can_write_size q), q)
step q Op.clear = (count 0, clear q)

unfoldable pub run : CircleBufferQueue → List Op → List Reply
run q [] = []
run q (op ∷ ops) = let (r, q') = step q op in r ∷ run q' ops
