-- ===== src/Buffers/Circle/Run.antt =====
-- Whole histories of calls on CircleBufferQueue.
use fast_port.Prelude.{ℕ, ◌≡◌, refl, ap, Bool, List, [], ◌∷◌, arith}
use fast_port.Buffers.Fifo
use fast_port.Buffers.Fifo.{Op, Reply, done, bytes, count}
use fast_port.Buffers.Circle.{
  CircleBufferQueue, write, pop, consume, clear, can_read_size, can_write_size, step, run,
}
use fast_port.Buffers.Circle.Bounds.{
  IsValid, free_space, write-IsValid, pop-IsValid, consume-IsValid, clear-IsValid,
}
use fast_port.Buffers.Circle.Refine.{
  contents, length-contents, write_refines, pop_refines, peek_refines, consume_refines,
}
use fast_port.Buffers.Circle.ZeroCopy.{
  fill_reserved-eq-write, receive_into-eq-write, get_read_buffers-contents,
}

-- Every call on a valid queue leaves a valid queue.
pub step-IsValid : {q : CircleBufferQueue} (op : Op) → IsValid q → IsValid (step q op).1
unfolding step
step-IsValid (Op.write bs) v = write-IsValid v bs
step-IsValid (Op.fill bs) v = rw (fill_reserved-eq-write v bs) (write-IsValid v bs)
step-IsValid (Op.receive bs) v = rw (receive_into-eq-write v bs) (write-IsValid v bs)
step-IsValid (Op.pop n) v = pop-IsValid v n
step-IsValid (Op.peek n) v = v
step-IsValid (Op.consume n) v = consume-IsValid v n
step-IsValid Op.view v = v
step-IsValid Op.can_read v = v
step-IsValid Op.can_write v = v
step-IsValid Op.clear v = clear-IsValid v

pub capacity-write : (q : CircleBufferQueue) (bs : List ℕ) → (write q bs).1.capacity ≡ q.capacity
unfolding write
capacity-write q bs = ground arith

pub capacity-pop : (q : CircleBufferQueue) (n : ℕ) → (pop q n).1.capacity ≡ q.capacity
unfolding pop
capacity-pop q n = ground arith

pub capacity-consume : (q : CircleBufferQueue) (n : ℕ) → (consume q n).1.capacity ≡ q.capacity
unfolding consume
capacity-consume q n = ground arith

pub capacity-clear : (q : CircleBufferQueue) → (clear q).capacity ≡ q.capacity
unfolding clear
capacity-clear q = refl

pub contents-clear : (q : CircleBufferQueue) → contents (clear q) ≡ []
unfolding clear contents
contents-clear q = refl

capacity-step : {q : CircleBufferQueue} (op : Op) → IsValid q → (step q op).1.capacity ≡ q.capacity
unfolding step
capacity-step {q} (Op.write bs) v = capacity-write q bs
capacity-step {q} (Op.fill bs) v = rw (fill_reserved-eq-write v bs) (capacity-write q bs)
capacity-step {q} (Op.receive bs) v = rw (receive_into-eq-write v bs) (capacity-write q bs)
capacity-step {q} (Op.pop n) v = capacity-pop q n
capacity-step (Op.peek n) v = refl
capacity-step {q} (Op.consume n) v = capacity-consume q n
capacity-step Op.view v = refl
capacity-step Op.can_read v = refl
capacity-step Op.can_write v = refl
capacity-step {q} Op.clear v = capacity-clear q

abbrev replied : Bool × List ℕ → Reply × List ℕ
replied r = (done r.0, r.1)

step_refines :
    {q : CircleBufferQueue} (op : Op)
    → IsValid q
    → let (r, q') = step q op in (r, contents q') ≡ Fifo.step q.capacity (contents q) op
unfolding step Fifo.step can_read_size can_write_size
step_refines {q} (Op.write bs) v = ap replied (write_refines v bs)
step_refines {q} (Op.fill bs) v = rw (fill_reserved-eq-write v bs) (ap replied (write_refines v bs))
step_refines {q} (Op.receive bs) v =
    rw (receive_into-eq-write v bs) (ap replied (write_refines v bs))
step_refines {q} (Op.pop n) v = cc ((pop_refines v n).0, (pop_refines v n).1)
step_refines {q} (Op.peek n) v = cc (peek_refines v n)
step_refines {q} (Op.consume n) v = ap replied (consume_refines v n)
step_refines {q} Op.view v = let law = get_read_buffers-contents v in rw (law.0, law.1) refl
step_refines {q} Op.can_read v = rw (length-contents q) refl
step_refines {q} Op.can_write v = rw (length-contents q, free_space v) refl
step_refines {q} Op.clear v = unfold contents clear in refl

-- No history of calls tells a valid queue from the bounded byte queue of its contents: Write, Pop, Peek,
-- Consume, the sizes and Clear, the spans that GetReadBuffers shows (by the bytes that stand in them and
-- the number it returns), and the zero-copy writes whose spans are filled at once: AllocateWrite and then
-- the filling, or GetWriteableBuffers, the filling and then CommitWrite of as many bytes.
pub run_refines :
    (ops : List Op) {q : CircleBufferQueue}
    → IsValid q
    → run q ops ≡ Fifo.run q.capacity (contents q) ops
unfolding run Fifo.run
run_refines [] v = refl
run_refines (op ∷ ops) {q} v =
    rw (run_refines ops (step-IsValid op v), ← step_refines op v, capacity-step op v) refl
