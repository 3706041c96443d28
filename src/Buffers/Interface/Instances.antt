-- ===== src/Buffers/Interface/Instances.antt =====
-- Both queues of LibCommons are byte buffers.
use fast_port.Prelude.{
  ltb, ℕ, ◌≡◌, sym, subst, ap, Option, [], Bool, true, false, List, length, if◌then◌else◌, arith,
  ◌-◌, ◌∙◌,
}
use fast_port.Buffers.Interface.{IBuffer}
use fast_port.Buffers.Fifo
use fast_port.Buffers.Span.{Span, gather, scatter, total, spans_from, first_part}
use fast_port.Buffers.External
use fast_port.Buffers.External.{ExternalCircleBufferQueue}
use fast_port.Buffers.External.Laws.{
  owned, write-owned, pop-owned, peek-owned, consume-owned, get_read_buffers-owned,
  can_read_size-owned, can_write_size-owned, get_writeable_buffers-owned, clear-owned,
}
use fast_port.Buffers.Circle
use fast_port.Buffers.Circle.{CircleBufferQueue}
use fast_port.Buffers.Circle.Bounds.{
  IsValid, free_space, write-IsValid, pop-IsValid, consume-IsValid, clear-IsValid,
}
use fast_port.Buffers.Circle.Refine.{
  contents, length-contents, write_refines, pop_refines, peek_refines, consume_refines,
}
use fast_port.Buffers.Circle.Run.{
  capacity-write, capacity-pop, capacity-consume, contents-clear, capacity-clear,
}
use fast_port.Buffers.Circle.ZeroCopy.{
  fill_reserved-eq-write, receive_into-eq-write, get_read_buffers-contents,
}

pub can_write_law :
    (q : CircleBufferQueue) → IsValid q → Circle.can_write_size q ≡ q.capacity - length (contents q)
unfolding Circle.can_write_size
can_write_law q v =
    free_space v
    ∙ ap (λ k. q.capacity - k)
        (let e : q.size ≡ length (contents q) = omega (arith, length-contents q) in e)

pub can_read_law :
    (q : CircleBufferQueue) → IsValid q → Circle.can_read_size q ≡ length (contents q)
unfolding Circle.can_read_size
can_read_law q v = omega (arith, length-contents q)

pub circle_fill_law :
    (q : CircleBufferQueue) (bs : List ℕ)
    → IsValid q
    → let (ok, spans, q') = Circle.allocate_write q (length bs) in
      (if ok then (true, record q' { buffer = scatter q'.buffer spans bs }) else (false, q'))
      ≡ Circle.write q bs
unfolding Circle.fill_reserved
circle_fill_law q bs v = fill_reserved-eq-write v bs

pub circle_receive_law :
    (q : CircleBufferQueue) (bs : List ℕ)
    → IsValid q
    → let (free, spans) = Circle.get_writeable_buffers q in
      (if ltb free (length bs)
        then (false, q)
        else Circle.commit_write (record q { buffer = scatter q.buffer spans bs }) (length bs))
      ≡ Circle.write q bs
unfolding Circle.receive_into
circle_receive_law q bs v = receive_into-eq-write v bs

pub circle_writeable_law :
    (q : CircleBufferQueue)
    → IsValid q
    → let (free, spans) = Circle.get_writeable_buffers q in
      (free ≡ q.capacity - length (contents q)) × (total spans ≡ free)
unfolding Circle.get_writeable_buffers spans_from first_part
circle_writeable_law q v = ground (arith, length-contents q, v)

abbrev pub circle : IBuffer
circle = record {
  Buf = CircleBufferQueue;
  memory = λ q. q.buffer;
  with_memory = λ q buf. record q { buffer = buf };
  write = Circle.write;
  pop = Circle.pop;
  peek = Circle.peek;
  get_read_buffers = Circle.get_read_buffers;
  allocate_write = Circle.allocate_write;
  consume = Circle.consume;
  can_read_size = Circle.can_read_size;
  can_write_size = Circle.can_write_size;
  clear = Circle.clear;
  get_writeable_buffers = Circle.get_writeable_buffers;
  commit_write = Circle.commit_write;
  IsValid = IsValid;
  contents = contents;
  capacity = λ q. q.capacity;
  write_law = λ q bs v. (write_refines v bs, write-IsValid v bs, capacity-write q bs);
  pop_law = λ q n v. ((pop_refines v n).0, (pop_refines v n).1, pop-IsValid v n, capacity-pop q n);
  peek_law = λ q n v. peek_refines v n;
  consume_law = λ q n v. (consume_refines v n, consume-IsValid v n, capacity-consume q n);
  can_read_law = can_read_law;
  can_write_law = can_write_law;
  clear_law = λ q v. (contents-clear q, clear-IsValid v, capacity-clear q);
  read_law = λ q v. get_read_buffers-contents v;
  fill_law = circle_fill_law;
  receive_law = circle_receive_law;
  writeable_law = circle_writeable_law;
}

-- The laws of ExternalCircleBufferQueue are those of CircleBufferQueue over the same storage.
abbrev pub Wrote : CircleBufferQueue → Bool × List ℕ → Bool × CircleBufferQueue → Type 0
Wrote q r s = ((s.0, contents s.1) ≡ r) × IsValid s.1 × (s.1.capacity ≡ q.capacity)

module _ (q : ExternalCircleBufferQueue) (v : IsValid (owned q)) where
  pub external_write_law :
      (bs : List ℕ)
      → let (ok, q') = External.write q bs in
        Wrote (owned q) (Fifo.append q.capacity (contents (owned q)) bs) (ok, owned q')
  external_write_law bs =
      subst (Wrote (owned q) (Fifo.append q.capacity (contents (owned q)) bs))
        (sym (write-owned q bs)) (circle.write_law (owned q) bs v)

  pub external_consume_law :
      (n : ℕ)
      → let (ok, q') = External.consume q n in
        Wrote (owned q) (Fifo.remove (contents (owned q)) n) (ok, owned q')
  external_consume_law n =
      subst (Wrote (owned q) (Fifo.remove (contents (owned q)) n)) (sym (consume-owned q n))
        (circle.consume_law (owned q) n v)

  abbrev Popped : ℕ → Option (List ℕ) × CircleBufferQueue → Type 0
  Popped n r =
      (r.0 ≡ Fifo.front (contents (owned q)) n)
      × (contents r.1 ≡ (Fifo.remove (contents (owned q)) n).1)
      × IsValid r.1
      × (r.1.capacity ≡ q.capacity)

  pub external_pop_law : (n : ℕ) → let (out, q') = External.pop q n in Popped n (out, owned q')
  external_pop_law n = subst (Popped n) (sym (pop-owned q n)) (circle.pop_law (owned q) n v)

  pub external_peek_law : (n : ℕ) → External.peek q n ≡ Fifo.front (contents (owned q)) n
  external_peek_law n = peek-owned q n ∙ circle.peek_law (owned q) n v

  pub external_clear_law :
      (contents (owned (External.clear q)) ≡ [])
      × IsValid (owned (External.clear q))
      × ((External.clear q).capacity ≡ q.capacity)
  external_clear_law =
      subst (λ r. (contents r ≡ []) × IsValid r × (r.capacity ≡ q.capacity)) (sym (clear-owned q))
        (circle.clear_law (owned q) v)

  pub external_read_law :
      let (n, spans) = External.get_read_buffers q in
      (gather q.buffer spans ≡ contents (owned q)) × (n ≡ length (contents (owned q)))
  external_read_law =
      subst
        (λ (r : ℕ × List Span).
          (gather q.buffer r.1 ≡ contents (owned q)) × (r.0 ≡ length (contents (owned q))))
        (sym (get_read_buffers-owned q)) (circle.read_law (owned q) v)

pub external_fill_law :
    (q : ExternalCircleBufferQueue) (bs : List ℕ)
    → IsValid (owned q)
    → let (ok, spans, q') = External.allocate_write q (length bs) in
      (if ok then (true, record q' { buffer = scatter q'.buffer spans bs }) else (false, q'))
      ≡ External.write q bs
unfolding External.fill_reserved
external_fill_law q bs v = External.Laws.fill_reserved-eq-write v bs

pub external_receive_law :
    (q : ExternalCircleBufferQueue) (bs : List ℕ)
    → IsValid (owned q)
    → let (free, spans) = External.get_writeable_buffers q in
      (if ltb free (length bs)
        then (false, q)
        else External.commit_write (record q { buffer = scatter q.buffer spans bs }) (length bs))
      ≡ External.write q bs
unfolding External.receive_into
external_receive_law q bs v = External.Laws.receive_into-eq-write v bs

pub external_writeable_law :
    (q : ExternalCircleBufferQueue)
    → IsValid (owned q)
    → let (free, spans) = External.get_writeable_buffers q in
      (free ≡ q.capacity - length (contents (owned q))) × (total spans ≡ free)
external_writeable_law q v = rw (get_writeable_buffers-owned q) (circle_writeable_law (owned q) v)

abbrev pub external : IBuffer
external = record {
  Buf = ExternalCircleBufferQueue;
  memory = λ q. q.buffer;
  with_memory = λ q buf. record q { buffer = buf };
  write = External.write;
  pop = External.pop;
  peek = External.peek;
  get_read_buffers = External.get_read_buffers;
  allocate_write = External.allocate_write;
  consume = External.consume;
  can_read_size = External.can_read_size;
  can_write_size = External.can_write_size;
  clear = External.clear;
  get_writeable_buffers = External.get_writeable_buffers;
  commit_write = External.commit_write;
  IsValid = λ q. IsValid (owned q);
  contents = λ q. contents (owned q);
  capacity = λ q. q.capacity;
  write_law = λ q bs v. external_write_law q v bs;
  pop_law = λ q n v. external_pop_law q v n;
  peek_law = λ q n v. external_peek_law q v n;
  consume_law = λ q n v. external_consume_law q v n;
  can_read_law = λ q v. can_read_size-owned q ∙ can_read_law (owned q) v;
  can_write_law = λ q v. can_write_size-owned q ∙ can_write_law (owned q) v;
  clear_law = λ q v. external_clear_law q v;
  read_law = λ q v. external_read_law q v;
  fill_law = external_fill_law;
  receive_law = external_receive_law;
  writeable_law = λ q v. external_writeable_law q v;
}
