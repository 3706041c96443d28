-- ===== src/Buffers/Fifo.antt =====
-- What a byte buffer is meant to be: a bounded queue of bytes, oldest first, and the calls of
-- IBuffer.ixx that a client makes on it with what it sees of each.
use fast_port.Prelude.{
  ℕ, ◌-◌, Bool, true, false, Option, none, some, List, [], ◌∷◌, ◌++◌, length, take, drop, ltb,
  if◌then◌else◌,
}

pub data Op : Type 0 where
  write fill receive : List ℕ → Op
  pop peek consume : ℕ → Op
  view can_read can_write clear : Op

pub data Reply : Type 0 where
  done : Bool → Reply
  bytes : Option (List ℕ) → Reply
  count : ℕ → Reply
  seen : ℕ → List ℕ → Reply

abbrev pub Queue : Type 0
Queue = List ℕ

unfoldable pub append : ℕ → Queue → List ℕ → Bool × Queue
append capacity q bs = if ltb (capacity - length q) (length bs) then (false, q) else (true, q ++ bs)

unfoldable pub front : Queue → ℕ → Option (List ℕ)
front q n = if ltb (length q) n then none else some (take n q)

unfoldable pub remove : Queue → ℕ → Bool × Queue
remove q n = if ltb (length q) n then (false, q) else (true, drop n q)

unfoldable pub step : ℕ → Queue → Op → Reply × Queue
step capacity q (write bs) = let (ok, q') = append capacity q bs in (done ok, q')
step capacity q (fill bs) = let (ok, q') = append capacity q bs in (done ok, q')
step capacity q (receive bs) = let (ok, q') = append capacity q bs in (done ok, q')
step capacity q (pop n) = (bytes (front q n), (remove q n).1)
step capacity q (peek n) = (bytes (front q n), q)
step capacity q (consume n) = let (ok, q') = remove q n in (done ok, q')
step capacity q view = (seen (length q) q, q)
step capacity q can_read = (count (length q), q)
step capacity q can_write = (count (capacity - length q), q)
step capacity q clear = (count 0, [])

unfoldable pub run : ℕ → Queue → List Op → List Reply
run capacity q [] = []
run capacity q (op ∷ ops) = let (r, q') = step capacity q op in r ∷ run capacity q' ops
