-- ===== src/Buffers/Interface.antt =====
-- IBuffer of LibCommons/IBuffer.ixx: the operations through which the packet framer and the sessions
-- use a byte buffer, with the laws that they rely on. Children: the two queues as instances.
pub mod Instances
use fast_port.Prelude.{ℕ, ◌≡◌, Bool, true, false, Option, List, length, if◌then◌else◌, ◌-◌, ltb}
use fast_port.Buffers.Span.{Span, scatter, gather, total}
use fast_port.Buffers.Fifo

pub record IBuffer : Type 1 where
  pub Buf : Type 0
  -- The storage, which the spans that a buffer hands out point into.
  pub memory : Buf → List ℕ
  pub with_memory : Buf → List ℕ → Buf
  pub write : Buf → List ℕ → Bool × Buf
  pub pop : Buf → ℕ → Option (List ℕ) × Buf
  pub peek : Buf → ℕ → Option (List ℕ)
  pub get_read_buffers : Buf → ℕ × List Span
  pub allocate_write : Buf → ℕ → Bool × List Span × Buf
  pub consume : Buf → ℕ → Bool × Buf
  pub can_read_size : Buf → ℕ
  pub can_write_size : Buf → ℕ
  pub clear : Buf → Buf
  pub get_writeable_buffers : Buf → ℕ × List Span
  pub commit_write : Buf → ℕ → Bool × Buf
  -- The laws.
  pub IsValid : Buf → Type 0
  pub contents : Buf → List ℕ
  pub capacity : Buf → ℕ
  pub write_law :
      (b : Buf) (bs : List ℕ)
      → IsValid b
      → let (ok, b') = write b bs in
        ((ok, contents b') ≡ Fifo.append (capacity b) (contents b) bs)
        × IsValid b'
        × (capacity b' ≡ capacity b)
  pub pop_law :
      (b : Buf) (n : ℕ)
      → IsValid b
      → let (out, b') = pop b n in
        (out ≡ Fifo.front (contents b) n)
        × (contents b' ≡ (Fifo.remove (contents b) n).1)
        × IsValid b'
        × (capacity b' ≡ capacity b)
  pub peek_law : (b : Buf) (n : ℕ) → IsValid b → peek b n ≡ Fifo.front (contents b) n
  pub consume_law :
      (b : Buf) (n : ℕ)
      → IsValid b
      → let (ok, b') = consume b n in
        ((ok, contents b') ≡ Fifo.remove (contents b) n) × IsValid b' × (capacity b' ≡ capacity b)
  pub can_read_law : (b : Buf) → IsValid b → can_read_size b ≡ length (contents b)
  pub can_write_law : (b : Buf) → IsValid b → can_write_size b ≡ capacity b - length (contents b)
  pub clear_law :
      (b : Buf)
      → IsValid b
      → (contents (clear b) ≡ List.[]) × IsValid (clear b) × (capacity (clear b) ≡ capacity b)
  pub read_law :
      (b : Buf)
      → IsValid b
      → let (n, spans) = get_read_buffers b in
        (gather (memory b) spans ≡ contents b) × (n ≡ length (contents b))
  pub fill_law :
      (b : Buf) (bs : List ℕ)
      → IsValid b
      → let (ok, spans, b') = allocate_write b (length bs) in
        (if ok then (true, with_memory b' (scatter (memory b') spans bs)) else (false, b'))
        ≡ write b bs
  pub receive_law :
      (b : Buf) (bs : List ℕ)
      → IsValid b
      → let (free_space, spans) = get_writeable_buffers b in
        (if ltb free_space (length bs)
          then (false, b)
          else commit_write (with_memory b (scatter (memory b) spans bs)) (length bs))
        ≡ write b bs
  pub writeable_law :
      (b : Buf)
      → IsValid b
      → let (free_space, spans) = get_writeable_buffers b in
        (free_space ≡ capacity b - length (contents b)) × (total spans ≡ free_space)
