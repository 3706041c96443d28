-- ===== src/Sessions/Gather.antt =====
-- `WriteToBuffers` of LibNetworks/IOSession.cpp: bytes written through a vector of spans, from a
-- position on. The list of spans is `buffers` from `bufferIdx` on, the number is `offsetInSpan`.
pub mod Laws
use fast_port.Prelude.{
  ℕ, ◌+◌, ◌-◌, List, [], ◌∷◌, length, take, drop, blit, ltb, ◌==◌, if◌then◌else◌,
}
use fast_port.Buffers.Span.{Span}

pub record Cursor : Type 0 where
  pub memory : List ℕ
  pub spans : List Span
  pub offset : ℕ

-- One round of the loop in the span `s`. Where it does not fill the span it has used up the bytes, and
-- the loop ends.
unfoldable pub write_to_buffers : List ℕ → List Span → ℕ → List ℕ → Cursor
write_to_buffers memory [] offset bytes = record { memory = memory; spans = []; offset = offset }
write_to_buffers memory (s ∷ ss) offset bytes =
    let space = s.len - offset in
    let to_copy = if ltb (length bytes) space then length bytes else space in
    let memory' = blit memory (s.start + offset) (take to_copy bytes) in
    let rest = write_to_buffers memory' ss 0 (drop to_copy bytes) in
    if length bytes == 0
    then record { memory = memory; spans = s ∷ ss; offset = offset }
    else if offset + to_copy == s.len
    then rest
    else record { memory = memory'; spans = s ∷ ss; offset = offset + to_copy }
