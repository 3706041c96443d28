-- ===== src/Packets/Stream/Encoded.antt =====
-- Streams of packets made by Packet.
use fast_port.Prelude.{
  ℕ, ◌+◌, ◌≤◌, ◌<◌, ◌≡◌, ◌≢◌, refl, ap, ap₂, inl, inr, sym, ◌∙◌, List, [], ◌∷◌, ◌++◌, map, length,
  arith, length-append, All, append_assoc, to_u16, length-drop, take_of_append, drop_of_append,
  take_all, drop_all,
}
use fast_port.Packets.Packet.{Packet, get_header_from_buffer, make_raw_binaries, make}
use fast_port.Packets.Packet.Roundtrip.{
  length-make_raw_binaries, get_header-make_raw_binaries, from_buffers-make,
}
use fast_port.Packets.Stream.{Next, more, bad, packet, next, Decoded, decode}
use fast_port.Packets.Stream.Chunks.{next-packet, next-bad, next-cases, decode-packet}

-- The bytes of some packets, one after the other.
unfoldable pub wire : List Packet → List ℕ
wire [] = []
wire (p ∷ ps) = p.raw_binaries ++ wire ps

-- Some packets, then what a decoding gave.
abbrev pub before : List Packet → Decoded → Decoded
before ps d = record d { packets = ps ++ d.packets }

module _ (id : ℕ) (payload rest : List ℕ) where
  abbrev bytes : List ℕ
  bytes = make_raw_binaries id payload

  total : length (bytes ++ rest) ≡ length payload + 4 + length rest
  total = omega (
    arith,
    length-append (make_raw_binaries id payload) rest,
    length-make_raw_binaries id payload,
  )

  pub next-make_raw_binaries :
      length payload ≤ 65531
      → next (make_raw_binaries id payload ++ rest) ≡ packet (make_raw_binaries id payload) rest
  next-make_raw_binaries h =
      next-packet (bytes ++ rest) (length bytes)
        (get_header-make_raw_binaries id payload rest
          ∙ omega (arith, length-make_raw_binaries id payload))
        (omega (arith, total)) (omega (arith, length-make_raw_binaries id payload))
        (omega (arith, length-append bytes rest))
      ∙ ap₂ packet
          (take_of_append (length bytes) bytes rest (omega arith)
            ∙ take_all bytes (length bytes) (omega arith))
          (drop_of_append (length bytes) bytes rest (omega arith)
            ∙ ap (λ (d : List ℕ). d ++ rest) (drop_all bytes (length bytes) (omega arith)))

  -- A payload of 65532 to 65535 bytes gives a size field below four, which a receiver refuses.
  pub next-make_raw_binaries-bad :
      65532 ≤ length payload
      → length payload < 65536
      → next (make_raw_binaries id payload ++ rest) ≡ bad
  next-make_raw_binaries-bad h k =
      next-bad (make_raw_binaries id payload ++ rest)
        (omega (
          arith,
          length-append (make_raw_binaries id payload) rest,
          length-make_raw_binaries id payload,
        ))
        (omega (arith, get_header-make_raw_binaries id payload rest))

rest_of : Next → List ℕ
rest_of more = []
rest_of bad = []
rest_of (packet raw rest) = rest

-- A packet whose payload is longer than 65531 bytes is never read back as it was sent, whatever
-- follows it in the stream.
pub oversize_not_read :
    (id : ℕ) (payload rest : List ℕ)
    → 65531 < length payload
    → next (make_raw_binaries id payload ++ rest) ≢ packet (make_raw_binaries id payload) rest
unfolding rest_of
oversize_not_read id payload rest h e = elim (next-cases xs) [
  | inl f ↦ cc (sym f ∙ e)
  | inr (inl (f, _, _)) ↦ cc (sym f ∙ e)
  | inr (inr (f, _, _, _)) ↦ absurd (
      omega (
        arith,
        ap (λ (r : Next). length (rest_of r)) (sym f ∙ e),
        length-drop (get_header_from_buffer xs) xs,
        get_header-make_raw_binaries id payload rest,
        length-append (make_raw_binaries id payload) rest,
        length-make_raw_binaries id payload,
      ))
]
  where
    xs : List ℕ
    xs = make_raw_binaries id payload ++ rest

-- Packets made from an id and a content, which fit the size field.
abbrev pub made : ℕ × List ℕ → Packet
made c = make c.0 c.1

abbrev pub Fits : ℕ × List ℕ → Type 0
Fits c = length c.1 ≤ 65531

decode-made :
    (id : ℕ) (content rest : List ℕ)
    → length content ≤ 65531
    → decode ((make id content).raw_binaries ++ rest) ≡ before (make id content ∷ []) (decode rest)
unfolding make
decode-made id content rest h =
    decode-packet (bytes ++ rest) bytes rest (next-make_raw_binaries (to_u16 id) content rest h)
      (omega (arith, length-append bytes rest, length-make_raw_binaries (to_u16 id) content))
    ∙ ap (λ (p : Packet). before (p ∷ []) (decode rest))
        (from_buffers-make id content (omega arith))
  where
    bytes : List ℕ
    bytes = make_raw_binaries (to_u16 id) content

-- The bytes of any packets that fit the size field decode to exactly those packets, followed by the
-- decoding of what stands behind them.
pub decode-wire :
    (cs : List (ℕ × List ℕ)) (rest : List ℕ)
    → All Fits cs
    → decode (wire (map made cs) ++ rest) ≡ before (map made cs) (decode rest)
unfolding wire
decode-wire [] rest h = refl
decode-wire ((id, content) ∷ cs) rest h =
    rw
      (
        append_assoc (make id content).raw_binaries (wire (map made cs)) rest,
        decode-made id content (wire (map made cs) ++ rest) h.0,
        decode-wire cs rest h.1,
      )
      refl
