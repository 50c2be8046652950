-- ===== src/Circle/Positions.antt =====
-- The circle buffers of the connection: 8192 bytes, with the stream position `p` at index
-- `p % 8192`. What the two copies read and write, position by position.
use eth_transfer.Base.{
  ℕ, ◌+◌, ◌-◌, ◌%◌, ◌^◌, ◌≤◌, ◌<◌, ◌≡◌, refl, ap, sym, ◌∙◌, zero, suc, List, length, get_or, some,
  splice, memcpy-eq-some, length-splice, get_or-splice_before, get_or-splice_inside,
  get_or-splice_after, bit_and-mask, arith, sub32, add32,
}
use native.Mathlib.Decide.{dec_lt, dec_le}
use eth_transfer.Circle.{copy_to_circle_buffer}

-- RX_MASK and TX_MASK
abbrev pub mask : ℕ
mask = 0x1FFF

-- How far the index `j` lies behind the start position, going round.
abbrev pub ahead : ℕ → ℕ → ℕ
ahead start j = (j + 8192 - start % 8192) % 8192

-- `out` is the buffer `dest` with `n` bytes of `source` stored from position `start` on.
pub record IsStored (dest : List ℕ) (start : ℕ) (source : List ℕ) (n : ℕ) (out : List ℕ)
    : Type 0 where
  pub same_length : length out ≡ length dest
  pub inside :
      (j : ℕ) → j < 8192 → ahead start j < n → get_or out j 0 ≡ get_or source (ahead start j) 0
  pub outside : (j : ℕ) → j < 8192 → n ≤ ahead start j → get_or out j 0 ≡ get_or dest j 0

module _ (dest : List ℕ) (start : ℕ) (source : List ℕ) (n : ℕ) (size : length dest ≡ 8192)
    (fits : n ≤ length source) (small : n ≤ mask) where
  abbrev at_start : ℕ
  at_start = start % 8192

  straight : at_start + n ≤ 8192 → IsStored dest start source n (splice dest at_start source 0 n)
  straight h = record {
    same_length = length-splice dest at_start source 0 n (omega arith) (omega arith);
    inside = λ j p q.
        get_or-splice_inside dest at_start source 0 n (omega arith) (omega arith) j (omega arith)
          (omega arith)
        ∙ ap (λ (k : ℕ). get_or source k 0) (omega arith);
    outside = λ j p q. elim (dec_lt j at_start) [
      | yes b ↦ get_or-splice_before dest at_start source 0 n (omega arith) (omega arith) j b
      | no b ↦
          get_or-splice_after dest at_start source 0 n (omega arith) (omega arith) j (omega arith)
    ];
  }

  -- The bytes up to the end of the buffer, and the buffer with those stored.
  abbrev tail_room : ℕ
  tail_room = 8192 - at_start

  abbrev tail_stored : List ℕ
  tail_stored = splice dest at_start source 0 tail_room

  length-tail_stored : 8192 < at_start + n → length tail_stored ≡ 8192
  length-tail_stored h =
      length-splice dest at_start source 0 tail_room (omega arith) (omega arith) ∙ size

  wrapped :
      8192 < at_start + n
      → IsStored dest start source n (splice tail_stored 0 source tail_room (n - tail_room))
  wrapped h = record {
    same_length =
        length-splice tail_stored 0 source tail_room (n - tail_room) (omega (arith, l))
          (omega arith)
        ∙ l
        ∙ sym size;
    inside = λ j p q. elim (dec_lt j (n - tail_room)) [
      | yes b ↦
          get_or-splice_inside tail_stored 0 source tail_room (n - tail_room) (omega (arith, l))
            (omega arith) j (omega arith) (omega arith)
          ∙ ap (λ (k : ℕ). get_or source k 0) (omega arith)
      | no b ↦
          get_or-splice_after tail_stored 0 source tail_room (n - tail_room) (omega (arith, l))
            (omega arith) j (omega arith)
          ∙ get_or-splice_inside dest at_start source 0 tail_room (omega arith) (omega arith) j
              (omega arith) (omega arith)
          ∙ ap (λ (k : ℕ). get_or source k 0) (omega arith)
    ];
    outside = λ j p q.
        get_or-splice_after tail_stored 0 source tail_room (n - tail_room) (omega (arith, l))
          (omega arith) j (omega arith)
        ∙ get_or-splice_before dest at_start source 0 tail_room (omega arith) (omega arith) j
            (omega arith);
  }
    where
      l : length tail_stored ≡ 8192
      l = length-tail_stored h

IsStored-zero : (dest : List ℕ) (start : ℕ) (source : List ℕ) → IsStored dest start source 0 dest
IsStored-zero dest start source = record {
  same_length = refl;
  inside = λ j p q. absurd (omega arith);
  outside = λ j p q. refl;
}

-- `copy_to_circle_buffer` into a connection's buffer never leaves the buffer or the source, and
-- stores byte `i` of the source at stream position `start + i`, with every other index kept.
pub copy_to_circle_buffer-IsStored :
    (dest : List ℕ) (start : ℕ) (source : List ℕ) (n : ℕ)
    → length dest ≡ 8192
    → start < 2 ^ 32
    → n ≤ length source
    → n ≤ mask
    → (out : List ℕ) × (copy_to_circle_buffer dest mask start source n n ≡ some out)
      × IsStored dest start source n out
unfolding copy_to_circle_buffer
copy_to_circle_buffer-IsStored dest start source zero size range fits small =
    (dest, ground arith, IsStored-zero dest start source)
copy_to_circle_buffer-IsStored dest start source (suc n) size range fits small =
    elim (dec_le (start % 8192 + suc n) 8192) [
      | yes h ↦ (
        splice dest at source 0 (suc n),
        ground (
          arith,
          bit_and-mask 13 start,
          bit_and-mask 13 (sub32 (add32 start (suc n)) 1),
          memcpy-eq-some dest at source 0 (suc n) (omega arith) (omega arith),
        ),
        straight dest start source (suc n) size fits small h,
      )
      | no h ↦ (
        splice (tail_stored dest start source (suc n) size fits small) 0 source room (suc n - room),
        ground (
          arith,
          bit_and-mask 13 start,
          bit_and-mask 13 (sub32 (add32 start (suc n)) 1),
          memcpy-eq-some dest at source 0 room (omega arith) (omega arith),
          memcpy-eq-some (tail_stored dest start source (suc n) size fits small) 0 source room
              (suc n - room)
              (omega
                (arith, length-tail_stored dest start source (suc n) size fits small (omega arith)))
              (omega arith),
        ),
        wrapped dest start source (suc n) size fits small (omega arith),
      )
    ]
  where
    at : ℕ
    at = start % 8192

    room : ℕ
    room = 8192 - at
