-- ===== src/Circle/Reads.antt =====
-- What `copy_from_circle_buffer` reads, and that it reads back what was stored.
use eth_transfer.Base.{
  ℕ, ◌+◌, ◌-◌, ◌%◌, ◌^◌, ◌≤◌, ◌<◌, ◌≡◌, refl, ap, sym, ◌∙◌, zero, suc, List, length, get_or, some,
  splice, memcpy-eq-some, length-splice, get_or-splice_before, get_or-splice_inside, take,
  get_or-splice_after, bit_and-mask, arith, sub32, add32, get_or_ext, length-take, get_or-take,
}
use native.Mathlib.Decide.{dec_lt, dec_le}
use eth_transfer.Circle.{copy_to_circle_buffer, copy_from_circle_buffer}
use eth_transfer.Circle.Positions.{mask, IsStored, copy_to_circle_buffer-IsStored}

-- `out` is `dest` with its first `n` bytes replaced by the stream from position `start` on.
pub record IsRead (dest source : List ℕ) (start n : ℕ) (out : List ℕ) : Type 0 where
  pub same_length : length out ≡ length dest
  pub inside : (i : ℕ) → i < n → get_or out i 0 ≡ get_or source ((start + i) % 8192) 0
  pub outside : (i : ℕ) → n ≤ i → get_or out i 0 ≡ get_or dest i 0

module _ (dest source : List ℕ) (start n : ℕ) (size : length source ≡ 8192) (fits : n ≤ length dest)
    (small : n ≤ mask) where
  abbrev at_start : ℕ
  at_start = start % 8192

  straight : at_start + n ≤ 8192 → IsRead dest source start n (splice dest 0 source at_start n)
  straight h = record {
    same_length = length-splice dest 0 source at_start n (omega arith) (omega arith);
    inside = λ i p.
        get_or-splice_inside dest 0 source at_start n (omega arith) (omega arith) i (omega arith)
          (omega arith)
        ∙ ap (λ (k : ℕ). get_or source k 0) (omega arith);
    outside = λ i p.
        get_or-splice_after dest 0 source at_start n (omega arith) (omega arith) i (omega arith);
  }

  abbrev tail_room : ℕ
  tail_room = 8192 - at_start

  abbrev tail_read : List ℕ
  tail_read = splice dest 0 source at_start tail_room

  length-tail_read : 8192 < at_start + n → length tail_read ≡ length dest
  length-tail_read h = length-splice dest 0 source at_start tail_room (omega arith) (omega arith)

  wrapped :
      8192 < at_start + n
      → IsRead dest source start n (splice tail_read tail_room source 0 (n - tail_room))
  wrapped h = record {
    same_length =
        length-splice tail_read tail_room source 0 (n - tail_room) (omega (arith, l)) (omega arith)
        ∙ l;
    inside = λ i p. elim (dec_lt i tail_room) [
      | yes b ↦
          get_or-splice_before tail_read tail_room source 0 (n - tail_room) (omega (arith, l))
            (omega arith) i b
          ∙ get_or-splice_inside dest 0 source at_start tail_room (omega arith) (omega arith) i
              (omega arith) (omega arith)
          ∙ ap (λ (k : ℕ). get_or source k 0) (omega arith)
      | no b ↦
          get_or-splice_inside tail_read tail_room source 0 (n - tail_room) (omega (arith, l))
            (omega arith) i (omega arith) (omega arith)
          ∙ ap (λ (k : ℕ). get_or source k 0) (omega arith)
    ];
    outside = λ i p.
        get_or-splice_after tail_read tail_room source 0 (n - tail_room) (omega (arith, l))
          (omega arith) i (omega arith)
        ∙ get_or-splice_after dest 0 source at_start tail_room (omega arith) (omega arith) i
            (omega arith);
  }
    where
      l : length tail_read ≡ length dest
      l = length-tail_read h

IsRead-zero : (dest source : List ℕ) (start : ℕ) → IsRead dest source start 0 dest
IsRead-zero dest source start = record {
  same_length = refl;
  inside = λ i p. absurd (omega arith);
  outside = λ i p. refl;
}

-- `copy_from_circle_buffer` out of a connection's buffer never leaves the buffer or the target,
-- and puts the byte of stream position `start + i` at index `i`, for the first `n` indices only.
pub copy_from_circle_buffer-IsRead :
    (dest : List ℕ) (dest_size : ℕ) (source : List ℕ) (start n : ℕ)
    → length source ≡ 8192
    → start < 2 ^ 32
    → n ≤ dest_size
    → dest_size < 2 ^ 31
    → n ≤ length dest
    → n ≤ mask
    → (out : List ℕ) × (copy_from_circle_buffer dest dest_size source mask start n ≡ some out)
      × IsRead dest source start n out
unfolding copy_from_circle_buffer
copy_from_circle_buffer-IsRead dest dest_size source start zero size range room int fits small =
    (dest, ground arith, IsRead-zero dest source start)
copy_from_circle_buffer-IsRead dest dest_size source start (suc n) size range room int fits small =
    elim (dec_le (start % 8192 + suc n) 8192) [
      | yes h ↦ (
        splice dest 0 source at (suc n),
        ground (
          arith,
          bit_and-mask 13 start,
          bit_and-mask 13 (sub32 (add32 start (suc n)) 1),
          memcpy-eq-some dest 0 source at (suc n) (omega arith) (omega arith),
        ),
        straight dest source start (suc n) size fits small h,
      )
      | no h ↦ (
        splice (tail_read dest source start (suc n) size fits small) tail source 0 (suc n - tail),
        ground (
          arith,
          bit_and-mask 13 start,
          bit_and-mask 13 (sub32 (add32 start (suc n)) 1),
          memcpy-eq-some dest 0 source at tail (omega arith) (omega arith),
          memcpy-eq-some (tail_read dest source start (suc n) size fits small) tail source 0
              (suc n - tail)
              (omega
                (arith, length-tail_read dest source start (suc n) size fits small (omega arith)))
              (omega arith),
        ),
        wrapped dest source start (suc n) size fits small (omega arith),
      )
    ]
  where
    at : ℕ
    at = start % 8192

    tail : ℕ
    tail = 8192 - at

-- What is stored at a position is read back there: the first `n` bytes of the target are those of
-- the source, across the end of the buffer too.
pub copy_from-copy_to :
    (buffer : List ℕ) (start : ℕ) (source : List ℕ) (n : ℕ) (dest : List ℕ)
    → length buffer ≡ 8192
    → start < 2 ^ 32
    → n ≤ length source
    → n ≤ mask
    → n ≤ length dest
    → (stored out : List ℕ) × (copy_to_circle_buffer buffer mask start source n n ≡ some stored)
      × (copy_from_circle_buffer dest n stored mask start n ≡ some out)
      × (take n out ≡ take n source)
copy_from-copy_to buffer start source n dest size range fits small room = (
  stored.0,
  read.0,
  stored.1,
  read.1,
  get_or_ext 0 (take n read.0) (take n source)
      (omega (arith, length-take n read.0, length-take n source, read.2.same_length))
      (λ i h. same i (omega (arith, h, length-take n read.0))),
)
  where
    stored :
        (out : List ℕ) × (copy_to_circle_buffer buffer mask start source n n ≡ some out)
        × IsStored buffer start source n out
    stored = copy_to_circle_buffer-IsStored buffer start source n size range fits small

    read :
        (out : List ℕ) × (copy_from_circle_buffer dest n stored.0 mask start n ≡ some out)
        × IsRead dest stored.0 start n out
    read =
        copy_from_circle_buffer-IsRead dest n stored.0 start n (stored.2.same_length ∙ size) range
          (omega arith) (omega arith) room small

    same : (i : ℕ) → i < n → get_or (take n read.0) i 0 ≡ get_or (take n source) i 0
    same i h =
        get_or-take n read.0 i 0 h
        ∙ read.2.inside i h
        ∙ stored.2.inside ((start + i) % 8192) (omega arith) (omega arith)
        ∙ ap (λ (k : ℕ). get_or source k 0) (omega arith)
        ∙ sym (get_or-take n source i 0 h)
