-- ===== src/Checksum/Sum.antt =====
-- `ip_checksum_add` against the sum of the big-endian 16-bit words of the buffer.
use eth_transfer.Base.{
  ℕ, zero, suc, ◌+◌, ◌-◌, ◌*◌, ◌^◌, ◌≤◌, ◌<◌, ◌≡◌, ap, ◌∙◌, List, [], ◌∷◌, length, get_or, slice,
  slice-cons, IsBytes, bit_or-fields, u32, arith, ltb, ltb_iff, ◌==◌, if◌then◌else◌, ◌<<<◌,
  Bool-cases, inl, inr,
}
use native.Mathlib.Decide.{dec_lt}
use eth_transfer.Checksum.{Progress, word_at, ip_checksum_loop, ip_checksum_add}

-- The words of a buffer, the last byte padded with a zero, added up without any wrap.
abbrev pub word_sum : List ℕ → ℕ
word_sum [] = 0
word_sum (a ∷ []) = a * 256
word_sum (a ∷ b ∷ rest) = a * 256 + b + word_sum rest

pub word_at-eq :
    (buf : List ℕ) (i : ℕ)
    → IsBytes buf
    → word_at buf i ≡ get_or buf i 0 * 256 + get_or buf (i + 1) 0
word_at-eq buf i bytes = bit_or-fields 8 (get_or buf i 0) (get_or buf (i + 1) 0) (bytes (i + 1))

word_sum-slice :
    (buf : List ℕ) (i n : ℕ)
    → i + 2 + n ≤ length buf
    → word_sum (slice buf i (suc (suc n)))
      ≡ get_or buf i 0 * 256 + get_or buf (i + 1) 0 + word_sum (slice buf (i + 2) n)
word_sum-slice buf i n h =
    let next : suc (suc i) ≡ i + 2 = omega arith in
    let after : suc i ≡ i + 1 = omega arith in
    rw (slice-cons buf i (suc n) (omega arith), slice-cons buf (suc i) n (omega arith), next, after)

word_sum-slice_one :
    (buf : List ℕ) (i : ℕ) → i < length buf → word_sum (slice buf i 1) ≡ get_or buf i 0 * 256
word_sum-slice_one buf i h = rw (slice-cons buf i 0 h)

-- What `ip_checksum_add` makes of the loop's result.
abbrev closing : List ℕ → ℕ → Progress → ℕ
closing buf len p =
    if p.i == len then p.checksum else u32 (p.checksum + get_or buf (len - 1) 0 <<< 8)

module _ (buf : List ℕ) (len : ℕ) (fits : len ≤ length buf) (bytes : IsBytes buf) where
  loop_ends :
      (c i : ℕ)
      → c < 2 ^ 32
      → i ≤ len
      → len ≤ i + 1
      → closing buf len (record { checksum = c; i = i })
        ≡ u32 (c + word_sum (slice buf i (len - i)))
  loop_ends c i small p q = elim (dec_lt i len) [
    | yes odd ↦
        let one : len - i ≡ 1 = omega arith in
        let last : len - 1 ≡ i = omega arith in
        rw (one, last) (ground (arith, word_sum-slice_one buf i (omega arith)))
    | no even ↦ let none_left : len - i ≡ 0 = omega arith in rw none_left (ground arith)
  ]

  loop_sum :
      (fuel c i : ℕ)
      → c < 2 ^ 32
      → i ≤ len
      → len ≤ i + fuel
      → closing buf len (ip_checksum_loop fuel buf len c i)
        ≡ u32 (c + word_sum (slice buf i (len - i)))
  unfolding ip_checksum_loop
  loop_sum zero c i small p q = loop_ends c i small p (omega arith)
  loop_sum (suc fuel) c i small p q = elim (Bool-cases (ltb (i + 1) len)) [
    | inl more ↦
        let left : len - i ≡ suc (suc (len - (i + 2))) = ground arith in
        let more' : i + 1 < len = (ltb_iff (i + 1) len).0 more in
        rw (more, left)
          (omega (
            arith,
            loop_sum fuel (u32 (c + word_at buf i)) (i + 2) (omega arith) (omega arith)
                (omega arith),
            word_at-eq buf i bytes,
            word_sum-slice buf i (len - (i + 2)) (omega arith),
          ))
    | inr done ↦ rw done (loop_ends c i small p (ground arith))
  ]

  -- `ip_checksum_add` adds the words of the first `len` bytes, whether `len` is even or odd, and
  -- wraps at 32 bits only.
  pub ip_checksum_add-word_sum :
      (c : ℕ) → c < 2 ^ 32 → ip_checksum_add c buf len ≡ u32 (c + word_sum (slice buf 0 len))
  unfolding ip_checksum_add
  ip_checksum_add-word_sum c small =
      loop_sum len c 0 small (omega arith) (omega arith)
      ∙ ap (λ (n : ℕ). u32 (c + word_sum (slice buf 0 n))) (omega arith)
