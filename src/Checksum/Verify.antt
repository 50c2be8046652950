-- ===== src/Checksum/Verify.antt =====
-- What a receiver of a checksummed buffer computes (`ip_checksum` over the stored checksum).
use eth_transfer.Base.{
  ℕ, zero, suc, ◌+◌, ◌-◌, ◌*◌, ◌>>>◌, ◌/◌, ◌%◌, ◌^◌, ◌≤◌, ◌<◌, ◌≡◌, sym, ap, ◌∙◌, List, [], ◌∷◌,
  length, get_or, set, slice_whole, length-set, IsBytes, IsBytes-set, bit_and-mask, arith, ◌↔◌, ◌≢◌,
}
use eth_transfer.Checksum.{
  fold_carry, ip_checksum_init, ip_checksum_add, ip_checksum_final, ip_checksum,
}
use eth_transfer.Checksum.Sum.{word_sum, ip_checksum_add-word_sum}

-- Folding the carries twice leaves a 16-bit number with the same remainder by 65535.
abbrev pub folded : ℕ → ℕ
folded s = (s % 65536 + s / 65536) % 65536 + (s % 65536 + s / 65536) / 65536

pub ip_checksum_final-eq : (s : ℕ) → s < 2 ^ 32 → ip_checksum_final s ≡ 65535 - folded s
unfolding ip_checksum_final
ip_checksum_final-eq s small = omega (
  arith,
  bit_and-mask 16 s,
  bit_and-mask 16 (fold_carry s),
  bit_and-mask 16 (2 ^ 32 - 1 - fold_carry (fold_carry s)),
)

pub final_is_zero_iff :
    (s : ℕ) → s < 2 ^ 32 → (ip_checksum_final s ≡ 0) ↔ ((s % 65535 ≡ 0) × (s ≢ 0))
final_is_zero_iff s small = (
  λ e. omega (arith, ip_checksum_final-eq s small),
  λ h. omega (arith, ip_checksum_final-eq s small),
)

pub word_sum-le : (xs : List ℕ) → IsBytes xs → word_sum xs ≤ length xs * 65535
word_sum-le [] h = omega arith
word_sum-le (a ∷ []) h = omega (arith, h 0)
word_sum-le (a ∷ b ∷ xs) h = omega (arith, h 0, h 1, word_sum-le xs (λ i. h (suc (suc i))))

-- Storing a word in two bytes at an even offset moves the sum by that word.
pub word_sum-set :
    (xs : List ℕ) (k hi lo : ℕ)
    → 2 * k + 1 < length xs
    → word_sum (set (set xs (2 * k) hi) (2 * k + 1) lo)
        + get_or xs (2 * k) 0 * 256
        + get_or xs (2 * k + 1) 0
      ≡ word_sum xs + hi * 256 + lo
word_sum-set [] k hi lo h = absurd (omega arith)
word_sum-set (a ∷ []) k hi lo h = absurd (omega arith)
word_sum-set (a ∷ b ∷ xs) zero hi lo h = omega arith
word_sum-set (a ∷ b ∷ xs) (suc k) hi lo h =
    let even : 2 * suc k ≡ suc (suc (2 * k)) = omega arith in
    let odd : suc (suc (2 * k)) + 1 ≡ suc (suc (2 * k + 1)) = omega arith in
    rw (even, odd) (omega (arith, word_sum-set xs k hi lo (omega arith)))

pub ip_checksum-eq :
    (xs : List ℕ)
    → IsBytes xs
    → length xs ≤ 0xFFFF
    → ip_checksum xs (length xs) ≡ 65535 - folded (word_sum xs)
unfolding ip_checksum ip_checksum_init
ip_checksum-eq xs bytes short = omega (
  arith,
  ip_checksum_add-word_sum xs (length xs) (omega arith) bytes 0 (omega arith),
  ap word_sum (slice_whole xs),
  word_sum-le xs bytes,
  ip_checksum_final-eq (ip_checksum_add 0 xs (length xs))
      (omega (arith, ip_checksum_add-word_sum xs (length xs) (omega arith) bytes 0 (omega arith))),
)

-- A buffer of at most 65535 bytes checks as 0 exactly when its words add up to a nonzero multiple
-- of 65535.
pub ip_checksum-zero_iff :
    (xs : List ℕ)
    → IsBytes xs
    → length xs ≤ 0xFFFF
    → (ip_checksum xs (length xs) ≡ 0) ↔ ((word_sum xs % 65535 ≡ 0) × (word_sum xs ≢ 0))
ip_checksum-zero_iff xs bytes short = (
  λ e. omega (arith, ip_checksum-eq xs bytes short, word_sum-le xs bytes),
  λ h. omega (arith, ip_checksum-eq xs bytes short, word_sum-le xs bytes),
)

-- `header->checksum = htons(c)`: the big-endian store of `c` at byte `2 * k`.
abbrev pub store_checksum : List ℕ → ℕ → ℕ → List ℕ
store_checksum xs k c = set (set xs (2 * k) (c >>> 8)) (2 * k + 1) (c % 2 ^ 8)

pub IsBytes-store_checksum :
    (xs : List ℕ) (k c : ℕ) → c < 2 ^ 16 → IsBytes xs → IsBytes (store_checksum xs k c)
IsBytes-store_checksum xs k c small h =
    IsBytes-set (set xs (2 * k) (c >>> 8)) (2 * k + 1) (c % 2 ^ 8) (omega arith)
      (IsBytes-set xs (2 * k) (c >>> 8) (omega arith) h)

-- A checksum that is computed over a zero field and stored in that field makes the whole buffer
-- check as 0, wherever the field stands and whatever the other bytes are.
pub ip_checksum-store_checksum :
    (xs : List ℕ) (k : ℕ)
    → IsBytes xs
    → length xs ≤ 0xFFFF
    → 2 * k + 1 < length xs
    → get_or xs (2 * k) 0 ≡ 0
    → get_or xs (2 * k + 1) 0 ≡ 0
    → ip_checksum (store_checksum xs k (ip_checksum xs (length xs))) (length xs) ≡ 0
ip_checksum-store_checksum xs k bytes short inside hi lo =
    ap (ip_checksum ys) (sym same_length)
    ∙ omega (
      arith,
      ip_checksum-eq xs bytes short,
      ip_checksum-eq ys
          (IsBytes-store_checksum xs k c (omega (arith, ip_checksum-eq xs bytes short)) bytes)
          (omega (arith, same_length)),
      word_sum-set xs k (c >>> 8) (c % 2 ^ 8) inside,
      word_sum-le xs bytes,
    )
  where
    c : ℕ
    c = ip_checksum xs (length xs)

    ys : List ℕ
    ys = store_checksum xs k c

    same_length : length ys ≡ length xs
    same_length =
        length-set (set xs (2 * k) (c >>> 8)) (2 * k + 1) (c % 2 ^ 8)
        ∙ length-set xs (2 * k) (c >>> 8)
