-- ===== src/Ethernet.antt =====
-- The packets that src/eth_driver.c hands to src/ip_stack.c, and the big-endian fields in them.
use eth_transfer.Base.{
  ℕ, zero, suc, ◌+◌, ◌*◌, ◌/◌, ◌%◌, ◌^◌, ◌≤◌, ◌≡◌, sym, ap, ap₂, ◌∙◌, List, [], ◌∷◌, ◌++◌, take,
  length, get_or, slice, slice-cons, IsBytes, minus_one, arith, refl,
}
use eth_transfer.Frame.{be16, be32}

-- `eth_packet`: the bytes as on the wire, and the `int` pattern of the length.
pub record EthPacket : Type 0 where
  pub buffer : List ℕ
  pub length : ℕ

-- The buffer is the memory that the packet lands on.
abbrev pub new_eth_packet : List ℕ → EthPacket
new_eth_packet stale = record { buffer = stale; length = minus_one }

-- A `uint16_t` or `uint32_t` field behind `ntohs` or `ntohl`.
abbrev pub be16_at : List ℕ → ℕ → ℕ
be16_at buf i = get_or buf i 0 * 256 + get_or buf (i + 1) 0

abbrev pub be32_at : List ℕ → ℕ → ℕ
be32_at buf i = be16_at buf i * 65536 + be16_at buf (i + 2)

-- What is read from two bytes and stored again is those two bytes.
pub be16-be16_at :
    (buf : List ℕ) (i : ℕ) → IsBytes buf → i + 2 ≤ length buf → be16 (be16_at buf i) ≡ slice buf i 2
be16-be16_at buf i bytes inside =
    let b0 = bytes i in
    let b1 = bytes (i + 1) in
    let e : i + 1 ≡ suc i = omega arith in
    sym (
      slice-cons buf i 1 (omega arith)
      ∙ ap (λ (ys : List ℕ). get_or buf i 0 ∷ ys) (slice-cons buf (suc i) 0 (omega arith))
      ∙ ap₂ (λ (x y : ℕ). x ∷ y ∷ []) (omega arith)
          (omega (arith, ap (λ (k : ℕ). get_or buf k 0) e)))

-- Two slices that touch are one.
pub slice-append :
    (xs : List ℕ) (off n m : ℕ)
    → off + n ≤ length xs
    → slice xs off n ++ slice xs (off + n) m ≡ slice xs off (n + m)
slice-append xs off zero m h = ap₂ (slice xs) (omega arith) (omega arith)
slice-append xs off (suc n) m h =
    ap₂ (λ (ys zs : List ℕ). ys ++ zs) (slice-cons xs off n (omega arith))
      (ap (λ (k : ℕ). slice xs k m) (omega arith))
    ∙ ap (λ (ys : List ℕ). get_or xs off 0 ∷ ys) (slice-append xs (suc off) n m (omega arith))
    ∙ sym (slice-cons xs off (n + m) (omega arith))
    ∙ ap (slice xs off) {x = suc (n + m)} (omega arith)

pub be32-be32_at :
    (buf : List ℕ) (i : ℕ) → IsBytes buf → i + 4 ≤ length buf → be32 (be32_at buf i) ≡ slice buf i 4
be32-be32_at buf i bytes inside =
    let b0 = bytes i in
    let b1 = bytes (i + 1) in
    let b2 = bytes (i + 2) in
    let b3 = bytes (i + 2 + 1) in
    let high : be32_at buf i / 2 ^ 16 ≡ be16_at buf i = omega arith in
    let low : be32_at buf i % 2 ^ 16 ≡ be16_at buf (i + 2) = omega arith in
    rw high (
      rw low (
        ap₂ (λ (xs ys : List ℕ). xs ++ ys) (be16-be16_at buf i bytes (omega arith))
          (be16-be16_at buf (i + 2) bytes (omega arith))
        ∙ slice-append buf i 2 2 (omega arith)))

pub take-append : (n : ℕ) (xs ys : List ℕ) → length xs ≡ n → take n (xs ++ ys) ≡ xs
take-append zero [] ys e = refl
take-append (suc n) [] ys e = absurd (omega arith)
take-append zero (x ∷ xs) ys e = absurd (omega arith)
take-append (suc n) (x ∷ xs) ys e = ap (λ (zs : List ℕ). x ∷ zs) (take-append n xs ys (omega arith))

pub take_whole : (n : ℕ) (xs : List ℕ) → length xs ≡ n → take n xs ≡ xs
take_whole zero [] e = refl
take_whole (suc n) [] e = refl
take_whole zero (x ∷ xs) e = absurd (omega arith)
take_whole (suc n) (x ∷ xs) e = ap (λ (zs : List ℕ). x ∷ zs) (take_whole n xs (omega arith))
