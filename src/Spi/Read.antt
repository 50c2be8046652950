-- ===== src/Spi/Read.antt =====
-- `spi_read_byte` reads the byte that the chip puts on MISO.
use mathlib.Core.Path.{subst}
use eth_transfer.Base.{
  ℕ, zero, suc, ◌+◌, ◌*◌, ◌/◌, ◌%◌, ◌^◌, ◌<◌, ◌≤◌, ◌++◌, length, sym, ◌≡◌, refl, ap, ◌∙◌, List, [],
  ◌∷◌, bit_and, bit_or, ◌<<<◌, u32, arith, bit_or-fields,
}
use eth_transfer.Spi.{
  after_read, Bus, read_rounds, spi_read_byte, next_input, after_input, miso_bit,
}
use eth_transfer.Spi.Write.{byte_bits}
use eth_transfer.Spi.Bits.{bit_and-power}

-- Bit 9 of a word that is read, the level of MISO.
abbrev pub miso : ℕ → ℕ
miso word = word / 2 ^ 9 % 2

-- One round, with `q` the bits so far at the places from 10 on.
read_round_bit :
    (q word : ℕ)
    → q < 2 ^ 8
    → u32 (bit_or (q * 2 ^ 10) (bit_and word miso_bit) <<< 1) ≡ (q * 2 + miso word) * 2 ^ 10
read_round_bit q word small =
    let bit = bit_and-power 9 word in
    let joined = bit_or-fields 10 q (bit_and word miso_bit) (omega arith) in omega arith

abbrev after : ℕ → List ℕ → List ℕ
after zero inputs = inputs
after (suc n) inputs = after n (after_input inputs)

abbrev pub bits_of : List ℕ → List ℕ
bits_of [] = []
bits_of (word ∷ words) = miso word ∷ bits_of words

abbrev bits_value : ℕ → ℕ → List ℕ → ℕ
bits_value zero q inputs = q
bits_value (suc n) q inputs = bits_value n (q * 2 + miso (next_input inputs)) (after_input inputs)

-- What the bits so far stay below, with `n` rounds to come.
abbrev limit : ℕ → ℕ
limit zero = 2 ^ 8
limit (suc n) = limit n / 2

limit-le : (n : ℕ) → limit n ≤ 2 ^ 8
limit-le zero = omega arith
limit-le (suc n) = omega (arith, limit-le n)

read_rounds-bits_value :
    (n q : ℕ) (bus : Bus)
    → q < limit n
    → ((read_rounds n (q * 2 ^ 10) bus).0 ≡ bits_value n q bus.inputs * 2 ^ 10)
      × ((read_rounds n (q * 2 ^ 10) bus).1.inputs ≡ after n bus.inputs)
unfolding read_rounds
read_rounds-bits_value zero q bus h = (refl, refl)
read_rounds-bits_value (suc n) q bus h =
    let word = next_input bus.inputs in
    let q' = q * 2 + miso word in
    subst
      (λ (b : ℕ).
        ((read_rounds n b (after_read bus)).0 ≡ bits_value n q' (after_input bus.inputs) * 2 ^ 10)
        × ((read_rounds n b (after_read bus)).1.inputs ≡ after n (after_input bus.inputs)))
      (sym (read_round_bit q word (omega (arith, limit-le (suc n)))))
      (read_rounds-bits_value n q' (after_read bus) (omega arith))

-- The words show a byte on MISO, the highest bit first; the other pins have any level.
abbrev pub Shows : ℕ → List ℕ → Type 0
Shows v words = bits_of words ≡ byte_bits v

-- The number with these bits, behind `q`.
abbrev number : ℕ → List ℕ → ℕ
number q [] = q
number q (b ∷ bs) = number (q * 2 + b) bs

bits_value-number :
    (words rest : List ℕ) (q : ℕ)
    → (bits_value (length words) q (words ++ rest) ≡ number q (bits_of words))
      × (after (length words) (words ++ rest) ≡ rest)
bits_value-number [] rest q = (refl, refl)
bits_value-number (word ∷ words) rest q = bits_value-number words rest (q * 2 + miso word)

length-bits_of : (words : List ℕ) → length (bits_of words) ≡ length words
length-bits_of [] = refl
length-bits_of (word ∷ words) = ap suc (length-bits_of words)

number-byte_bits : (v : ℕ) → v < 2 ^ 8 → number 0 (byte_bits v) ≡ v
number-byte_bits v h = omega arith

-- A byte that the chip shows on MISO, a bit for each of the eight reads, is what `spi_read_byte`
-- returns, whatever the other pins are, and no other read is made.
pub spi_read_byte-Shows :
    (v : ℕ) (words rest : List ℕ) (bus : Bus)
    → v < 2 ^ 8
    → Shows v words
    → bus.inputs ≡ words ++ rest
    → ((spi_read_byte bus).0 ≡ v) × ((spi_read_byte bus).1.inputs ≡ rest)
unfolding spi_read_byte
spi_read_byte-Shows v words rest bus small shown inputs =
    let eight : length words ≡ 8 =
      sym (length-bits_of words) ∙ ap (λ (xs : List ℕ). length xs) shown in
    let (value, left) = read_rounds-bits_value 8 0 bus (omega arith) in
    let (bits, after_words) = bits_value-number words rest 0 in
    let read : bits_value 8 0 bus.inputs ≡ v =
      ap (bits_value 8 0) inputs
      ∙ ap (λ (n : ℕ). bits_value n 0 (words ++ rest)) (sym eight)
      ∙ bits
      ∙ ap (number 0) shown
      ∙ number-byte_bits v small in
    (
      omega (arith, value, read),
      left
          ∙ ap (after 8) inputs
          ∙ ap (λ (n : ℕ). after n (words ++ rest)) (sym eight)
          ∙ after_words,
    )
