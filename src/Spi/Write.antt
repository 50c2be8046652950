-- ===== src/Spi/Write.antt =====
-- `spi_write_byte` as the chip sees it: MOSI is sampled on each rising edge of SCK.
use eth_transfer.Base.{
  ℕ, zero, suc, ◌/◌, ◌%◌, ◌^◌, ◌<◌, ◌≡◌, refl, ap, ap₂, ◌∙◌, List, [], ◌∷◌, ◌++◌, replicate,
  bit_and, bit_or, ◌<<<◌, u32, ◌==◌, ◌&&◌, if◌then◌else◌, arith,
}
use eth_transfer.Spi.{
  Event, gpio_set, gpio_clr, gpio_get, Bus, sck_bit, mosi_bit, clock_out, write_rounds,
  spi_write_byte,
}
use eth_transfer.Spi.Bits.{bit_and-power}

-- The levels of the two pins.
pub record Pins : Type 0 where
  pub sck : ℕ
  pub mosi : ℕ

abbrev pub raised : ℕ → ℕ → ℕ → ℕ
raised word k level = if word / 2 ^ k % 2 == 1 then 1 else level

abbrev pub lowered : ℕ → ℕ → ℕ → ℕ
lowered word k level = if word / 2 ^ k % 2 == 1 then 0 else level

abbrev pub after_event : Event → Pins → Pins
after_event (gpio_set word) p = record { sck = raised word 11 p.sck; mosi = raised word 10 p.mosi }
after_event (gpio_clr word) p = record {
  sck = lowered word 11 p.sck;
  mosi = lowered word 10 p.mosi;
}
after_event gpio_get p = p

-- The bits that are sampled: the level of MOSI where SCK rises.
abbrev pub sampled : List Event → Pins → List ℕ
sampled [] p = []
sampled (e ∷ events) p =
    let q = after_event e p in
    if p.sck == 0 && q.sck == 1 then q.mosi ∷ sampled events q else sampled events q

wait_sampled :
    (n : ℕ) (rest : List Event) (p : Pins)
    → sampled (replicate n (gpio_clr 0) ++ rest) p ≡ sampled rest p
wait_sampled zero rest p = refl
wait_sampled (suc n) rest p = let rest_same = wait_sampled n rest p in ground arith

low_sampled :
    (rest : List Event) (p : Pins)
    → sampled (gpio_clr (bit_or sck_bit mosi_bit) ∷ rest) p
      ≡ sampled rest (record { sck = 0; mosi = 0 })
low_sampled rest p = ground arith

bit_sampled :
    (b : ℕ) (rest : List Event)
    → sampled (gpio_set (bit_and b mosi_bit) ∷ rest) (record { sck = 0; mosi = 0 })
      ≡ sampled rest (record { sck = 0; mosi = b / 2 ^ 10 % 2 })
bit_sampled b rest =
    let bit = bit_and-power 10 b in
    let no_clock : raised (bit_and b mosi_bit) 11 0 ≡ 0 = ground arith in
    let level : raised (bit_and b mosi_bit) 10 0 ≡ b / 2 ^ 10 % 2 = ground arith in
    ap₂
      (λ (s m : ℕ).
        if s == 1
        then m ∷ sampled rest (record { sck = s; mosi = m })
        else sampled rest (record { sck = s; mosi = m }))
      no_clock level

-- One round gives the bit at the place of MOSI.
clock_out-sampled :
    (b : ℕ) (rest : List Event) (p : Pins)
    → sampled (clock_out b ++ rest) p
      ≡ b / 2 ^ 10 % 2 ∷ sampled rest (record { sck = 1; mosi = b / 2 ^ 10 % 2 })
clock_out-sampled b rest p =
    let edge = replicate 16 (gpio_clr 0) ++ (gpio_set sck_bit ∷ rest) in
    wait_sampled 16 (gpio_clr (bit_or sck_bit mosi_bit) ∷ gpio_set (bit_and b mosi_bit) ∷ edge) p
    ∙ low_sampled (gpio_set (bit_and b mosi_bit) ∷ edge) p
    ∙ bit_sampled b edge
    ∙ wait_sampled 16 (gpio_set sck_bit ∷ rest) (record { sck = 0; mosi = b / 2 ^ 10 % 2 })

-- The bits of `n` rounds.
abbrev pub bits : ℕ → ℕ → List ℕ
bits zero b = []
bits (suc n) b = b / 2 ^ 10 % 2 ∷ bits n (u32 (b <<< 1))

write_rounds-sampled : (n b : ℕ) (p : Pins) → sampled (write_rounds n b) p ≡ bits n b
unfolding write_rounds
write_rounds-sampled zero b p = refl
write_rounds-sampled (suc n) b p =
    clock_out-sampled b (write_rounds n (u32 (b <<< 1))) p
    ∙ ap (λ (xs : List ℕ). b / 2 ^ 10 % 2 ∷ xs)
        (write_rounds-sampled n (u32 (b <<< 1)) (record { sck = 1; mosi = b / 2 ^ 10 % 2 }))

-- The bits of a byte, the highest first.
abbrev pub byte_bits : ℕ → List ℕ
byte_bits b =
    b / 2 ^ 7 % 2
    ∷ b / 2 ^ 6 % 2
    ∷ b / 2 ^ 5 % 2
    ∷ b / 2 ^ 4 % 2
    ∷ b / 2 ^ 3 % 2
    ∷ b / 2 ^ 2 % 2
    ∷ b / 2 % 2
    ∷ b % 2
    ∷ []

pub bits-byte_bits : (b : ℕ) → bits 8 (u32 (b <<< 3)) ≡ byte_bits b
bits-byte_bits b = ap₂ ◌∷◌ (omega arith) (
    ap₂ ◌∷◌ (omega arith) (
      ap₂ ◌∷◌ (omega arith) (
        ap₂ ◌∷◌ (omega arith) (
          ap₂ ◌∷◌ (omega arith)
            (ap₂ ◌∷◌ (omega arith) (ap₂ ◌∷◌ (omega arith) (ap₂ ◌∷◌ (omega arith) refl)))))))

-- Whatever the levels of the pins are before, `spi_write_byte` makes eight rising edges of SCK, at
-- which MOSI has the eight low bits of the byte, the highest first; what was done to the pins before
-- stays as it is.
pub spi_write_byte-sampled :
    (b : ℕ) (bus : Bus) (p : Pins)
    → b < 2 ^ 32
    → (events : List Event) × ((spi_write_byte b bus).trace ≡ bus.trace ++ events)
      × (sampled events p ≡ byte_bits b)
unfolding spi_write_byte
spi_write_byte-sampled b bus p h = (
  write_rounds 8 (u32 (b <<< 3)),
  refl,
  write_rounds-sampled 8 (u32 (b <<< 3)) p ∙ bits-byte_bits b,
)
