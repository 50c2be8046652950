-- ===== src/Spi/Bits.antt =====
-- `&` with a single bit, for the words that the GPIO pins are read and written with.
use native.Mathlib.Nat.{pow-suc, one-le-pow}
use eth_transfer.Base.{
  ℕ, zero, suc, ◌+◌, ◌*◌, ◌/◌, ◌%◌, ◌^◌, ◌<◌, ◌≡◌, sym, ap, ◌∙◌, bit_and, bit_and-mask,
  bit_and-digit, arith,
}

power_of_sum :
    (k q d r : ℕ) → d < 2 → r < 2 ^ k → bit_and ((q * 2 + d) * 2 ^ k + r) (2 ^ k) ≡ d * 2 ^ k
power_of_sum zero q d r small h = omega (arith, bit_and-mask 1 ((q * 2 + d) * 2 ^ 0 + r))
power_of_sum (suc k) q d r small h = ground (
  arith,
  bit_and-digit ((q * 2 + d) * 2 ^ suc k + r) (2 ^ suc k),
  pow-suc 2 k,
  ap (λ (t : ℕ). (q * 2 + d) * t) (pow-suc 2 k),
  ap (λ (t : ℕ). d * t) (pow-suc 2 k),
  one-le-pow k 2,
  power_of_sum k q d (r / 2) small (omega (arith, pow-suc 2 k)),
)

pub bit_and-power : (k a : ℕ) → bit_and a (2 ^ k) ≡ a / 2 ^ k % 2 * 2 ^ k
bit_and-power k a =
    let high : a / 2 ^ k / 2 * 2 + a / 2 ^ k % 2 ≡ a / 2 ^ k = omega arith in
    let same : a / 2 ^ k * 2 ^ k + a % 2 ^ k ≡ a = ground (arith, one-le-pow k 2) in
    let small : a % 2 ^ k < 2 ^ k = ground (arith, one-le-pow k 2) in
    ap (λ (n : ℕ). bit_and n (2 ^ k)) (sym same)
    ∙ ap (λ (t : ℕ). bit_and (t * 2 ^ k + a % 2 ^ k) (2 ^ k)) (sym high)
    ∙ power_of_sum k (a / 2 ^ k / 2) (a / 2 ^ k % 2) (a % 2 ^ k) (omega arith) small
