-- ===== src/Checksum.antt =====
-- The internet checksum of src/ip_stack.c: `ip_checksum_init`, `ip_checksum_add`,
-- `ip_checksum_final` and `ip_checksum`. A buffer is the list of its bytes.
pub mod Sum
pub mod Verify
use eth_transfer.Base.{
  ℕ, zero, suc, ◌+◌, ◌-◌, ◌%◌, ◌^◌, List, get_or, ltb, ◌==◌, if◌then◌else◌, bit_and, bit_or, u32,
  u16, ◌<<<◌, ◌>>>◌,
}

pub record Progress : Type 0 where
  pub checksum : ℕ
  pub i : ℕ

unfoldable pub ip_checksum_init : ℕ
ip_checksum_init = 0

-- `(buf[i] << 8) | buf[i + 1]`
abbrev pub word_at : List ℕ → ℕ → ℕ
word_at buf i = bit_or (get_or buf i 0 <<< 8) (get_or buf (i + 1) 0)

-- `for (i = 0; i < len - 1; i += 2)`. The test is `i + 1 < len`, which agrees with the `int` test
-- at every length from 0 on. At most `len` rounds are made.
unfoldable pub ip_checksum_loop : ℕ → List ℕ → ℕ → ℕ → ℕ → Progress
ip_checksum_loop zero buf len checksum i = record { checksum = checksum; i = i }
ip_checksum_loop (suc fuel) buf len checksum i =
    let rest = ip_checksum_loop fuel buf len (u32 (checksum + word_at buf i)) (i + 2) in
    if ltb (i + 1) len then rest else record { checksum = checksum; i = i }

unfoldable pub ip_checksum_add : ℕ → List ℕ → ℕ → ℕ
ip_checksum_add checksum buf len =
    let p = ip_checksum_loop len buf len checksum 0 in
    if p.i == len then p.checksum else u32 (p.checksum + get_or buf (len - 1) 0 <<< 8)

-- One `checksum = (checksum & 0xFFFF) + (checksum >> 16)`.
abbrev pub fold_carry : ℕ → ℕ
fold_carry checksum = u32 (bit_and checksum 0xFFFF + checksum >>> 16)

unfoldable pub ip_checksum_final : ℕ → ℕ
ip_checksum_final checksum =
    let folded = fold_carry (fold_carry checksum) in bit_and (2 ^ 32 - 1 - folded) 0xFFFF

-- The result is returned as `uint16_t`.
unfoldable pub ip_checksum : List ℕ → ℕ → ℕ
ip_checksum buf len = u16 (ip_checksum_final (ip_checksum_add ip_checksum_init buf len))
