-- ===== src/Stack/Address.antt =====
-- `pack_ip_addr` and `unpack_ip_addr` of src/ip_stack.c, the second one as the four numbers that go to
-- `sprintf`, and the text that it makes of them.
use eth_transfer.Base.{
  ℕ, ◌+◌, ◌*◌, ◌%◌, ◌^◌, ◌≡◌, refl, ap₂, List, [], ◌∷◌, bit_and, bit_or, ◌<<<◌, ◌>>>◌, u32, decimal,
  ◌++◌, bit_and-mask, bit_or-fields, arith,
}

unfoldable pub pack_ip_addr : ℕ → ℕ → ℕ → ℕ → ℕ
pack_ip_addr a b c d =
    bit_or
      (bit_or (bit_or (u32 (bit_and a 0xFF <<< 24)) (bit_and b 0xFF <<< 16)) (bit_and c 0xFF <<< 8))
      (bit_and d 0xFF)

unfoldable pub unpack_ip_addr : ℕ → List ℕ
unpack_ip_addr ip_addr =
    bit_and (ip_addr >>> 24) 0xFF
    ∷ bit_and (ip_addr >>> 16) 0xFF
    ∷ bit_and (ip_addr >>> 8) 0xFF
    ∷ bit_and ip_addr 0xFF
    ∷ []

abbrev pub dotted : List ℕ → List ℕ
dotted [] = []
dotted (n ∷ []) = decimal n
dotted (n ∷ m ∷ numbers) = decimal n ++ (b'.' ∷ dotted (m ∷ numbers))

-- The text that `sprintf` makes of the numbers.
abbrev pub address_text : ℕ → List ℕ
address_text ip_addr = dotted (unpack_ip_addr ip_addr)

pub pack_ip_addr-eq :
    (a b c d : ℕ)
    → pack_ip_addr a b c d ≡ a % 2 ^ 8 * 2 ^ 24 + b % 2 ^ 8 * 2 ^ 16 + c % 2 ^ 8 * 2 ^ 8 + d % 2 ^ 8
unfolding pack_ip_addr
pack_ip_addr-eq a b c d =
    let first = bit_or-fields 24 (a % 2 ^ 8) ((b % 2 ^ 8) <<< 16) (omega arith) in
    let second =
      bit_or-fields 16 (a % 2 ^ 8 * 2 ^ 8 + b % 2 ^ 8) ((c % 2 ^ 8) <<< 8) (omega arith) in
    let third =
      bit_or-fields 8 ((a % 2 ^ 8 * 2 ^ 8 + b % 2 ^ 8) * 2 ^ 8 + c % 2 ^ 8) (d % 2 ^ 8)
        (omega arith) in
    let ma = bit_and-mask 8 a in
    let mb = bit_and-mask 8 b in
    let mc = bit_and-mask 8 c in
    let md = bit_and-mask 8 d in
    let small : u32 ((a % 2 ^ 8) <<< 24) ≡ (a % 2 ^ 8) <<< 24 = omega arith in
    let high : a % 2 ^ 8 * 2 ^ 24 + (b % 2 ^ 8) <<< 16 ≡ (a % 2 ^ 8 * 2 ^ 8 + b % 2 ^ 8) <<< 16 =
      omega arith in
    let middle : (a % 2 ^ 8 * 2 ^ 8 + b % 2 ^ 8) * 2 ^ 16 + (c % 2 ^ 8) <<< 8
        ≡ ((a % 2 ^ 8 * 2 ^ 8 + b % 2 ^ 8) * 2 ^ 8 + c % 2 ^ 8) <<< 8 =
      omega arith in
    rw ma (
      rw mb (
        rw mc
          (rw md (rw small (rw first (rw high (rw second (rw middle (omega (arith, third))))))))))

-- The four numbers of a packed address are the low bytes of those that it was packed from.
pub unpack_ip_addr-pack_ip_addr :
    (a b c d : ℕ)
    → unpack_ip_addr (pack_ip_addr a b c d)
      ≡ (a % 2 ^ 8) ∷ (b % 2 ^ 8) ∷ (c % 2 ^ 8) ∷ (d % 2 ^ 8) ∷ []
unfolding unpack_ip_addr
unpack_ip_addr-pack_ip_addr a b c d =
    let packed = pack_ip_addr-eq a b c d in
    let n = pack_ip_addr a b c d in
    ap₂ ◌∷◌ (omega (arith, bit_and-mask 8 (n >>> 24))) (
      ap₂ ◌∷◌ (omega (arith, bit_and-mask 8 (n >>> 16))) (
        ap₂ ◌∷◌ (omega (arith, bit_and-mask 8 (n >>> 8)))
          (ap₂ ◌∷◌ (omega (arith, bit_and-mask 8 n)) refl)))
