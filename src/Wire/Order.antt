-- ===== src/Wire/Order.antt =====
-- Byte order: swapping twice gives a buffer back, and a swapped field reads as big-endian.
use eth_transfer.Base.{
  ℕ, ◌+◌, ◌*◌, ◌/◌, ◌%◌, ◌^◌, ◌<◌, ◌≡◌, ◌≢◌, ap, ◌∙◌, List, length, length-set, get_or, set,
  get_or_ext, get_or-set_self, get_or-set_ne, IsBytes, arith, if◌then◌else◌, ◌==◌,
}
use native.Mathlib.Decide.{ℕ_discrete}
use eth_transfer.Wire.{load16, load32, store16, store32, ntohs, ntohl, swap16, swap32}

pub length-store16 : (buf : List ℕ) (off v : ℕ) → length (store16 buf off v) ≡ length buf
unfolding store16
length-store16 buf off v =
    length-set (set buf off (v % 2 ^ 8)) (off + 1) (v / 2 ^ 8 % 2 ^ 8)
    ∙ length-set buf off (v % 2 ^ 8)

module _ (buf : List ℕ) (off v : ℕ) (inside : off + 1 < length buf) where
  pub get_or-store16_low : get_or (store16 buf off v) off 0 ≡ v % 2 ^ 8
  unfolding store16
  get_or-store16_low =
      get_or-set_ne (set buf off (v % 2 ^ 8)) (off + 1) off (v / 2 ^ 8 % 2 ^ 8) 0 (omega arith)
      ∙ get_or-set_self buf off (v % 2 ^ 8) 0 (omega arith)

  pub get_or-store16_high : get_or (store16 buf off v) (off + 1) 0 ≡ v / 2 ^ 8 % 2 ^ 8
  unfolding store16
  get_or-store16_high =
      get_or-set_self (set buf off (v % 2 ^ 8)) (off + 1) (v / 2 ^ 8 % 2 ^ 8) 0
        (omega (arith, length-set buf off (v % 2 ^ 8)))

pub get_or-store16_ne :
    (buf : List ℕ) (off v i : ℕ)
    → i ≢ off
    → i ≢ off + 1
    → get_or (store16 buf off v) i 0 ≡ get_or buf i 0
unfolding store16
get_or-store16_ne buf off v i a b =
    get_or-set_ne (set buf off (v % 2 ^ 8)) (off + 1) i (v / 2 ^ 8 % 2 ^ 8) 0 (omega arith)
    ∙ get_or-set_ne buf off i (v % 2 ^ 8) 0 (omega arith)

pub length-swap16 : (buf : List ℕ) (off : ℕ) → length (swap16 buf off) ≡ length buf
unfolding swap16
length-swap16 buf off = length-store16 buf off (ntohs (load16 buf off))

-- `swap16` exchanges two bytes.
module _ (buf : List ℕ) (off : ℕ) (inside : off + 1 < length buf) (bytes : IsBytes buf) where
  pub get_or-swap16_low : get_or (swap16 buf off) off 0 ≡ get_or buf (off + 1) 0
  unfolding swap16 load16
  get_or-swap16_low = omega (
    arith,
    get_or-store16_low buf off (ntohs (load16 buf off)) inside,
    bytes off,
    bytes (off + 1),
  )

  pub get_or-swap16_high : get_or (swap16 buf off) (off + 1) 0 ≡ get_or buf off 0
  unfolding swap16 load16
  get_or-swap16_high = omega (
    arith,
    get_or-store16_high buf off (ntohs (load16 buf off)) inside,
    bytes off,
    bytes (off + 1),
  )

pub get_or-swap16_ne :
    (buf : List ℕ) (off i : ℕ)
    → i ≢ off
    → i ≢ off + 1
    → get_or (swap16 buf off) i 0 ≡ get_or buf i 0
unfolding swap16
get_or-swap16_ne buf off i a b = get_or-store16_ne buf off (ntohs (load16 buf off)) i a b

-- An index of a swapped field: where its byte stood before.
abbrev pub swapped16 : ℕ → ℕ → ℕ
swapped16 off i = if i == off then off + 1 else if i == off + 1 then off else i

swapped16_twice : (off i : ℕ) → swapped16 off (swapped16 off i) ≡ i
swapped16_twice off i = ground arith

pub get_or-swap16 :
    (buf : List ℕ) (off i : ℕ)
    → off + 1 < length buf
    → IsBytes buf
    → get_or (swap16 buf off) i 0 ≡ get_or buf (swapped16 off i) 0
get_or-swap16 buf off i inside bytes = elim (ℕ_discrete i off) [
  | yes a ↦ rw a (ground (arith, get_or-swap16_low buf off inside bytes))
  | no a ↦ elim (ℕ_discrete i (off + 1)) [
    | yes b ↦ rw b (ground (arith, get_or-swap16_high buf off inside bytes))
    | no b ↦ ground (arith, get_or-swap16_ne buf off i a b)
  ]
]

pub IsBytes-swap16 :
    (buf : List ℕ) (off : ℕ) → off + 1 < length buf → IsBytes buf → IsBytes (swap16 buf off)
IsBytes-swap16 buf off inside bytes i =
    rw (get_or-swap16 buf off i inside bytes) (bytes (swapped16 off i))

-- Swapping a field twice gives the buffer back.
pub swap16_twice :
    (buf : List ℕ) (off : ℕ)
    → off + 1 < length buf
    → IsBytes buf
    → swap16 (swap16 buf off) off ≡ buf
swap16_twice buf off inside bytes =
    get_or_ext 0 (swap16 (swap16 buf off) off) buf
      (length-swap16 (swap16 buf off) off ∙ length-swap16 buf off)
      (λ i _.
        get_or-swap16 (swap16 buf off) off i (omega (arith, length-swap16 buf off))
          (IsBytes-swap16 buf off inside bytes)
        ∙ get_or-swap16 buf off (swapped16 off i) inside bytes
        ∙ ap (λ (k : ℕ). get_or buf k 0) (swapped16_twice off i))

abbrev pub swapped32 : ℕ → ℕ → ℕ
swapped32 off i =
    if i == off
    then off + 3
    else if i == off + 1
    then off + 2
    else if i == off + 2
    then off + 1
    else if i == off + 3
    then off
    else i

swapped32_twice : (off i : ℕ) → swapped32 off (swapped32 off i) ≡ i
swapped32_twice off i = ground arith

pub length-swap32 : (buf : List ℕ) (off : ℕ) → length (swap32 buf off) ≡ length buf
unfolding swap32 store32
length-swap32 buf off =
    length-store16 (store16 buf off (ntohl (load32 buf off) % 2 ^ 16)) (off + 2)
      (ntohl (load32 buf off) / 2 ^ 16 % 2 ^ 16)
    ∙ length-store16 buf off (ntohl (load32 buf off) % 2 ^ 16)

-- The two halves that `swap32` stores.
module _ (buf : List ℕ) (off : ℕ) (inside : off + 3 < length buf) (bytes : IsBytes buf) where
  abbrev low_half : ℕ
  low_half = ntohl (load32 buf off) % 2 ^ 16

  abbrev high_half : ℕ
  high_half = ntohl (load32 buf off) / 2 ^ 16 % 2 ^ 16

  abbrev first_stored : List ℕ
  first_stored = store16 buf off low_half

  fits : off + 2 + 1 < length first_stored
  fits = omega (arith, length-store16 buf off low_half)

  low_half-eq : low_half ≡ get_or buf (off + 3) 0 + get_or buf (off + 2) 0 * 256
  unfolding load32
  low_half-eq =
      let e : off + 2 + 1 ≡ off + 3 = omega arith in
      omega (
        arith,
        ap (λ (k : ℕ). get_or buf k 0) e,
        bytes off,
        bytes (off + 1),
        bytes (off + 2),
        bytes (off + 3),
      )

  high_half-eq : high_half ≡ get_or buf (off + 1) 0 + get_or buf off 0 * 256
  unfolding load32
  high_half-eq =
      let e : off + 2 + 1 ≡ off + 3 = omega arith in
      omega (
        arith,
        ap (λ (k : ℕ). get_or buf k 0) e,
        bytes off,
        bytes (off + 1),
        bytes (off + 2),
        bytes (off + 3),
      )

  pub get_or-swap32 : (i : ℕ) → get_or (swap32 buf off) i 0 ≡ get_or buf (swapped32 off i) 0
  unfolding swap32 store32
  get_or-swap32 i = elim (ℕ_discrete i off) [
    | yes a ↦ rw a (
        ground (
          arith,
          get_or-store16_ne first_stored (off + 2) high_half off (omega arith) (omega arith),
          get_or-store16_low buf off low_half (omega arith),
          low_half-eq,
          bytes (off + 2),
          bytes (off + 3),
        ))
    | no a ↦ elim (ℕ_discrete i (off + 1)) [
      | yes b ↦ rw b (
          ground (
            arith,
            get_or-store16_ne first_stored (off + 2) high_half (off + 1) (omega arith)
                (omega arith),
            get_or-store16_high buf off low_half (omega arith),
            low_half-eq,
            bytes (off + 2),
            bytes (off + 3),
          ))
      | no b ↦ elim (ℕ_discrete i (off + 2)) [
        | yes c ↦ rw c (
            ground (
              arith,
              get_or-store16_low first_stored (off + 2) high_half fits,
              high_half-eq,
              bytes off,
              bytes (off + 1),
            ))
        | no c ↦ elim (ℕ_discrete i (off + 3)) [
          | yes d ↦ rw d (
              ground (
                arith,
                ap (λ (k : ℕ). get_or (store16 first_stored (off + 2) high_half) k 0)
                    (add_three off),
                get_or-store16_high first_stored (off + 2) high_half fits,
                high_half-eq,
                bytes off,
                bytes (off + 1),
              ))
          | no d ↦ ground (
            arith,
            get_or-store16_ne first_stored (off + 2) high_half i c (omega arith),
            get_or-store16_ne buf off low_half i a b,
          )
        ]
      ]
    ]
  ]
    where
      add_three : (n : ℕ) → n + 2 + 1 ≡ n + 3
      add_three n = omega arith

  IsBytes-swap32 : IsBytes (swap32 buf off)
  IsBytes-swap32 i = rw (get_or-swap32 i) (bytes (swapped32 off i))

pub swap32_twice :
    (buf : List ℕ) (off : ℕ)
    → off + 3 < length buf
    → IsBytes buf
    → swap32 (swap32 buf off) off ≡ buf
swap32_twice buf off inside bytes =
    get_or_ext 0 (swap32 (swap32 buf off) off) buf
      (length-swap32 (swap32 buf off) off ∙ length-swap32 buf off)
      (λ i _.
        get_or-swap32 (swap32 buf off) off (omega (arith, length-swap32 buf off))
          (IsBytes-swap32 buf off inside bytes) i
        ∙ get_or-swap32 buf off inside bytes (swapped32 off i)
        ∙ ap (λ (k : ℕ). get_or buf k 0) (swapped32_twice off i))
