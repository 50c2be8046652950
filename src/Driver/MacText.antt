-- ===== src/Driver/MacText.antt =====
-- The text of the file eth_mac.txt, as `init_ethernet` of src/eth_driver.c prints it with `%02x` and
-- reads it with `fscanf`.
use eth_transfer.Base.{
  ℕ, zero, suc, ◌+◌, ◌*◌, ◌/◌, ◌%◌, List, [], ◌∷◌, ◌++◌, not, ◌&&◌, ◌||◌, ◌==◌, ltb, sub32, ◌<◌,
  ◌≡◌, refl, sym, ap, ◌∙◌, true, false, get_or, length, arith, Option, none, some, if◌then◌else◌,
  ◌>>=◌, is_space,
}
use eth_transfer.Spi.Revision.{hex_value, is_hex}

abbrev pub hex_digit : ℕ → ℕ
hex_digit n = if ltb n 10 then 48 + n else 87 + n

-- `%02x` of a byte.
abbrev pub two_hex : ℕ → List ℕ
two_hex byte = hex_digit (byte / 16) ∷ hex_digit (byte % 16) ∷ []

-- Behind the first byte, each has a colon in front of it.
abbrev pub mac_tail : List ℕ → List ℕ
mac_tail [] = []
mac_tail (byte ∷ bytes) = b':' ∷ (two_hex byte ++ mac_tail bytes)

abbrev pub mac_text : List ℕ → List ℕ
mac_text [] = []
mac_text (byte ∷ bytes) = two_hex byte ++ mac_tail bytes

-- A digit behind a sign.
abbrev pub one_hex : ℕ → List ℕ → Option (ℕ × List ℕ)
one_hex d text = if is_hex d then some (hex_value d, text) else none

abbrev pub minus_hex : Option (ℕ × List ℕ) → Option (ℕ × List ℕ)
minus_hex none = none
minus_hex (some r) = some (sub32 0 r.0, r.1)

-- `%02x` behind the spaces: a number of one or two characters, its sign included. A `0x` uses both,
-- and leaves no digit.
abbrev pub hex_two : List ℕ → Option (ℕ × List ℕ)
hex_two [] = none
hex_two (c ∷ []) = one_hex c []
hex_two (c ∷ d ∷ text) =
    if c == 43
    then one_hex d text
    else if c == 45
    then minus_hex (one_hex d text)
    else if c == 48 && (d == 120 || d == 88)
    then none
    else if not (is_hex c)
    then none
    else if is_hex d
    then some (hex_value c * 16 + hex_value d, text)
    else some (hex_value c, d ∷ text)

abbrev pub scan_byte : List ℕ → Option (ℕ × List ℕ)
scan_byte [] = none
scan_byte (c ∷ text) = let rest = scan_byte text in if is_space c then rest else hex_two (c ∷ text)

-- `n` numbers, each behind a colon.
abbrev pub scan_more : ℕ → List ℕ → Option (List ℕ)
scan_more zero text = some []
scan_more (suc n) [] = none
scan_more (suc n) (c ∷ text) =
    let more = scan_byte text >>= (λ r. scan_more n r.1 >>= (λ bytes. some (r.0 ∷ bytes))) in
    if c == b':' then more else none

-- `fscanf(fp, "%02x:%02x:%02x:%02x:%02x:%02x", ...)`: the six numbers, `none` where it does not return 6.
abbrev pub scan_mac : List ℕ → Option (List ℕ)
scan_mac text = scan_byte text >>= (λ r. scan_more 5 r.1 >>= (λ bytes. some (r.0 ∷ bytes)))

hex_digit-reads :
    (n : ℕ)
    → n < 16
    → (hex_value (hex_digit n) ≡ n)
      × (is_space (hex_digit n) ≡ false)
      × ((hex_digit n == 43) ≡ false)
      × ((hex_digit n == 45) ≡ false)
      × ((hex_digit n == 120) ≡ false)
      × ((hex_digit n == 88) ≡ false)
hex_digit-reads n small =
    (ground arith, ground arith, ground arith, ground arith, ground arith, ground arith)

hex_two-digits :
    (c d : ℕ) (rest : List ℕ)
    → is_space c ≡ false
    → (c == 43) ≡ false
    → (c == 45) ≡ false
    → (d == 120) ≡ false
    → (d == 88) ≡ false
    → is_hex c ≡ true
    → is_hex d ≡ true
    → scan_byte (c ∷ d ∷ rest) ≡ some (hex_value c * 16 + hex_value d, rest)
hex_two-digits c d rest space plus minus x big hex hex' =
    let no_prefix : (c == 48 && (d == 120 || d == 88)) ≡ false = ground arith in
    rw (space, plus, minus, no_prefix, hex, hex') refl

scan_byte-two_hex :
    (byte : ℕ) (rest : List ℕ) → byte < 256 → scan_byte (two_hex byte ++ rest) ≡ some (byte, rest)
scan_byte-two_hex byte rest small =
    let (value, no_space, no_plus, no_minus, no_x, no_big_x) =
      hex_digit-reads (byte / 16) (omega arith) in
    let (value', _, _, _, no_x', no_big_x') = hex_digit-reads (byte % 16) (omega arith) in
    let hex : is_hex (hex_digit (byte / 16)) ≡ true = ground (arith, value) in
    let hex' : is_hex (hex_digit (byte % 16)) ≡ true = ground (arith, value') in
    hex_two-digits (hex_digit (byte / 16)) (hex_digit (byte % 16)) rest no_space no_plus no_minus
      no_x' no_big_x' hex hex'
    ∙ ap (λ (n : ℕ). some (n, rest)) {y = byte} (omega (arith, value, value'))

scan_more-mac_tail :
    (bytes : List ℕ)
    → ((i : ℕ) → get_or bytes i 0 < 256)
    → scan_more (length bytes) (mac_tail bytes) ≡ some bytes
scan_more-mac_tail [] h = refl
scan_more-mac_tail (byte ∷ bytes) h =
    rw (scan_byte-two_hex byte (mac_tail bytes) (h 0))
      (rw (scan_more-mac_tail bytes (λ i. h (suc i))) refl)

-- `fscanf` reads the six bytes that were printed.
pub scan_mac-mac_text :
    (mac : List ℕ)
    → length mac ≡ 6
    → ((i : ℕ) → get_or mac i 0 < 256)
    → scan_mac (mac_text mac) ≡ some mac
scan_mac-mac_text [] six h = absurd (omega arith)
scan_mac-mac_text (byte ∷ bytes) six h =
    let five : length bytes ≡ 5 = omega arith in
    rw (scan_byte-two_hex byte (mac_tail bytes) (h 0)) (
      ap (λ (n : ℕ). scan_more n (mac_tail bytes) >>= (λ more. some (byte ∷ more))) (sym five)
      ∙ rw (scan_more-mac_tail bytes (λ i. h (suc i))) refl)
