-- ===== src/Spi/Revision/Reads.antt =====
-- `get_revision_id` of src/gpio_spi.c on the text of /proc/cpuinfo.
use eth_transfer.Base.{
  ℕ, zero, suc, ◌+◌, ◌-◌, ◌*◌, ◌≤◌, ◌<◌, ◌^◌, ◌≡◌, refl, ap, ap₂, ◌∙◌, List, [], ◌∷◌, ◌++◌, take,
  drop, length, length-append, get_or, Bool, true, false, not, ◌&&◌, ◌||◌, ◌==◌, slt, sub32, u32,
  Option, some, codes, has_prefix, is_space, drop-drop, drop-append, arith,
}
use eth_transfer.Spi.Revision.{
  revision_text, hex_value, is_hex, hex_digits, scan_unsigned, scan_signed, scan_hex, is_separator,
  skip_separators, id_or, revision_loop, get_revision_id,
}

abbrev pub every : (ℕ → Bool) → List ℕ → Bool
every test [] = true
every test (b ∷ bytes) = test b && every test bytes

-- The value of hexadecimal digits behind those that have a value already.
abbrev pub hex_number : ℕ → List ℕ → ℕ
hex_number value [] = value
hex_number value (c ∷ digits) = hex_number (value * 16 + hex_value c) digits

hex_number-ge : (digits : List ℕ) (value : ℕ) → value ≤ hex_number value digits
hex_number-ge [] value = omega arith
hex_number-ge (c ∷ digits) value =
    let more = hex_number-ge digits (value * 16 + hex_value c) in omega arith

hex_digits-hex_number :
    (digits rest : List ℕ) (value : ℕ)
    → every is_hex digits ≡ true
    → hex_number value digits < 2 ^ 32
    → hex_digits value (digits ++ (10 ∷ rest)) ≡ hex_number value digits
unfolding hex_digits
hex_digits-hex_number [] rest value h small = refl
hex_digits-hex_number (c ∷ digits) rest value h small =
    let hex : is_hex c ≡ true = ground arith in
    let more = hex_number-ge digits (value * 16 + hex_value c) in
    let same : u32 (value * 16 + hex_value c) ≡ value * 16 + hex_value c = omega arith in
    rw hex (
      ap (λ (v : ℕ). hex_digits v (digits ++ (10 ∷ rest))) same
      ∙ hex_digits-hex_number digits rest (value * 16 + hex_value c) (ground arith) small)

-- A digit is no space, sign or separator, and not the x of a prefix.
is_hex-is_space : (c : ℕ) → is_hex c ≡ true → is_space c ≡ false
is_hex-is_space c h = ground arith

is_hex-is_separator : (c : ℕ) → is_hex c ≡ true → is_separator c ≡ false
is_hex-is_separator c h = ground arith

no_prefix :
    (digits rest : List ℕ)
    → every is_hex digits ≡ true
    → (get_or (digits ++ (10 ∷ rest)) 0 0 == 120 || get_or (digits ++ (10 ∷ rest)) 0 0 == 88)
      ≡ false
no_prefix [] rest h = refl
no_prefix (c ∷ digits) rest h = ground arith

scan_hex-digits :
    (d : ℕ) (digits rest : List ℕ)
    → every is_hex (d ∷ digits) ≡ true
    → hex_number 0 (d ∷ digits) < 2 ^ 32
    → scan_hex (d ∷ (digits ++ (10 ∷ rest))) ≡ some (hex_number 0 (d ∷ digits))
unfolding scan_hex scan_signed scan_unsigned
scan_hex-digits d digits rest h small =
    let hex : is_hex d ≡ true = ground arith in
    let no_space = is_hex-is_space d hex in
    let no_plus : (d == 43) ≡ false = ground arith in
    let no_minus : (d == 45) ≡ false = ground arith in
    let body : (d == 48
          && (get_or (digits ++ (10 ∷ rest)) 0 0 == 120
              || get_or (digits ++ (10 ∷ rest)) 0 0 == 88))
        ≡ false =
      let none_there = no_prefix digits rest (ground arith) in ground arith in
    rw no_space (
      rw no_plus (
        rw no_minus
          (rw body (rw hex (ap some (hex_digits-hex_number (d ∷ digits) rest 0 h small))))))

skip_separators-append :
    (separators : List ℕ) (d : ℕ) (rest : List ℕ) (i : ℕ)
    → every is_separator separators ≡ true
    → is_separator d ≡ false
    → skip_separators (separators ++ (d ∷ rest)) i ≡ i + length separators
unfolding skip_separators
skip_separators-append [] d rest i h k = rw k (omega arith)
skip_separators-append (c ∷ separators) d rest i h k =
    let sep : is_separator c ≡ true = ground arith in
    rw sep (skip_separators-append separators d rest (i + 1) (ground arith) k ∙ omega arith)

take_all : (n : ℕ) (xs : List ℕ) → length xs ≤ n → take n xs ≡ xs
take_all zero [] h = refl
take_all zero (x ∷ xs) h = absurd (omega arith)
take_all (suc n) [] h = refl
take_all (suc n) (x ∷ xs) h = ap (λ (t : List ℕ). x ∷ t) (take_all n xs (omega arith))

module _ (buffer : List ℕ) (end : ℕ) (int : end < 2 ^ 31) where
  passed :
      (fuel i : ℕ)
      → slt i end ≡ true
      → has_prefix revision_text (drop i buffer) ≡ false
      → revision_loop (suc fuel) buffer end i ≡ revision_loop fuel buffer end (i + 1)
  unfolding revision_loop
  passed fuel i running missed = rw running (rw missed refl)

  -- Bytes other than R are passed over.
  revision_loop-skip :
      (before rest : List ℕ) (fuel i : ℕ)
      → every (λ b. not (b == 82)) before ≡ true
      → drop i buffer ≡ before ++ rest
      → i + length before ≤ end
      → revision_loop (length before + fuel) buffer end i
        ≡ revision_loop fuel buffer end (i + length before)
  revision_loop-skip [] rest fuel i h e inside =
      let same_fuel : 0 + fuel ≡ fuel = omega arith in
      let same_place : i ≡ i + 0 = omega arith in
      ap₂ (λ (f k : ℕ). revision_loop f buffer end k) same_fuel same_place
  revision_loop-skip (b ∷ before) rest fuel i h e inside =
      let running : slt i end ≡ true = ground arith in
      let next : drop (i + 1) buffer ≡ before ++ rest =
        drop-drop i 1 buffer ∙ ap (λ (t : List ℕ). drop 1 t) e in
      let other : (b == 82) ≡ false = ground arith in
      let missed : has_prefix revision_text (drop i buffer) ≡ false =
        ap (has_prefix revision_text) e ∙ rw other refl in
      ap (λ (f : ℕ). revision_loop f buffer end i) {y = suc (length before + fuel)} (omega arith)
      ∙ passed (length before + fuel) i running missed
      ∙ revision_loop-skip before rest fuel (i + 1) (ground arith) next (omega arith)
      ∙ ap (revision_loop fuel buffer end) {x = i + 1 + length before} (omega arith)

  revision_loop-found :
      (separators digits rest : List ℕ) (d fuel i : ℕ)
      → every is_separator separators ≡ true
      → every is_hex (d ∷ digits) ≡ true
      → hex_number 0 (d ∷ digits) < 2 ^ 32
      → drop i buffer ≡ codes "Revision" ++ (separators ++ (d ∷ (digits ++ (10 ∷ rest))))
      → i < end
      → revision_loop (suc fuel) buffer end i ≡ hex_number 0 (d ∷ digits)
  unfolding revision_loop
  revision_loop-found separators digits rest d fuel i hs hd small e inside =
      let running : slt i end ≡ true = ground arith in
      let text = d ∷ (digits ++ (10 ∷ rest)) in
      let hit : has_prefix revision_text (drop i buffer) ≡ true = ap (has_prefix revision_text) e in
      let after : drop (i + 8) buffer ≡ separators ++ text =
        drop-drop i 8 buffer ∙ ap (λ (t : List ℕ). drop 8 t) e in
      let behind : skip_separators (drop (i + 8) buffer) (i + 8) ≡ i + 8 + length separators =
        ap (λ (t : List ℕ). skip_separators t (i + 8)) after
        ∙ skip_separators-append separators d (digits ++ (10 ∷ rest)) (i + 8) hs
            (is_hex-is_separator d (ground arith)) in
      let number : drop (i + 8 + length separators) buffer ≡ text =
        drop-drop (i + 8) (length separators) buffer
        ∙ ap (λ (t : List ℕ). drop (length separators) t) after
        ∙ drop-append separators text in
      rw running (
        rw hit (
          ap (λ (k : ℕ). id_or (scan_hex (drop k buffer)) (revision_loop fuel buffer end (k + 1)))
            behind
          ∙ ap
              (λ (o : Option ℕ).
                id_or o (revision_loop fuel buffer end (i + 8 + length separators + 1)))
              (ap scan_hex number ∙ scan_hex-digits d digits rest hd small)))

abbrev pub cpuinfo_text : List ℕ → List ℕ → List ℕ → List ℕ → List ℕ
cpuinfo_text before separators digits rest =
    before ++ (codes "Revision" ++ (separators ++ (digits ++ (10 ∷ rest))))

-- Where the text has no R before the word Revision, with separators and a hexadecimal number of at
-- most 32 bits behind it up to the end of the line, and is no longer than what the function reads,
-- `get_revision_id` returns that number.
pub get_revision_id-hex_number :
    (before separators digits rest : List ℕ) (d : ℕ)
    → every (λ b. not (b == 82)) before ≡ true
    → every is_separator separators ≡ true
    → every is_hex (d ∷ digits) ≡ true
    → hex_number 0 (d ∷ digits) < 2 ^ 32
    → length (cpuinfo_text before separators (d ∷ digits) rest) ≤ 16383
    → get_revision_id (some (cpuinfo_text before separators (d ∷ digits) rest))
      ≡ hex_number 0 (d ∷ digits)
unfolding get_revision_id
get_revision_id-hex_number before separators digits rest d hb hs hd small fits =
    let text = cpuinfo_text before separators (d ∷ digits) rest in
    let len = length text in
    let behind = codes "Revision" ++ (separators ++ ((d ∷ digits) ++ (10 ∷ rest))) in
    let long = length-append before behind in
    let long' = length-append separators ((d ∷ digits) ++ (10 ∷ rest)) in
    let long'' = length-append digits (10 ∷ rest) in
    let end = sub32 (sub32 len 8) 1 in
    let end_same : end ≡ len - 9 = omega arith in
    let int : end < 2 ^ 31 = omega arith in
    let left = len - length before - 1 in
    ap (λ (t : List ℕ). revision_loop (length t) t (sub32 (sub32 (length t) 8) 1) 0)
      (take_all 16383 text fits)
    ∙ ap (λ (f : ℕ). revision_loop f text end 0) {y = length before + suc left} (omega arith)
    ∙ revision_loop-skip text end int before behind (suc left) 0 hb refl (omega arith)
    ∙ revision_loop-found text end int separators digits rest d left (0 + length before) hs hd small
        (ap (λ (k : ℕ). drop k text) {y = length before} (omega arith) ∙ drop-append before behind)
        (omega arith)
