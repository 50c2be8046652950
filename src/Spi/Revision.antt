-- ===== src/Spi/Revision.antt =====
-- The board of src/gpio_spi.c: `get_revision_id` in the text of /proc/cpuinfo, and the address of
-- the peripherals in `peri_base_table`.
pub mod Reads
use eth_transfer.Base.{
  ℕ, zero, suc, ◌+◌, ◌-◌, ◌*◌, List, [], ◌∷◌, take, drop, length, get_or, Bool, not, ◌&&◌, ◌||◌,
  ◌==◌, ltb, leb, slt, sub32, u32, Option, none, some, minus_one, codes, has_prefix, is_space,
  if◌then◌else◌,
}

abbrev pub revision_text : List ℕ
revision_text = codes "Revision"

-- The value of a hexadecimal digit, 16 for any other byte.
abbrev pub hex_value : ℕ → ℕ
hex_value c =
    if leb 48 c && leb c 57
    then c - 48
    else if leb 65 c && leb c 70
    then c - 55
    else if leb 97 c && leb c 102
    then c - 87
    else 16

abbrev pub is_hex : ℕ → Bool
is_hex c = ltb (hex_value c) 16

unfoldable pub hex_digits : ℕ → List ℕ → ℕ
hex_digits value [] = value
hex_digits value (c ∷ text) =
    let rest = hex_digits (u32 (value * 16 + hex_value c)) text in if is_hex c then rest else value

-- Behind the sign: `0x` may stand before the digits.
unfoldable pub scan_unsigned : List ℕ → Option ℕ
scan_unsigned text =
    let body =
      if get_or text 0 0 == 48 && (get_or text 1 0 == 120 || get_or text 1 0 == 88)
      then drop 2 text
      else text in
    if is_hex (get_or body 0 0) then some (hex_digits 0 body) else none

unfoldable pub scan_signed : List ℕ → Option ℕ
scan_signed [] = none
scan_signed (c ∷ text) =
    if c == 43
    then scan_unsigned text
    else if c == 45
    then go (scan_unsigned text)
    else scan_unsigned (c ∷ text)
  where
    go : Option ℕ → Option ℕ
    go none = none
    go (some value) = some (sub32 0 value)

-- `sscanf(text, "%x", &value)`: `none` where it does not return 1.
unfoldable pub scan_hex : List ℕ → Option ℕ
scan_hex [] = none
scan_hex (c ∷ text) =
    let rest = scan_hex text in if is_space c then rest else scan_signed (c ∷ text)

abbrev pub is_separator : ℕ → Bool
is_separator c = c == 32 || c == 9 || c == 58

-- `while (i < size && ...) i++`, from the bytes at `i` on.
unfoldable pub skip_separators : List ℕ → ℕ → ℕ
skip_separators [] i = i
skip_separators (c ∷ text) i =
    let rest = skip_separators text (i + 1) in if is_separator c then rest else i

-- The number that was read, or what follows where none was.
abbrev pub id_or : Option ℕ → ℕ → ℕ
id_or none past = past
id_or (some revision_id) past = revision_id

-- The `for` loop, with at most `fuel` rounds left; `end` is an `int`.
unfoldable pub revision_loop : ℕ → List ℕ → ℕ → ℕ → ℕ
revision_loop zero buffer end i = minus_one
revision_loop (suc fuel) buffer end i =
    let behind = skip_separators (drop (i + 8) buffer) (i + 8) in
    let next = revision_loop fuel buffer end (i + 1) in
    let past = revision_loop fuel buffer end (behind + 1) in
    if not (slt i end)
    then minus_one
    else if not (has_prefix revision_text (drop i buffer))
    then next
    else id_or (scan_hex (drop behind buffer)) past

-- The text is `none` where the file does not open; what is read of it is 16383 bytes at most.
unfoldable pub get_revision_id : Option (List ℕ) → ℕ
get_revision_id none = minus_one
get_revision_id (some text) =
    let buffer = take 16383 text in
    revision_loop (length buffer) buffer (sub32 (sub32 (length buffer) 8) 1) 0

abbrev pub old_board : ℕ
old_board = 0x20000000

abbrev pub new_board : ℕ
new_board = 0x3F000000

abbrev pub peri_base_table : List (ℕ × ℕ)
peri_base_table =
    (0x0002, old_board)
    ∷ (0x0003, old_board)
    ∷ (0x0004, old_board)
    ∷ (0x0005, old_board)
    ∷ (0x0006, old_board)
    ∷ (0x0007, old_board)
    ∷ (0x0008, old_board)
    ∷ (0x0009, old_board)
    ∷ (0x000D, old_board)
    ∷ (0x000E, old_board)
    ∷ (0x000F, old_board)
    ∷ (0x0010, old_board)
    ∷ (0x0011, old_board)
    ∷ (0x0012, old_board)
    ∷ (0x900092, old_board)
    ∷ (0x900093, old_board)
    ∷ (0x9000C1, old_board)
    ∷ (0xa01041, new_board)
    ∷ (0xa21041, new_board)
    ∷ (0xa02082, new_board)
    ∷ (0xa22082, new_board)
    ∷ []

unfoldable pub table_lookup : List (ℕ × ℕ) → ℕ → ℕ
table_lookup [] revision_id = minus_one
table_lookup (row ∷ rows) revision_id =
    let rest = table_lookup rows revision_id in if row.0 == revision_id then row.1 else rest

unfoldable pub get_peri_base : Option (List ℕ) → ℕ
get_peri_base cpuinfo = table_lookup peri_base_table (get_revision_id cpuinfo)
