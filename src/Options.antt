-- ===== src/Options.antt =====
-- `scan_options` of src/ip_stack.c: the search for one kind in the options of a TCP header. The
-- list is the memory from `buf` on, and the index is how far `buf` has moved. `len` and the result
-- are `int` patterns.
pub mod Returns
pub mod Formed
use eth_transfer.Base.{
  ℕ, zero, suc, ◌+◌, ◌-◌, ◌%◌, ◌^◌, Bool, not, List, Option, none, some, get_or, ◌==◌, slt, sub32,
  minus_one, bit_or, ◌<<<◌, if◌then◌else◌,
}

abbrev pub byte_at : List ℕ → ℕ → ℕ
byte_at buf i = get_or buf i 0

-- What is returned at an option of the wanted kind: two bytes, one byte or -1, by its size.
unfoldable pub option_value : List ℕ → ℕ → ℕ
option_value buf i =
    let size = byte_at buf (i + 1) in
    if size == 4
    then bit_or (byte_at buf (i + 2) <<< 8) (byte_at buf (i + 3))
    else if size == 3
    then byte_at buf (i + 2)
    else minus_one

-- The `for` loop with `buf` moved by `i`. `none` says that the fuel ran out before it returned.
unfoldable pub scan_loop : ℕ → List ℕ → ℕ → ℕ → ℕ → Option ℕ
scan_loop zero buf len kind i = none
scan_loop (suc fuel) buf len kind i =
    let after_one = scan_loop fuel buf len kind (i + 1) in
    let after_option = scan_loop fuel buf len kind (i + byte_at buf (i + 1)) in
    if not (slt i (sub32 len 1))
    then some minus_one
    else if byte_at buf i == 0
    then some minus_one
    else if byte_at buf i == 1
    then after_one
    else if slt len (i + byte_at buf (i + 1))
    then some minus_one
    else if byte_at buf i == kind
    then some (option_value buf i)
    else after_option

unfoldable pub scan_options : ℕ → List ℕ → ℕ → ℕ → Option ℕ
scan_options fuel buf len kind = scan_loop fuel buf len kind 0
