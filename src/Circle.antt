-- ===== src/Circle.antt =====
-- `copy_to_circle_buffer` and `copy_from_circle_buffer` of src/ip_stack.c. `none` is a `memcpy`
-- out of range. The masks, lengths and positions are `int` patterns.
pub mod Positions
pub mod Reads
use eth_transfer.Base.{
  ℕ, ◌+◌, ◌-◌, ◌%◌, ◌^◌, List, Option, none, some, if◌then◌else◌, bit_and, memcpy, slt, sle, add32,
  sub32, ◌>>=◌,
}

-- The guards keep the buffer as it is; a copy that passes the end goes on at the start.
unfoldable pub copy_to_circle_buffer : List ℕ → ℕ → ℕ → List ℕ → ℕ → ℕ → Option (List ℕ)
copy_to_circle_buffer dest dest_mask dest_start source source_size length =
    if slt dest_mask length
    then some dest
    else if slt source_size length
    then some dest
    else if sle length 0
    then some dest
    else let mask_start = bit_and dest_start dest_mask in
      let mask_end = bit_and (sub32 (add32 dest_start length) 1) dest_mask in
      let len1 = sub32 (add32 dest_mask 1) mask_start in
      let len2 = sub32 length len1 in
      if sle mask_start mask_end
      then memcpy dest mask_start source 0 length
      else do dest' ← memcpy dest mask_start source 0 len1; memcpy dest' 0 source len1 len2

unfoldable pub copy_from_circle_buffer : List ℕ → ℕ → List ℕ → ℕ → ℕ → ℕ → Option (List ℕ)
copy_from_circle_buffer dest dest_size source source_mask source_start length =
    if slt source_mask length
    then some dest
    else if slt dest_size length
    then some dest
    else if sle length 0
    then some dest
    else let mask_start = bit_and source_start source_mask in
      let mask_end = bit_and (sub32 (add32 source_start length) 1) source_mask in
      let len1 = sub32 (add32 source_mask 1) mask_start in
      let len2 = sub32 length len1 in
      if sle mask_start mask_end
      then memcpy dest 0 source mask_start length
      else do dest' ← memcpy dest 0 source mask_start len1; memcpy dest' len1 source 0 len2
