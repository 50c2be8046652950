-- ===== src/Web.antt =====
-- The text functions of src/web_server.c. A buffer is the list of its bytes, and what is read
-- behind its end is 0, as the byte that ends a string. Results are `int` patterns.
pub mod Blank
pub mod Needle
pub mod Lines
pub mod Upload
pub mod Request
pub mod Session
pub mod Arguments
pub mod Server
pub mod Limits
pub mod Confirm
use eth_transfer.Base.{
  ℕ, zero, suc, ◌+◌, ◌-◌, ◌*◌, ◌^◌, List, [], ◌∷◌, drop, get_or, length, Bool, true, ◌&&◌, ◌||◌,
  ◌==◌, not, leb, ltb, slt, sub32, add32, minus_one, if◌then◌else◌,
}

abbrev pub lf : ℕ
lf = 10

abbrev pub cr : ℕ
cr = 13

-- How much longer the blank line at byte `i` makes the header: 2 for LF LF, 3 for LF CR LF, and 0
-- where there is none.
abbrev pub blank_at : List ℕ → ℕ → ℕ → ℕ
blank_at buffer len i =
    if get_or buffer i 0 == lf
    then (if ltb (i + 1) len && get_or buffer (i + 1) 0 == lf
        then 2
        else if ltb (i + 2) len && get_or buffer (i + 1) 0 == cr && get_or buffer (i + 2) 0 == lf
        then 3
        else 0)
    else 0

-- The `for` loop from byte `i` on, with `left` bytes left.
unfoldable pub header_scan_loop : List ℕ → ℕ → ℕ → ℕ → ℕ
header_scan_loop buffer len zero i = minus_one
header_scan_loop buffer len (suc left) i =
    let rest = header_scan_loop buffer len left (i + 1) in
    if blank_at buffer len i == 0 then rest else i + blank_at buffer len i

unfoldable pub header_scan : List ℕ → ℕ → ℕ
header_scan buffer len =
    let bounded = if slt (1024 * 1024) len then 1024 * 1024 else len in
    if slt len 0 then minus_one else header_scan_loop buffer bounded bounded 0

-- The inner loop of `find_needle` from `j` on.
unfoldable pub match_loop : List ℕ → List ℕ → ℕ → ℕ → ℕ → Bool
match_loop haystack needle i zero j = true
match_loop haystack needle i (suc left) j =
    get_or haystack (i + j) 0 == get_or needle j 0 && match_loop haystack needle i left (j + 1)

unfoldable pub find_loop : List ℕ → List ℕ → ℕ → ℕ → ℕ → ℕ
find_loop haystack needle needle_length zero i = minus_one
find_loop haystack needle needle_length (suc left) i =
    let rest = find_loop haystack needle needle_length left (i + 1) in
    if get_or haystack i 0 == get_or needle 0 0 && match_loop haystack needle i needle_length 0
    then i
    else rest

-- The outer loop runs `haystack_length - needle_length` rounds.
unfoldable pub find_needle : List ℕ → ℕ → List ℕ → ℕ → ℕ
find_needle haystack haystack_length needle needle_length =
    let rounds = sub32 haystack_length needle_length in
    if slt 0 rounds then find_loop haystack needle needle_length rounds 0 else minus_one

unfoldable pub split_header : List ℕ → ℕ → List ℕ
split_header [] len = []
split_header (b ∷ buffer) zero = b ∷ buffer
split_header (b ∷ buffer) (suc len) =
    (if b == lf || b == cr then 0 else b) ∷ split_header buffer len

-- `strncmp(key, line, key_len) == 0` and `strlen(line) >= key_len`, for a key with no 0 in it.
unfoldable pub starts_with : List ℕ → List ℕ → Bool
starts_with [] line = true
starts_with (k ∷ key) [] = k == 0 && starts_with key []
starts_with (k ∷ key) (b ∷ line) = k == b && starts_with key line

-- `while (line_index < len - key_len && buffer[line_index] != 0) line_index++`, from the bytes at
-- `line_index` on, followed by the step over the 0.
unfoldable pub line_end : List ℕ → ℕ → ℕ → ℕ
line_end [] bound i = i + 1
line_end (b ∷ line) bound i =
    let rest = line_end line bound (i + 1) in if ltb i bound && not (b == 0) then rest else i + 1

-- The outer loop, with at most `fuel` lines.
unfoldable pub value_loop : ℕ → List ℕ → ℕ → List ℕ → ℕ → ℕ
value_loop zero buffer bound key i = minus_one
value_loop (suc fuel) buffer bound key i =
    let line = drop i buffer in
    let rest = value_loop fuel buffer bound key (line_end line bound i) in
    if not (ltb i bound) then minus_one else if starts_with key line then i + length key else rest

-- `len - key_len` is the bound; each line takes at least one byte, so `len` lines are enough.
unfoldable pub header_value : List ℕ → ℕ → List ℕ → ℕ
header_value buffer len key = value_loop (suc len) buffer (len - length key) key 0
