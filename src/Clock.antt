-- ===== src/Clock.antt =====
-- `get_now` and `check_timeout` of src/ip_stack.c. What `clock_gettime` stores is an argument. A
-- `long` has 32 bits, as on the board, and wraps.
pub mod Coarse
use eth_transfer.Base.{
  ℕ, ◌+◌, ◌-◌, ◌*◌, ◌/◌, ◌^◌, Bool, true, false, if◌then◌else◌, u32, sub32, ltb, leb,
}
use eth_transfer.Ints.{ℤ, pos, negsuc, pos_part, ◌+ℤ◌, ltb_ℤ, eqb_ℤ}

-- `struct timespec`
pub record Timespec : Type 0 where
  pub tv_sec : ℕ
  pub tv_nsec : ℕ

-- `base_time`, as the pattern of a `long`, and `base_time_set`
pub record Clock : Type 0 where
  pub base_time : ℕ
  pub base_time_set : Bool

-- The `long` of a pattern of 32 bits.
abbrev pub long_of : ℕ → ℤ
long_of n = if ltb n (2 ^ 31) then pos n else negsuc (2 ^ 32 - n - 1)

-- `t + k` of a `long` and a small constant.
abbrev pub add_long : ℤ → ℕ → ℤ
add_long t k =
    let sum = t +ℤ pos k in if leb (2 ^ 31) (pos_part sum) then long_of (pos_part sum) else sum

-- The second term is `tv_sec / 1000000`, as the code has it.
unfoldable pub get_now : Timespec → Clock → ℤ × Clock
get_now t c =
    let now = u32 (t.tv_sec * 1000 + t.tv_sec / 1000000) in
    let c' = if c.base_time_set then c else record { base_time = now; base_time_set = true } in
    (long_of (sub32 now c'.base_time), c')

unfoldable pub check_timeout : ℤ → Timespec → Clock → Bool × Clock
check_timeout timeout t c =
    if eqb_ℤ timeout (negsuc 0)
    then (true, c)
    else (let (now, c') = get_now t c in (ltb_ℤ timeout now, c'))
