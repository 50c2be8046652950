-- ===== src/Clock/Coarse.antt =====
-- The clock of the stack counts milliseconds, and moves by whole seconds.
use eth_transfer.Base.{ℕ, suc, ◌+◌, ◌*◌, ◌≤◌, ◌≡◌, true, arith}
use eth_transfer.Ints.{pos_part}
use eth_transfer.Clock.{Clock, get_now}

-- Once the base is set, and while the clock of the host is not beyond 2147483 seconds, where the
-- milliseconds still fit into a `long` of 32 bits, two readings in one second are equal, whatever
-- their nanoseconds, and readings a second apart differ by at least 1000.
pub get_now_steps :
    (c : Clock) (s n m k : ℕ)
    → c.base_time_set ≡ true
    → c.base_time ≤ s * 1000
    → suc s ≤ 2147483
    → let now = (get_now (record { tv_sec = s; tv_nsec = n }) c).0 in
      let same_second = (get_now (record { tv_sec = s; tv_nsec = m }) c).0 in
      let next_second = (get_now (record { tv_sec = suc s; tv_nsec = k }) c).0 in
      (now ≡ same_second) × (pos_part now + 1000 ≤ pos_part next_second)
unfolding get_now
get_now_steps c s n m k set before range = ground arith
