-- ===== src/Spi/Setup.antt =====
-- The start and the end of src/gpio_spi.c: the memory map of the GPIO registers, and the release of
-- the root rights. What the system answers is the record `System`.
pub mod Released
use eth_transfer.Base.{
  ℕ, List, [], ◌∷◌, Bool, true, false, not, ◌==◌, slt, add32, Option, none, some, minus_one,
  if◌then◌else◌,
}
use eth_transfer.Spi.{Bus}
use eth_transfer.Spi.Gpio.{init_spi}
use eth_transfer.Spi.Revision.{get_peri_base}

abbrev pub gpio_offset : ℕ
gpio_offset = 0x200000

-- The text of /proc/cpuinfo, and the results of `open`, of `mmap` (`none` is MAP_FAILED), of
-- `setuid(getuid())` and of `setuid(0)`, as `int` patterns.
pub record System : Type 0 where
  pub cpuinfo : Option (List ℕ)
  pub open_result : ℕ
  pub mmap_at : ℕ → Option ℕ
  pub setuid_own : ℕ
  pub setuid_root : ℕ

unfoldable pub drop_root : System → Bool
drop_root system =
    if system.setuid_own == minus_one
    then false
    else if not (system.setuid_root == minus_one)
    then false
    else true

-- `gpio_mmap`, `none` for NULL, and the addresses of the maps that the process has.
pub record Mapping : Type 0 where
  pub gpio_mmap : Option ℕ
  pub maps : List ℕ

-- `gpio_mmap = NULL`
abbrev pub without_map : Mapping → Mapping
without_map m = record m { gpio_mmap = none }

-- `munmap`
abbrev pub unmap : ℕ → List ℕ → List ℕ
unmap map [] = []
unmap map (address ∷ maps) =
    let rest = unmap map maps in if address == map then maps else address ∷ rest

-- The part of `init_gpio` from `mmap` on.
abbrev pub take_map : System → Mapping → Option ℕ → Bool × Mapping
take_map system m none = (false, without_map m)
take_map system m (some map) =
    let mapped : Mapping = record { gpio_mmap = some map; maps = map ∷ m.maps } in
    if not (drop_root system) then (false, without_map mapped) else (true, mapped)

-- Nothing is mapped yet.
unfoldable pub open_map : System → Mapping → Bool × Mapping
open_map system m =
    let peri_base = get_peri_base system.cpuinfo in
    if peri_base == minus_one
    then (false, without_map m)
    else if slt system.open_result 0
    then (false, without_map m)
    else take_map system m (system.mmap_at (add32 peri_base gpio_offset))

-- The test of `gpio_mmap`.
abbrev pub open_gpio : System → Mapping → Option ℕ → Bool × Mapping
open_gpio system m (some map) = (false, m)
open_gpio system m none = open_map system m

unfoldable pub init_gpio : System → Mapping → Bool × Mapping
init_gpio system m = open_gpio system m m.gpio_mmap

unfoldable pub close_gpio : Mapping → Bool × Mapping
close_gpio m = go m.gpio_mmap
  where
    go : Option ℕ → Bool × Mapping
    go none = (false, m)
    go (some map) = (true, record { gpio_mmap = none; maps = unmap map m.maps })

-- The mapping, the function registers and the bus.
pub record GpioState : Type 0 where
  pub mapping : Mapping
  pub registers : List ℕ
  pub bus : Bus

unfoldable pub init_gpio_spi : System → GpioState → Bool × GpioState
init_gpio_spi system s =
    let opened = init_gpio system s.mapping in
    let started = init_spi (s.registers, s.bus) in
    if not opened.0
    then (false, record s { mapping = opened.1 })
    else (true, record { mapping = opened.1; registers = started.0; bus = started.1 })

unfoldable pub close_gpio_spi : GpioState → Bool × GpioState
close_gpio_spi s = let closed = close_gpio s.mapping in (closed.0, record s { mapping = closed.1 })
