-- ===== src/Spi/Gpio.antt =====
-- The GPIO pins of src/gpio_spi.c: their directions in the function registers, three bits each, ten
-- pins in a register.
use eth_transfer.Base.{
  ℕ, ◌-◌, ◌*◌, ◌/◌, ◌%◌, ◌^◌, List, [], ◌∷◌, bit_and, bit_or, get_or, set, ◌==◌, ◌<<<◌, u32,
  if◌then◌else◌,
}
use eth_transfer.Spi.{gpio_set, gpio_clr, Bus, emit, cs_bit, mosi_bit, sck_bit}

abbrev pub output : ℕ
output = 1

abbrev pub input : ℕ
input = 2

abbrev pub mosi_pin : ℕ
mosi_pin = 10

abbrev pub miso_pin : ℕ
miso_pin = 9

abbrev pub sck_pin : ℕ
sck_pin = 11

abbrev pub cs_pin : ℕ
cs_pin = 8

abbrev pub int_pin : ℕ
int_pin = 25

-- `~x`
abbrev pub complement : ℕ → ℕ
complement x = 2 ^ 32 - 1 - x

abbrev pub shift_of : ℕ → ℕ
shift_of gpio = gpio % 10 * 3

-- The registers are the words from `gpio_base` on.
unfoldable pub set_input : ℕ → List ℕ → List ℕ
set_input gpio registers =
    set registers (gpio / 10)
      (bit_and (get_or registers (gpio / 10) 0) (complement (u32 (7 <<< shift_of gpio))))

unfoldable pub set_output : ℕ → List ℕ → List ℕ
set_output gpio registers =
    let cleared = set_input gpio registers in
    set cleared (gpio / 10) (bit_or (get_or cleared (gpio / 10) 0) (u32 (1 <<< shift_of gpio)))

unfoldable pub set_dir : ℕ → ℕ → List ℕ → List ℕ
set_dir gpio dir registers =
    if dir == output then set_output gpio registers else set_input gpio registers

-- The directions that `init_spi` sets.
abbrev pub spi_directions : List ℕ → List ℕ
spi_directions registers =
    set_output sck_pin
      (set_output cs_pin (set_output mosi_pin (set_input int_pin (set_input miso_pin registers))))

-- The levels that `init_spi` starts with.
abbrev pub spi_levels : Bus → Bus
spi_levels bus = emit (gpio_set (bit_or cs_bit mosi_bit) ∷ gpio_clr sck_bit ∷ []) bus

unfoldable pub init_spi : List ℕ × Bus → List ℕ × Bus
init_spi s = (spi_directions s.0, spi_levels s.1)
