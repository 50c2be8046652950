-- ===== src/Spi.antt =====
-- The SPI bus of src/gpio_spi.c, made of single GPIO accesses, and the commands of the Ethernet
-- chip on it.
pub mod Bits
pub mod Write
pub mod Read
pub mod Banks
pub mod Gpio
pub mod Revision
pub mod Setup
pub mod Chip
use eth_transfer.Base.{
  ℕ, zero, suc, ◌+◌, ◌-◌, ◌^◌, List, [], ◌∷◌, ◌++◌, replicate, length, leb, Option, none, some,
  bit_and, bit_or, ◌<<<◌, ◌>>>◌, u8, u32, if◌then◌else◌,
}

abbrev pub sck_bit : ℕ
sck_bit = 2 ^ 11

abbrev pub mosi_bit : ℕ
mosi_bit = 2 ^ 10

abbrev pub miso_bit : ℕ
miso_bit = 2 ^ 9

abbrev pub cs_bit : ℕ
cs_bit = 2 ^ 8

-- A write to `gpio_set` or to `gpio_clr`, or a read of `gpio_get`.
pub data Event : Type 0 where
  gpio_set gpio_clr : ℕ → Event
  gpio_get : Event

-- What was done to the pins so far, and the words that the next reads of `gpio_get` give.
pub record Bus : Type 0 where
  pub trace : List Event
  pub inputs : List ℕ

abbrev pub emit : List Event → Bus → Bus
emit events bus = record bus { trace = bus.trace ++ events }

abbrev pub short_wait : List Event
short_wait = replicate 16 (gpio_clr 0)

unfoldable pub assert_cs : Bus → Bus
assert_cs bus = emit (short_wait ++ (gpio_clr cs_bit ∷ [])) bus

unfoldable pub deassert_cs : Bus → Bus
deassert_cs bus =
    emit
      (short_wait
        ++ (gpio_clr sck_bit
            ∷ (short_wait ++ (gpio_set cs_bit ∷ (short_wait ++ (gpio_set sck_bit ∷ []))))))
      bus

-- One round of the loop of `spi_write_byte`, with the bit at the place of MOSI.
abbrev pub clock_out : ℕ → List Event
clock_out b =
    short_wait
    ++ (gpio_clr (bit_or sck_bit mosi_bit)
        ∷ gpio_set (bit_and b mosi_bit)
        ∷ (short_wait ++ (gpio_set sck_bit ∷ [])))

unfoldable pub write_rounds : ℕ → ℕ → List Event
write_rounds zero b = []
write_rounds (suc n) b = clock_out b ++ write_rounds n (u32 (b <<< 1))

-- `b <<= (MOSI - 7)`, and eight rounds.
unfoldable pub spi_write_byte : ℕ → Bus → Bus
spi_write_byte b bus = emit (write_rounds 8 (u32 (b <<< 3))) bus

abbrev pub next_input : List ℕ → ℕ
next_input [] = 0
next_input (word ∷ inputs) = word

abbrev pub after_input : List ℕ → List ℕ
after_input [] = []
after_input (word ∷ inputs) = inputs

-- The pins in one round of the loop of `spi_read_byte`.
abbrev pub after_read : Bus → Bus
after_read bus = record {
  trace =
      bus.trace
      ++ (short_wait ++ (gpio_clr sck_bit ∷ (short_wait ++ (gpio_set sck_bit ∷ gpio_get ∷ []))));
  inputs = after_input bus.inputs;
}

-- The loop of `spi_read_byte`.
unfoldable pub read_rounds : ℕ → ℕ → Bus → ℕ × Bus
read_rounds zero b bus = (b, bus)
read_rounds (suc n) b bus =
    read_rounds n (u32 (bit_or b (bit_and (next_input bus.inputs) miso_bit) <<< 1)) (after_read bus)

-- `b >>= (MISO + 1)`
unfoldable pub spi_read_byte : Bus → ℕ × Bus
spi_read_byte bus = let (b, bus') = read_rounds 8 0 bus in (b >>> 10, bus')

-- `0x40 | (0x1F & address)` and the other commands.
abbrev pub command : ℕ → ℕ → ℕ
command op address = bit_or op (bit_and 0x1F address)

abbrev pub send_command : ℕ → ℕ → ℕ → Bus → Bus
send_command op address bits bus =
    deassert_cs (spi_write_byte bits (spi_write_byte (command op address) (assert_cs bus)))

unfoldable pub write_control_register : ℕ → ℕ → Bus → Bus
write_control_register address bits bus = send_command 0x40 address bits bus

unfoldable pub clear_control_register : ℕ → ℕ → Bus → Bus
clear_control_register address bits bus = send_command 0xA0 address bits bus

unfoldable pub set_control_register : ℕ → ℕ → Bus → Bus
set_control_register address bits bus = send_command 0x80 address bits bus

unfoldable pub read_control_register : ℕ → Bus → ℕ × Bus
read_control_register address bus =
    let (value, bus') = spi_read_byte (spi_write_byte (command 0 address) (assert_cs bus)) in
    (value, deassert_cs bus')

unfoldable pub write_control_register_word : ℕ → ℕ → Bus → Bus
write_control_register_word address bits bus =
    write_control_register (address + 1) (bits >>> 8) (write_control_register address bits bus)

-- The high byte is read first; the order of the two calls is the compiler's.
unfoldable pub read_control_register_word : ℕ → Bus → ℕ × Bus
read_control_register_word address bus =
    let (high, bus1) = read_control_register (address + 1) bus in
    let (low, bus2) = read_control_register address bus1 in
    (bit_or (bit_and high 0xFF <<< 8) (bit_and low 0xFF), bus2)

unfoldable pub buffer_write_loop : List ℕ → Bus → Bus
buffer_write_loop [] bus = bus
buffer_write_loop (b ∷ bytes) bus = buffer_write_loop bytes (spi_write_byte b bus)

-- `buffer_write`, given the `len` bytes from `buf + off` on.
unfoldable pub buffer_write : List ℕ → Bus → Bus
buffer_write bytes bus = deassert_cs (buffer_write_loop bytes (spi_write_byte 0x7A (assert_cs bus)))

unfoldable pub buffer_read_loop : ℕ → Bus → List ℕ × Bus
buffer_read_loop zero bus = ([], bus)
buffer_read_loop (suc len) bus =
    let (b, bus1) = spi_read_byte bus in
    let (bytes, bus2) = buffer_read_loop len bus1 in (u8 b ∷ bytes, bus2)

-- `buffer_read`: the bytes that go to `buf + off`.
unfoldable pub buffer_read : ℕ → Bus → List ℕ × Bus
buffer_read len bus =
    let (bytes, bus') = buffer_read_loop len (spi_write_byte 0x3A (assert_cs bus)) in
    (bytes, deassert_cs bus')
