-- ===== src/Tests/Chip.antt =====
-- The SPI bus and the driver: witnesses.
use eth_transfer.Base.{
  ℕ, ◌%◌, ◌≡◌, ◌≢◌, refl, List, [], ◌∷◌, ◌++◌, Bool, some, none, bit_and, ◌⊎◌, arith,
}
use eth_transfer.Spi.{Event, gpio_set, Bus, spi_write_byte, spi_read_byte, read_control_register}
use eth_transfer.Spi.Write.{sampled, byte_bits, spi_write_byte-sampled}
use eth_transfer.Spi.Read.{spi_read_byte-Shows}
use eth_transfer.Spi.Banks.{Banks, push_bank, in_bank, SameBanks}
use eth_transfer.Spi.Chip.Agrees.{chip_bank, Agrees, in_bank-Agrees}
use eth_transfer.Driver.Agrees.{read_control_register-IsIdle, get_packet-Agrees}
use eth_transfer.Stack.Input.{Received}
use eth_transfer.Driver.{get_packet, test_present, clear_probe}
use eth_transfer.Driver.Present.{test_present-exits}
use eth_transfer.Tests.Data.{zeros}

-- Eight words with 0xA5 on MISO, other pins up in some of them.
abbrev shown_words : List ℕ
shown_words = 0x200 ∷ 0x800 ∷ 0x300 ∷ 0 ∷ 0 ∷ 0x200 ∷ 0x100 ∷ 0xA00 ∷ []

abbrev shown_bus : Bus
shown_bus = record { trace = gpio_set 0x100 ∷ []; inputs = shown_words ++ (7 ∷ []) }

spi_write_byte-sampled_example :
    (events : List Event) × ((spi_write_byte 0xA5 shown_bus).trace ≡ shown_bus.trace ++ events)
    × (sampled events (record { sck = 1; mosi = 1 }) ≡ byte_bits 0xA5)
spi_write_byte-sampled_example =
    spi_write_byte-sampled 0xA5 shown_bus (record { sck = 1; mosi = 1 }) (omega arith)

spi_read_byte-Shows_example :
    ((spi_read_byte shown_bus).0 ≡ 0xA5) × ((spi_read_byte shown_bus).1.inputs ≡ 7 ∷ [])
spi_read_byte-Shows_example =
    spi_read_byte-Shows 0xA5 shown_words (7 ∷ []) shown_bus (omega arith) refl refl

abbrev at_start : Banks
at_start = record { bus = shown_bus; bank_stack = []; current_bank = 0 }

test_present-exits_example :
    (first : ℕ × Banks) × (in_bank 0 clear_probe at_start ≡ some first)
    × (((bit_and first.0 0x3 ≡ 0)
          × ((r : Bool × Banks) × (test_present at_start ≡ some r) × SameBanks at_start r.1))
        ⊎ ((bit_and first.0 0x3 ≢ 0) × (test_present at_start ≡ none)))
test_present-exits_example = test_present-exits at_start refl

-- The chip as it starts, with two banks on the stack.
abbrev two_pushed : Banks
two_pushed = record {
  bus = record { trace = []; inputs = shown_words };
  bank_stack = 1 ∷ 0 ∷ [];
  current_bank = 0;
}

in_bank-Agrees_example :
    (t : Banks) × (push_bank 3 two_pushed ≡ some t)
    × (chip_bank t.bus ≡ 3 % 4)
    × ((r : ℕ × Banks) × (in_bank 3 (read_control_register 0x0A) two_pushed ≡ some r)
        × (r.0 ≡ (read_control_register 0x0A t.bus).0)
        × SameBanks two_pushed r.1
        × Agrees r.1)
in_bank-Agrees_example =
    in_bank-Agrees 3 (read_control_register 0x0A) two_pushed (refl, refl) (omega arith)
      (read_control_register-IsIdle 0x0A)

get_packet-Agrees_example :
    (r : Received × Banks) × (get_packet zeros two_pushed ≡ some r)
    × SameBanks two_pushed r.1
    × Agrees r.1
get_packet-Agrees_example = get_packet-Agrees zeros two_pushed (omega arith) ((refl, refl), refl)
