-- ===== src/Driver/Setup.antt =====
-- `init_ethernet`, `set_receive_enable` and `close_ethernet` of src/eth_driver.c. The file
-- eth_mac.txt is its text.
use eth_transfer.Base.{
  ℕ, zero, suc, List, [], ◌∷◌, get_or, take, Bool, true, false, not, ◌==◌, Option, none, some,
  bit_and, bit_or, u8, if◌then◌else◌, ◌>>=◌,
}
use eth_transfer.Spi.{
  Bus, write_control_register, read_control_register, clear_control_register, set_control_register,
  write_control_register_word,
}
use eth_transfer.Spi.Banks.{Banks, push_bank, pop_bank, econ1}
use eth_transfer.Spi.Setup.{System, Mapping, GpioState, init_gpio_spi, close_gpio_spi}
use eth_transfer.Driver.{on_bus, test_present, set_rx_range, rx_end, tx_start}
use eth_transfer.Driver.MacText.{mac_text, scan_mac}
use eth_transfer.Driver.Phy.{soft_reset, set_read_pointer, set_write_pointer, write_phy_reg}
use eth_transfer.Driver.Registers.{
  estat, econ1_rxen, macon1, macon3, macon4, mabbipg, maipgl, mamxfll, macon1_txpaus, macon1_rxpaus,
  macon1_passall, macon1_marxen, macon3_padcfg, macon3_txcrcen, macon3_frmlnen, macon3_fuldpx,
  macon4_defer, maadr1, maadr2, maadr3, maadr4, maadr5, maadr6, phcon1, phcon1_pdpxmd,
}

-- The registers of bank 2.
unfoldable pub mac_settings : Bus → Bus
mac_settings bus = write_control_register_word maipgl 0x12 (
    write_control_register mabbipg 0x15 (
      write_control_register_word mamxfll 1518 (
        write_control_register macon4 macon4_defer (
          write_control_register macon3
            (bit_or (bit_or (bit_or macon3_padcfg macon3_txcrcen) macon3_frmlnen) macon3_fuldpx)
            (write_control_register macon1
              (bit_or (bit_or (bit_or macon1_txpaus macon1_rxpaus) macon1_passall) macon1_marxen)
              bus)))))

-- The address, in bank 3.
unfoldable pub write_mac : List ℕ → Bus → Bus
write_mac mac bus = write_control_register maadr6 (get_or mac 5 0) (
    write_control_register maadr5 (get_or mac 4 0) (
      write_control_register maadr4 (get_or mac 3 0) (
        write_control_register maadr3 (get_or mac 2 0) (
          write_control_register maadr2 (get_or mac 1 0)
            (write_control_register maadr1 (get_or mac 0 0) bus)))))

abbrev pub in_plain : ℕ → (Bus → Bus) → Banks → Option Banks
in_plain bank access s = push_bank bank s >>= (λ t. pop_bank (on_bus access t))

unfoldable pub receive_on : ℕ → List ℕ → Banks → Option Banks
receive_on fuel mac s =
    in_plain 2 mac_settings (on_bus (clear_control_register econ1 econ1_rxen) s)
    >>= in_plain 3 (write_mac mac)
    >>= write_phy_reg fuel phcon1 phcon1_pdpxmd
    >>= (λ t. some (on_bus (set_control_register econ1 econ1_rxen) t))

unfoldable pub receive_off : Banks → Option Banks
receive_off s =
    in_plain 2 (clear_control_register macon1 macon1_marxen) s
    >>= (λ t. some (on_bus (clear_control_register econ1 econ1_rxen) t))

unfoldable pub set_receive_enable : ℕ → Bool → List ℕ → Banks → Option Banks
set_receive_enable fuel receive mac s = if receive then receive_on fuel mac s else receive_off s

abbrev pub each_u8 : List ℕ → List ℕ
each_u8 [] = []
each_u8 (b ∷ bs) = u8 b ∷ each_u8 bs

-- The random bytes with the bits of a unicast and local address.
abbrev pub create_mac : List ℕ → List ℕ
create_mac [] = []
create_mac (byte ∷ bytes) = bit_or (bit_and (u8 byte) 0xFE) 0x02 ∷ each_u8 bytes

-- What the driver keeps: the pins, the banks, `mac_address`, and the text of the file with the
-- address, `none` where there is no file.
pub record Board : Type 0 where
  pub mapping : Mapping
  pub registers : List ℕ
  pub banks : Banks
  pub mac_address : List ℕ
  pub mac_file : Option (List ℕ)

-- Without an address in the file, one is made of six values of `rand()` and saved, where the file
-- can be written.
unfoldable pub new_mac : List ℕ → Bool → Board → Board
new_mac random writable b =
    let mac = create_mac (take 6 random) in
    record b { mac_address = mac; mac_file = if writable then some (mac_text mac) else b.mac_file }

-- The file has an address where `fscanf` stores six numbers.
abbrev pub mac_of : List ℕ → Bool → Board → Option (List ℕ) → Board
mac_of random writable b none = new_mac random writable b
mac_of random writable b (some fields) = record b { mac_address = each_u8 fields }

abbrev pub mac_from : List ℕ → Bool → Board → Option (List ℕ) → Board
mac_from random writable b none = new_mac random writable b
mac_from random writable b (some text) = mac_of random writable b (scan_mac text)

unfoldable pub load_mac : List ℕ → Bool → Board → Board
load_mac random writable b = mac_from random writable b b.mac_file

-- `for (i = 0; i < 100 && !clk_ready; i++)`
unfoldable pub clock_loop : ℕ → Bus → Bool × Bus
clock_loop zero bus = (false, bus)
clock_loop (suc n) bus =
    let (status, bus') = read_control_register estat bus in
    let rest = clock_loop n bus' in if bit_and status 0x01 == 0 then rest else (true, bus')

-- The part of `init_ethernet` behind the address.
unfoldable pub start_chip : ℕ → Board → Option (Bool × Board)
start_chip fuel b = set_rx_range 0 rx_end b.banks >>= (λ s.
    let (ready, bus) = clock_loop 100 (set_read_pointer 0 (set_write_pointer tx_start s.bus)) in
    let waited = record s { bus = bus } in
    if not ready
    then some (false, record b { banks = waited })
    else (set_receive_enable fuel true b.mac_address waited
        >>= (λ t. some (true, record b { banks = t }))))

unfoldable pub init_chip : ℕ → List ℕ → Bool → Board → Option (Bool × Board)
init_chip fuel random writable b = test_present (on_bus soft_reset b.banks) >>= (λ present.
    let found = record b { banks = present.1 } in
    if not present.0 then some (false, found) else start_chip fuel (load_mac random writable found))

abbrev pub pins_of : Board → GpioState
pins_of b = record { mapping = b.mapping; registers = b.registers; bus = b.banks.bus }

abbrev pub with_pins : GpioState → Board → Board
with_pins pins b = record b {
  mapping = pins.mapping;
  registers = pins.registers;
  banks = record (b.banks) { bus = pins.bus };
}

unfoldable pub init_ethernet : ℕ → System → List ℕ → Bool → Board → Option (Bool × Board)
init_ethernet fuel system random writable b =
    let opened = init_gpio_spi system (pins_of b) in
    let board = with_pins opened.1 b in
    if not opened.0 then some (false, board) else init_chip fuel random writable board

unfoldable pub close_ethernet : Board → Option (Bool × Board)
close_ethernet b = set_receive_enable 0 false b.mac_address b.banks >>= (λ s.
    let closed = close_gpio_spi (pins_of (record b { banks = s })) in
    some (closed.0, with_pins closed.1 (record b { banks = s })))
