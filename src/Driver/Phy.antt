-- ===== src/Driver/Phy.antt =====
-- The part of src/gpio_spi.c behind the register commands: the reset, the buffer pointers, and the
-- physical registers, which the chip reaches over a busy flag. A wait takes fuel, since it ends when
-- the chip shows the flag down.
use eth_transfer.Base.{ℕ, zero, suc, Option, none, some, bit_and, ◌==◌, ◌>>>◌, if◌then◌else◌, ◌>>=◌}
use eth_transfer.Spi.{
  Bus, assert_cs, deassert_cs, spi_write_byte, write_control_register, read_control_register,
  clear_control_register, set_control_register, write_control_register_word,
  read_control_register_word,
}
use eth_transfer.Spi.Banks.{Banks, push_bank, pop_bank}
use eth_transfer.Driver.{on_bus}
use eth_transfer.Driver.Registers.{
  erdptl, ewrptl, mistat, mistat_busy, miregadr, micmd, micmd_miird, mirdl, miwrl, miwrh,
}

unfoldable pub soft_reset : Bus → Bus
soft_reset bus = deassert_cs (spi_write_byte 0xFF (assert_cs bus))

unfoldable pub set_read_pointer : ℕ → Bus → Bus
set_read_pointer address bus = write_control_register_word erdptl address bus

unfoldable pub set_write_pointer : ℕ → Bus → Bus
set_write_pointer address bus = write_control_register_word ewrptl address bus

-- `while (read_control_register(MISTAT) & MISTAT_BUSY)`
unfoldable pub busy_loop : ℕ → Banks → Option Banks
busy_loop zero s = none
busy_loop (suc fuel) s =
    let (value, bus) = read_control_register mistat s.bus in
    let again = busy_loop fuel (record s { bus = bus }) in
    if bit_and value mistat_busy == 0 then some (record s { bus = bus }) else again

unfoldable pub wait_busy : ℕ → Banks → Option Banks
wait_busy fuel s = push_bank 3 s >>= (λ t. busy_loop fuel t >>= pop_bank)

-- What `read_phy_reg` does in bank 2 before and behind `wait_busy`.
unfoldable pub start_phy_read : ℕ → Bus → Bus
start_phy_read address bus =
    set_control_register micmd micmd_miird
      (write_control_register miregadr (bit_and address 0x1F) bus)

unfoldable pub end_phy_read : Banks → Option (ℕ × Banks)
end_phy_read s =
    let (value, bus) =
      read_control_register_word mirdl (clear_control_register micmd micmd_miird s.bus) in
    pop_bank (record s { bus = bus }) >>= (λ t. some (value, t))

unfoldable pub read_phy_reg : ℕ → ℕ → Banks → Option (ℕ × Banks)
read_phy_reg fuel address s =
    push_bank 2 s >>= (λ t. wait_busy fuel (on_bus (start_phy_read address) t) >>= end_phy_read)

unfoldable pub phy_write : ℕ → ℕ → Bus → Bus
phy_write address bits bus =
    write_control_register miwrh (bits >>> 8) (
      write_control_register miwrl bits
        (write_control_register miregadr (bit_and address 0x1F) bus))

unfoldable pub write_phy_reg : ℕ → ℕ → ℕ → Banks → Option Banks
write_phy_reg fuel address bits s =
    push_bank 2 s >>= (λ t. pop_bank (on_bus (phy_write address bits) t) >>= wait_busy fuel)
