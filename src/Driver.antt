-- ===== src/Driver.antt =====
-- The Ethernet driver of src/eth_driver.c over the SPI commands. `none` is `exit(-1)`, or a chip
-- that stays busy for longer than the fuel.
pub mod Receive
pub mod Present
pub mod Registers
pub mod Phy
pub mod Setup
pub mod Address
pub mod Agrees
pub mod MacText
use eth_transfer.Base.{
  ℕ, zero, suc, ◌+◌, ◌-◌, ◌*◌, ◌%◌, List, [], ◌∷◌, ◌++◌, length, get_or, take, drop, Bool, true,
  false, Option, none, some, bit_and, bit_or, ◌==◌, not, slt, sle, sub32, add32, ◌<<<◌,
  if◌then◌else◌, ◌>>=◌, ◌||◌,
}
use eth_transfer.Ethernet.{EthPacket, be16_at}
use eth_transfer.Stack.Input.{Received, nothing, arp, ip, unknown}
use eth_transfer.Spi.{
  Bus, write_control_register, read_control_register, clear_control_register, set_control_register,
  write_control_register_word, read_control_register_word, buffer_read, buffer_write,
}
use eth_transfer.Spi.Banks.{Banks, push_bank, pop_bank, in_bank, econ1}

abbrev pub packet_max_size : ℕ
packet_max_size = 2048

abbrev pub rx_end : ℕ
rx_end = 0x1FFF - 0x0C00

abbrev pub tx_start : ℕ
tx_start = rx_end + 1

-- Calls that give no result.
abbrev pub plain : (Bus → Bus) → Bus → Unit {0} × Bus
plain f bus = (tt, f bus)

abbrev pub on_bus : (Bus → Bus) → Banks → Banks
on_bus f s = record s { bus = f s.bus }

-- The first half of `test_present`: the bank bits of ECON1 behind their clearing.
abbrev pub clear_probe : Bus → ℕ × Bus
clear_probe bus = read_control_register econ1 (clear_control_register econ1 0x3 bus)

abbrev pub set_probe : Bus → ℕ × Bus
set_probe bus = read_control_register econ1 (set_control_register econ1 0x3 bus)

unfoldable pub test_present : Banks → Option (Bool × Banks)
test_present s = in_bank 0 clear_probe s >>= (λ first.
    if not (bit_and first.0 0x3 == 0)
    then (pop_bank first.1 >>= (λ t. some (false, t)))
    else (in_bank 0 set_probe first.1 >>= (λ second. some (bit_and second.0 0x3 == 0x3, second.1))))

unfoldable pub set_rx_range : ℕ → ℕ → Banks → Option Banks
set_rx_range start end s =
    in_bank 0
      (plain
        (λ bus. write_control_register_word 0x0A end (write_control_register_word 0x08 start bus)))
      s
    >>= (λ r. some r.1)

-- `size`, an `int`
unfoldable pub packet_size : ℕ → ℕ → ℕ
packet_size next_packet read_pointer =
    let size = sub32 (sub32 next_packet read_pointer) 6 in
    if slt size 0 then add32 size (rx_end + 1) else size

abbrev pub little_endian : List ℕ → ℕ
little_endian bytes = bit_or (get_or bytes 1 0 <<< 8) (get_or bytes 0 0)

-- What the bytes of a packet of this size are, on memory that holds `stale`.
unfoldable pub classify : ℕ → List ℕ → Received
classify size buffer =
    let eth : EthPacket = record { buffer = buffer; length = sub32 size 4 } in
    if slt size 14
    then unknown eth
    else if be16_at buffer 12 == 0x0800
    then ip eth
    else if be16_at buffer 12 == 0x0806
    then arp eth
    else unknown eth

abbrev pub count_of : ℕ → ℕ
count_of size = if slt 0 size then size else 0

-- `buffer_read(packet->buffer, 0, size)`, or the read pointer moved over a packet that is too long.
unfoldable pub copy_packet : ℕ → ℕ → Bus → List ℕ × Bus
copy_packet next_packet size bus =
    if sle size packet_max_size
    then buffer_read (count_of size) bus
    else ([], write_control_register_word 0x00 next_packet bus)

abbrev pub received_of : List ℕ → ℕ → List ℕ → Received
received_of stale size bytes =
    if sle size packet_max_size
    then classify size (bytes ++ drop (count_of size) stale)
    else nothing

-- The part of `get_packet` behind the sizes.
unfoldable pub take_packet : List ℕ → ℕ → ℕ → Banks → Option (Received × Banks)
take_packet stale next_packet size s =
    let (bytes, bus) = copy_packet next_packet size s.bus in
    in_bank 0 (plain (write_control_register_word 0x0C next_packet)) (record s { bus = bus })
    >>= (λ r. some (received_of stale size bytes, on_bus (set_control_register 0x1E 0x40) r.1))

-- The two numbers in front of a packet, the second of them unused, and the packet.
unfoldable pub read_packet : List ℕ → ℕ → Banks → Option (Received × Banks)
read_packet stale read_pointer s =
    let (short, bus1) = buffer_read 2 s.bus in
    let (status, bus2) = buffer_read 4 bus1 in
    let next_packet = little_endian short in
    take_packet stale next_packet (packet_size next_packet read_pointer) (record s { bus = bus2 })

unfoldable pub get_packet : List ℕ → Banks → Option (Received × Banks)
get_packet stale s = in_bank 1 (read_control_register 0x19) s >>= (λ count.
    if count.0 == 0
    then some (nothing, count.1)
    else (in_bank 0 (read_control_register_word 0x00) count.1
        >>= (λ pointer. read_packet stale pointer.0 pointer.1)))

-- `while (read_control_register(ECON1) & ECON1_TXRTS)`
unfoldable pub wait_sent : ℕ → Banks → Option Banks
wait_sent zero s = none
wait_sent (suc fuel) s =
    let (value, bus) = read_control_register econ1 s.bus in
    let again = wait_sent fuel (record s { bus = bus }) in
    if bit_and value 0x08 == 0 then some (record s { bus = bus }) else again

-- A packet whose type is set, with the bytes as on the wire.
unfoldable pub send_packet : ℕ → EthPacket → Banks → Option (Bool × Banks)
send_packet fuel packet s =
    let bytes = take packet.length packet.buffer in
    let filled =
      buffer_write bytes
        (buffer_write (0x0E ∷ []) (write_control_register_word 0x02 tx_start s.bus)) in
    let pointers = plain (λ bus.
      write_control_register_word 0x06 (tx_start + packet.length)
        (write_control_register_word 0x04 tx_start bus)) in
    let sent =
      in_bank 0 pointers (record s { bus = filled })
      >>= (λ r. wait_sent fuel (on_bus (set_control_register econ1 0x08) r.1))
      >>= (λ t. some (true, t)) in
    if slt packet.length 0 || slt packet_max_size packet.length then some (false, s) else sent
