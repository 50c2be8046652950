-- ===== src/Driver/Receive.antt =====
-- `get_packet` of src/eth_driver.c: the sizes of packets in the ring of the chip, and the banks.
use eth_transfer.Base.{
  ℕ, ◌+◌, ◌%◌, ◌<◌, ◌≡◌, refl, ap, List, length, some, ◌==◌, Bool-cases, inl, inr, arith,
}
use eth_transfer.Stack.Input.{Received, nothing}
use eth_transfer.Spi.{
  set_control_register, read_control_register, read_control_register_word,
  write_control_register_word, buffer_read,
}
use eth_transfer.Spi.Banks.{Banks, SameBanks, in_bank-SameBanks, SameBanks-trans}
use eth_transfer.Driver.{
  received_of, copy_packet, read_packet, on_bus, packet_size, take_packet, get_packet, plain,
  little_endian,
}

-- A packet that takes `n` bytes behind the six of its header, from any place of the ring of the
-- chip and across its end, has size `n`.
pub packet_size-ring :
    (read_pointer n : ℕ)
    → read_pointer < 0x1400
    → n + 6 < 0x1400
    → packet_size ((read_pointer + 6 + n) % 0x1400) read_pointer ≡ n
unfolding packet_size
packet_size-ring read_pointer n inside small = ground arith

take_packet-SameBanks :
    (stale : List ℕ) (next_packet size : ℕ) (s : Banks)
    → length s.bank_stack < 128
    → (r : Received × Banks) × (take_packet stale next_packet size s ≡ some r) × SameBanks s r.1
unfolding take_packet
take_packet-SameBanks stale next_packet size s free =
    let (bytes, bus) = copy_packet next_packet size s.bus in
    let (r, e, same) =
      in_bank-SameBanks 0 (plain (write_control_register_word 0x0C next_packet))
        (record s { bus = bus }) free in
    ((received_of stale size bytes, on_bus (set_control_register 0x1E 0x40) r.1), rw e refl, same)

read_packet-SameBanks :
    (stale : List ℕ) (read_pointer : ℕ) (s : Banks)
    → length s.bank_stack < 128
    → (r : Received × Banks) × (read_packet stale read_pointer s ≡ some r) × SameBanks s r.1
unfolding read_packet
read_packet-SameBanks stale read_pointer s free =
    let (short, bus1) = buffer_read 2 s.bus in
    let (status, bus2) = buffer_read 4 bus1 in
    let next_packet = little_endian short in
    take_packet-SameBanks stale next_packet (packet_size next_packet read_pointer)
      (record s { bus = bus2 }) free

-- With a free entry in the bank stack `get_packet` returns, whatever the chip answers, and leaves
-- the bank and the bank stack as they were.
pub get_packet-SameBanks :
    (stale : List ℕ) (s : Banks)
    → length s.bank_stack < 128
    → (r : Received × Banks) × (get_packet stale s ≡ some r) × SameBanks s r.1
unfolding get_packet
get_packet-SameBanks stale s free =
    let (count, e, same) = in_bank-SameBanks 1 (read_control_register 0x19) s free in
    let same_length = ap (λ (xs : List ℕ). length xs) same.0 in
    let (pointer, e', same') =
      in_bank-SameBanks 0 (read_control_register_word 0x00) count.1 (omega arith) in
    let same_length' = ap (λ (xs : List ℕ). length xs) same'.0 in
    let (r, k, kept) = read_packet-SameBanks stale pointer.0 pointer.1 (omega arith) in
    elim (Bool-cases (count.0 == 0)) [
      | inl empty ↦ ((nothing, count.1), rw e (rw empty refl), same)
      | inr some_packet ↦ (
        r,
        rw e (rw some_packet (rw e' k)),
        SameBanks-trans s count.1 r.1 same (SameBanks-trans count.1 pointer.1 r.1 same' kept),
      )
    ]
