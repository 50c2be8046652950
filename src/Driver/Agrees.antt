-- ===== src/Driver/Agrees.antt =====
-- `get_packet` of src/eth_driver.c and the bank of the chip.
use mathlib.Core.Path.{subst}
use eth_transfer.Driver.Receive.{get_packet-SameBanks}
use eth_transfer.Base.{
  ℕ, ◌+◌, ◌<◌, ◌≡◌, refl, sym, some_inj, ap, ◌∙◌, List, ◌++◌, length, some, ◌==◌, ◌>>>◌, Bool-cases,
  inl, inr, sle, arith,
}
use eth_transfer.Stack.Input.{Received, nothing}
use eth_transfer.Spi.{
  Bus, command, set_control_register, read_control_register, read_control_register_word,
  write_control_register, write_control_register_word, buffer_read,
}
use eth_transfer.Spi.Write.{byte_bits}
use eth_transfer.Spi.Banks.{Banks, SameBanks}
use eth_transfer.Spi.Chip.{line_of, IsIdle}
use eth_transfer.Spi.Chip.Commands.{
  send_command-Sends, read_control_register-SendsByte, buffer_read-SendsByte,
}
use eth_transfer.Spi.Chip.Agrees.{chip_bank, chip_bank-Sends, Agrees, in_bank-Agrees}
use eth_transfer.Driver.{
  received_of, copy_packet, count_of, packet_max_size, read_packet, on_bus, packet_size,
  take_packet, get_packet, plain, little_endian,
}

-- An access that keeps the bus idle and the bank of the chip.
abbrev KeepsBank : Bus → Bus → Type 0
KeepsBank bus next = IsIdle (line_of next) × (chip_bank next ≡ chip_bank bus)

KeepsBank-Agrees :
    (s : Banks) (next : Bus) → Agrees s → KeepsBank s.bus next → Agrees (record s { bus = next })
KeepsBank-Agrees s next agrees kept = (kept.0, kept.1 ∙ agrees.1)

KeepsBank-trans : (a b c : Bus) → KeepsBank a b → KeepsBank b c → KeepsBank a c
KeepsBank-trans a b c h k = (k.0, k.1 ∙ h.1)

buffer_read-KeepsBank :
    (len : ℕ) (bus : Bus) → IsIdle (line_of bus) → KeepsBank bus (buffer_read len bus).1
buffer_read-KeepsBank len bus idle =
    let (xs, sent) = buffer_read-SendsByte len bus idle in
    (sent.0, chip_bank-Sends bus (buffer_read len bus).1 (byte_bits 0x3A ++ xs) sent)

write_control_register-IsIdle :
    (address bits : ℕ) (bus : Bus)
    → IsIdle (line_of bus)
    → IsIdle (line_of (write_control_register address bits bus))
unfolding write_control_register
write_control_register-IsIdle address bits bus idle =
    (send_command-Sends 0x40 address bits bus idle).0

write_control_register_word-IsIdle :
    (address bits : ℕ) (bus : Bus)
    → IsIdle (line_of bus)
    → IsIdle (line_of (write_control_register_word address bits bus))
unfolding write_control_register_word
write_control_register_word-IsIdle address bits bus idle =
    write_control_register-IsIdle (address + 1) (bits >>> 8)
      (write_control_register address bits bus)
      (write_control_register-IsIdle address bits bus idle)

-- The registers 0 and 1 are not ECON1.
write_pointer-KeepsBank :
    (bits : ℕ) (bus : Bus)
    → IsIdle (line_of bus)
    → KeepsBank bus (write_control_register_word 0x00 bits bus)
unfolding write_control_register_word write_control_register
write_pointer-KeepsBank bits bus idle =
    let low = send_command-Sends 0x40 0x00 bits bus idle in
    let next = write_control_register 0x00 bits bus in
    let high = send_command-Sends 0x40 (0x00 + 1) (bits >>> 8) next low.0 in
    (
      high.0,
      chip_bank-Sends next (write_control_register (0x00 + 1) (bits >>> 8) next)
            (byte_bits (command 0x40 (0x00 + 1)) ++ byte_bits (bits >>> 8)) high
          ∙ chip_bank-Sends bus next (byte_bits (command 0x40 0x00) ++ byte_bits bits) low,
    )

pub read_control_register-IsIdle :
    (address : ℕ) (bus : Bus)
    → IsIdle (line_of bus)
    → IsIdle (line_of (read_control_register address bus).1)
read_control_register-IsIdle address bus idle =
    (read_control_register-SendsByte address bus idle).1.0

read_control_register_word-IsIdle :
    (address : ℕ) (bus : Bus)
    → IsIdle (line_of bus)
    → IsIdle (line_of (read_control_register_word address bus).1)
unfolding read_control_register_word
read_control_register_word-IsIdle address bus idle =
    read_control_register-IsIdle address (read_control_register (address + 1) bus).1
      (read_control_register-IsIdle (address + 1) bus idle)

copy_packet-KeepsBank :
    (next_packet size : ℕ) (bus : Bus)
    → IsIdle (line_of bus)
    → KeepsBank bus (copy_packet next_packet size bus).1
unfolding copy_packet
copy_packet-KeepsBank next_packet size bus idle = elim (Bool-cases (sle size packet_max_size)) [
  | inl fits ↦ rw fits (buffer_read-KeepsBank (count_of size) bus idle)
  | inr long ↦ rw long (write_pointer-KeepsBank next_packet bus idle)
]

-- ECON2 is not ECON1.
set_done-KeepsBank :
    (bus : Bus) → IsIdle (line_of bus) → KeepsBank bus (set_control_register 0x1E 0x40 bus)
unfolding set_control_register
set_done-KeepsBank bus idle =
    let sent = send_command-Sends 0x80 0x1E 0x40 bus idle in
    (
      sent.0,
      chip_bank-Sends bus (set_control_register 0x1E 0x40 bus)
          (byte_bits (command 0x80 0x1E) ++ byte_bits 0x40) sent,
    )

module _ (stale : List ℕ) where
  take_packet-Agrees :
      (next_packet size : ℕ) (s : Banks)
      → length s.bank_stack < 128
      → Agrees s
      → (r : Received × Banks) × (take_packet stale next_packet size s ≡ some r) × Agrees r.1
  unfolding take_packet
  take_packet-Agrees next_packet size s free agrees =
      let (bytes, bus) = copy_packet next_packet size s.bus in
      let copied = copy_packet-KeepsBank next_packet size s.bus agrees.0 in
      let (t, pushed, inside, (r, e, value, same, after)) =
        in_bank-Agrees 0 (plain (write_control_register_word 0x0C next_packet))
          (record s { bus = bus }) copied.0 free
          (write_control_register_word-IsIdle 0x0C next_packet) in
      (
        (received_of stale size bytes, on_bus (set_control_register 0x1E 0x40) r.1),
        rw e refl,
        KeepsBank-Agrees r.1 (set_control_register 0x1E 0x40 r.1.bus) after
            (set_done-KeepsBank r.1.bus after.0),
      )

  read_packet-Agrees :
      (read_pointer : ℕ) (s : Banks)
      → length s.bank_stack < 128
      → Agrees s
      → (r : Received × Banks) × (read_packet stale read_pointer s ≡ some r) × Agrees r.1
  unfolding read_packet
  read_packet-Agrees read_pointer s free agrees =
      let (short, bus1) = buffer_read 2 s.bus in
      let (status, bus2) = buffer_read 4 bus1 in
      let one = buffer_read-KeepsBank 2 s.bus agrees.0 in
      let two = buffer_read-KeepsBank 4 bus1 one.0 in
      let next_packet = little_endian short in
      take_packet-Agrees next_packet (packet_size next_packet read_pointer)
        (record s { bus = bus2 }) free
        (KeepsBank-Agrees s bus2 agrees (KeepsBank-trans s.bus bus1 bus2 one two))

get_packet-returns :
    (stale : List ℕ) (s : Banks)
    → length s.bank_stack < 128
    → Agrees s
    → (r : Received × Banks) × (get_packet stale s ≡ some r) × Agrees r.1
unfolding get_packet
get_packet-returns stale s free agrees =
    let (t, pushed, inside, (count, e, value, same, after)) =
      in_bank-Agrees 1 (read_control_register 0x19) s agrees.0 free
        (read_control_register-IsIdle 0x19) in
    let same_length = ap (λ (xs : List ℕ). length xs) same.0 in
    let (t', pushed', inside', (pointer, e', value', same', after')) =
      in_bank-Agrees 0 (read_control_register_word 0x00) count.1 after.0 (omega arith)
        (read_control_register_word-IsIdle 0x00) in
    let same_length' = ap (λ (xs : List ℕ). length xs) same'.0 in
    let (r, k, last) = read_packet-Agrees stale pointer.0 pointer.1 (omega arith) after' in
    elim (Bool-cases (count.0 == 0)) [
      | inl empty ↦ ((nothing, count.1), rw e (rw empty refl), after)
      | inr some_packet ↦ (r, rw e (rw some_packet (rw e' k)), last)
    ]

-- With a free entry in the bank stack, a bus that is idle and a chip that is in the bank of
-- `current_bank`, `get_packet` returns, whatever the chip answers, with the bank stack and
-- `current_bank` as they were, and leaves the bus idle and the chip in the bank of `current_bank`, as
-- the chip reads the pins.
pub get_packet-Agrees :
    (stale : List ℕ) (s : Banks)
    → length s.bank_stack < 128
    → Agrees s
    → (r : Received × Banks) × (get_packet stale s ≡ some r) × SameBanks s r.1 × Agrees r.1
get_packet-Agrees stale s free agrees =
    let (r, e, same) = get_packet-SameBanks stale s free in
    let (r', e', agrees') = get_packet-returns stale s free agrees in
    (r, e, same, subst (λ (x : Received × Banks). Agrees x.1) (some_inj (sym e' ∙ e)) agrees')
