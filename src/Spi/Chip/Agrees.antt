-- ===== src/Spi/Chip/Agrees.antt =====
-- The bank that the chip is in, by the data sheet: the two low bits of ECON1, which every bank has
-- at address 31; and `set_bank`, `push_bank` and `pop_bank` of src/gpio_spi.c with their
-- `current_bank`.
use eth_transfer.Base.{
  ℕ, ◌+◌, ◌*◌, ◌/◌, ◌%◌, ◌^◌, ◌<◌, ◌≡◌, refl, ap, ◌∙◌, List, [], ◌∷◌, ◌++◌, length, get_or, leb,
  false, some, bit_and, bit_and-mask, ◌==◌, if◌then◌else◌, arith,
}
use eth_transfer.Spi.{Bus, command, set_control_register, clear_control_register}
use eth_transfer.Spi.Write.{byte_bits}
use eth_transfer.Spi.Banks.{
  Banks, set_bank, push_bank, pop_bank, in_bank, econ1, econ1_bsel, bank_stack_size, SameBanks,
}
use eth_transfer.Spi.Chip.{line_of, IsIdle}
use eth_transfer.Spi.Chip.Commands.{Sends, send_command-Sends}

-- The bank bits behind a command on ECON1 with these data bits: 2 writes, 4 sets bits, 5 clears
-- bits, and 7 is the reset.
abbrev pub bank_bit : ℕ → ℕ → ℕ → ℕ
bank_bit op bit level =
    if op == 2
    then bit
    else if op == 4
    then (if bit == 1 then 1 else level)
    else if op == 5
    then (if bit == 1 then 0 else level)
    else if op == 7
    then 0
    else level

-- What a command does to the bank: three bits of operation, five of address, and the data.
abbrev pub execute : List ℕ → ℕ → ℕ
execute (o2 ∷ o1 ∷ o0 ∷ a4 ∷ a3 ∷ a2 ∷ a1 ∷ a0 ∷ rest) bank =
    let op = o2 * 4 + o1 * 2 + o0 in
    if a4 * 16 + a3 * 8 + a2 * 4 + a1 * 2 + a0 == 31
    then bank_bit op (get_or rest 6 0) (bank / 2 % 2) * 2 + bank_bit op (get_or rest 7 0) (bank % 2)
    else bank
execute _ bank = bank

abbrev pub bank_after : List (List ℕ) → ℕ → ℕ
bank_after [] bank = bank
bank_after (frame ∷ frames) bank = bank_after frames (execute frame bank)

-- The bank of the chip, which starts in bank 0.
abbrev pub chip_bank : Bus → ℕ
chip_bank bus = bank_after (line_of bus).frames 0

bank_after-append :
    (frames : List (List ℕ)) (frame : List ℕ) (bank : ℕ)
    → bank_after (frames ++ (frame ∷ [])) bank ≡ execute frame (bank_after frames bank)
bank_after-append [] frame bank = refl
bank_after-append (f ∷ frames) frame bank = bank_after-append frames frame (execute f bank)

pub chip_bank-Sends :
    (bus next : Bus) (frame : List ℕ)
    → Sends bus frame next
    → chip_bank next ≡ execute frame (chip_bank bus)
chip_bank-Sends bus next frame sent =
    ap (λ (fs : List (List ℕ)). bank_after fs 0) sent.1
    ∙ bank_after-append (line_of bus).frames frame 0

-- The bus is idle, and the chip is in the bank that the driver has in `current_bank`.
abbrev pub Agrees : Banks → Type 0
Agrees s = IsIdle (line_of s.bus) × (chip_bank s.bus ≡ s.current_bank % 4)

-- Setting bits from none.
set_bits :
    (bits bank : ℕ)
    → bits ≡ bank % 2 ^ 2
    → bank_bit 4 (bits / 2 % 2) 0 * 2 + bank_bit 4 (bits % 2) 0 ≡ bank % 4
set_bits bits bank e = ground arith

set_bank-Agrees : (bank : ℕ) (s : Banks) → IsIdle (line_of s.bus) → Agrees (set_bank bank s)
unfolding set_bank clear_control_register set_control_register
set_bank-Agrees bank s idle =
    let cleared = clear_control_register econ1 econ1_bsel s.bus in
    let first = send_command-Sends 0xA0 econ1 econ1_bsel s.bus idle in
    let second = send_command-Sends 0x80 econ1 (bit_and bank econ1_bsel) cleared first.0 in
    let none_set : chip_bank cleared ≡ 0 =
      chip_bank-Sends s.bus cleared (byte_bits (command 0xA0 econ1) ++ byte_bits econ1_bsel)
        first in
    let bits = bit_and bank econ1_bsel in
    let next = set_control_register econ1 bits cleared in
    let frame = byte_bits (command 0x80 econ1) ++ byte_bits bits in
    let last = chip_bank-Sends cleared next frame second ∙ ap (execute frame) none_set in
    (second.0, last ∙ set_bits bits bank (bit_and-mask 2 bank))

-- With the bus idle and a free entry in the bank stack, the chip is in the bank that `push_bank` names
-- while the access runs, and after `pop_bank` it is in the bank that the driver had before, which
-- `current_bank` and the bank stack show again: the chip, as it reads the pins, does what the bank
-- stack promises, for any access that leaves the bus idle.
pub in_bank-Agrees :
    {A : Type 0} (bank : ℕ) (access : Bus → A × Bus) (s : Banks)
    → IsIdle (line_of s.bus)
    → length s.bank_stack < 128
    → ((bus : Bus) → IsIdle (line_of bus) → IsIdle (line_of (access bus).1))
    → (t : Banks) × (push_bank bank s ≡ some t)
      × (chip_bank t.bus ≡ bank % 4)
      × ((r : A × Banks) × (in_bank bank access s ≡ some r)
          × (r.0 ≡ (access t.bus).0)
          × SameBanks s r.1
          × Agrees r.1)
unfolding push_bank pop_bank set_bank
in_bank-Agrees bank access s idle free keeps =
    let not_full : leb bank_stack_size (length s.bank_stack) ≡ false = ground arith in
    let pushed : Banks = record s { bank_stack = s.current_bank ∷ s.bank_stack } in
    let t = set_bank bank pushed in
    let agrees = set_bank-Agrees bank pushed idle in
    let r = access t.bus in
    let popped : Banks = record t { bus = r.1; bank_stack = s.bank_stack } in
    (
      t,
      rw not_full refl,
      agrees.1,
      (
        (r.0, set_bank s.current_bank popped),
        rw not_full refl,
        refl,
        (refl, refl),
        set_bank-Agrees s.current_bank popped (keeps t.bus agrees.0),
      ),
    )
