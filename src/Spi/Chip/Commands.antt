-- ===== src/Spi/Chip/Commands.antt =====
-- The register and buffer commands of src/gpio_spi.c as commands that the chip sees.
use mathlib.Core.Path.{subst}
use eth_transfer.Base.{
  append_nil, ℕ, zero, suc, ◌<<<◌, ◌≡◌, refl, sym, ap, ap₂, ◌∙◌, List, [], ◌∷◌, ◌++◌, u32, bit_or,
  bit_and,
}
use eth_transfer.Spi.{
  Event, Bus, assert_cs, deassert_cs, spi_write_byte, spi_read_byte, read_rounds, after_read,
  next_input, miso_bit, sck_bit, gpio_clr, gpio_set, gpio_get, short_wait, command, send_command,
  read_control_register, buffer_write_loop, buffer_write, buffer_read_loop, buffer_read,
}
use eth_transfer.Spi.Write.{byte_bits}
use eth_transfer.Spi.Chip.{
  Line, line_of, seen, seen-append, start_line, wait_then, IsIdle, Takes, Takes-trans,
  spi_write_byte-Takes, assert_cs-Takes, deassert_cs-Ends,
}

-- The bus goes from idle to idle, and the chip sees one command more.
abbrev pub Sends : Bus → List ℕ → Bus → Type 0
Sends bus frame next =
    IsIdle (line_of next) × ((line_of next).frames ≡ (line_of bus).frames ++ (frame ∷ []))

-- What is taken between `assert_cs` and `deassert_cs` is a command.
pub Sends-deassert_cs :
    (bus inner : Bus) (frame : List ℕ)
    → IsIdle (line_of bus)
    → Takes (line_of bus) frame (line_of inner)
    → Sends bus frame (deassert_cs inner)
Sends-deassert_cs bus inner frame idle taken =
    let (rest, ended) = deassert_cs-Ends inner taken.0 in
    (
      rest,
      ended
          ∙ ap₂ (λ (fs : List (List ℕ)) (f : List ℕ). fs ++ (f ∷ [])) taken.2
              (taken.1 ∙ ap (λ (xs : List ℕ). xs ++ frame) idle.1),
    )

-- The first byte of a command.
pub first_byte-Takes :
    (b : ℕ) (bus : Bus)
    → IsIdle (line_of bus)
    → Takes (line_of bus) (byte_bits b) (line_of (spi_write_byte b (assert_cs bus)))
first_byte-Takes b bus idle =
    let selected = assert_cs-Takes bus idle in
    Takes-trans (line_of bus) (line_of (assert_cs bus)) (line_of (spi_write_byte b (assert_cs bus)))
      [] (byte_bits b) selected (spi_write_byte-Takes b (assert_cs bus) selected.0)

pub send_command-Sends :
    (op address data_bits : ℕ) (bus : Bus)
    → IsIdle (line_of bus)
    → Sends bus
        (byte_bits (command op address) ++ byte_bits data_bits)
        (send_command op address data_bits bus)
send_command-Sends op address data_bits bus idle =
    let first = first_byte-Takes (command op address) bus idle in
    let opened = spi_write_byte (command op address) (assert_cs bus) in
    Sends-deassert_cs bus (spi_write_byte data_bits opened)
      (byte_bits (command op address) ++ byte_bits data_bits) idle
      (Takes-trans (line_of bus) (line_of opened) (line_of (spi_write_byte data_bits opened))
        (byte_bits (command op address)) (byte_bits data_bits) first
        (spi_write_byte-Takes data_bits opened first.0))

-- Some bits are taken.
abbrev pub TakesSome : Line → Line → Type 0
TakesSome l m = (xs : List ℕ) × Takes l xs m

TakesSome-trans : (l m n : Line) → TakesSome l m → TakesSome m n → TakesSome l n
TakesSome-trans l m n h k = (h.0 ++ k.0, Takes-trans l m n h.0 k.0 h.1 k.1)

abbrev clock_in : List Event
clock_in = gpio_clr sck_bit ∷ (short_wait ++ (gpio_set sck_bit ∷ gpio_get ∷ []))

clock_seen :
    (l : Line)
    → l.cs ≡ 0
    → TakesSome l (seen (gpio_set sck_bit ∷ gpio_get ∷ []) (record l { sck = 0 }))
clock_seen l e = rw e (l.mosi ∷ [], (refl, refl, refl))

after_read-TakesSome :
    (bus : Bus) → (line_of bus).cs ≡ 0 → TakesSome (line_of bus) (line_of (after_read bus))
after_read-TakesSome bus e =
    let l = line_of bus in
    let up = gpio_set sck_bit ∷ gpio_get ∷ [] in
    let path =
      seen-append bus.trace (short_wait ++ clock_in) start_line
      ∙ wait_then clock_in l
      ∙ wait_then up (record l { sck = 0 }) in
    subst (TakesSome l) (sym path) (clock_seen l e)

read_rounds-TakesSome :
    (n b : ℕ) (bus : Bus)
    → (line_of bus).cs ≡ 0
    → TakesSome (line_of bus) (line_of (read_rounds n b bus).1)
unfolding read_rounds
read_rounds-TakesSome zero b bus e = ([], (e, sym (append_nil (line_of bus).taken), refl))
read_rounds-TakesSome (suc n) b bus e =
    let one = after_read-TakesSome bus e in
    let value = u32 (bit_or b (bit_and (next_input bus.inputs) miso_bit) <<< 1) in
    TakesSome-trans (line_of bus) (line_of (after_read bus))
      (line_of (read_rounds n value (after_read bus)).1) one
      (read_rounds-TakesSome n value (after_read bus) one.1.0)

spi_read_byte-TakesSome :
    (bus : Bus) → (line_of bus).cs ≡ 0 → TakesSome (line_of bus) (line_of (spi_read_byte bus).1)
unfolding spi_read_byte
spi_read_byte-TakesSome bus e = read_rounds-TakesSome 8 0 bus e

buffer_write_loop-TakesSome :
    (bytes : List ℕ) (bus : Bus)
    → (line_of bus).cs ≡ 0
    → TakesSome (line_of bus) (line_of (buffer_write_loop bytes bus))
unfolding buffer_write_loop
buffer_write_loop-TakesSome [] bus e = ([], (e, sym (append_nil (line_of bus).taken), refl))
buffer_write_loop-TakesSome (b ∷ bytes) bus e =
    let one = spi_write_byte-Takes b bus e in
    TakesSome-trans (line_of bus) (line_of (spi_write_byte b bus))
      (line_of (buffer_write_loop bytes (spi_write_byte b bus))) (byte_bits b, one)
      (buffer_write_loop-TakesSome bytes (spi_write_byte b bus) one.0)

buffer_read_loop-TakesSome :
    (len : ℕ) (bus : Bus)
    → (line_of bus).cs ≡ 0
    → TakesSome (line_of bus) (line_of (buffer_read_loop len bus).1)
unfolding buffer_read_loop
buffer_read_loop-TakesSome zero bus e = ([], (e, sym (append_nil (line_of bus).taken), refl))
buffer_read_loop-TakesSome (suc len) bus e =
    let one = spi_read_byte-TakesSome bus e in
    let next = (spi_read_byte bus).1 in
    TakesSome-trans (line_of bus) (line_of next) (line_of (buffer_read_loop len next).1) one
      (buffer_read_loop-TakesSome len next one.1.0)

-- A command that starts with this byte.
abbrev pub SendsByte : Bus → ℕ → Bus → Type 0
SendsByte bus b next = (xs : List ℕ) × Sends bus (byte_bits b ++ xs) next

SendsByte-deassert_cs :
    (b : ℕ) (bus inner : Bus)
    → IsIdle (line_of bus)
    → TakesSome (line_of (spi_write_byte b (assert_cs bus))) (line_of inner)
    → SendsByte bus b (deassert_cs inner)
SendsByte-deassert_cs b bus inner idle taken =
    let first = first_byte-Takes b bus idle in
    (
      taken.0,
      Sends-deassert_cs bus inner (byte_bits b ++ taken.0) idle (
          Takes-trans (line_of bus) (line_of (spi_write_byte b (assert_cs bus))) (line_of inner)
            (byte_bits b) taken.0 first taken.1),
    )

pub read_control_register-SendsByte :
    (address : ℕ) (bus : Bus)
    → IsIdle (line_of bus)
    → SendsByte bus (command 0 address) (read_control_register address bus).1
unfolding read_control_register
read_control_register-SendsByte address bus idle =
    let opened = spi_write_byte (command 0 address) (assert_cs bus) in
    SendsByte-deassert_cs (command 0 address) bus (spi_read_byte opened).1 idle
      (spi_read_byte-TakesSome opened (first_byte-Takes (command 0 address) bus idle).0)

pub buffer_write-SendsByte :
    (bytes : List ℕ) (bus : Bus)
    → IsIdle (line_of bus)
    → SendsByte bus 0x7A (buffer_write bytes bus)
unfolding buffer_write
buffer_write-SendsByte bytes bus idle =
    let opened = spi_write_byte 0x7A (assert_cs bus) in
    SendsByte-deassert_cs 0x7A bus (buffer_write_loop bytes opened) idle
      (buffer_write_loop-TakesSome bytes opened (first_byte-Takes 0x7A bus idle).0)

pub buffer_read-SendsByte :
    (len : ℕ) (bus : Bus) → IsIdle (line_of bus) → SendsByte bus 0x3A (buffer_read len bus).1
unfolding buffer_read
buffer_read-SendsByte len bus idle =
    let opened = spi_write_byte 0x3A (assert_cs bus) in
    SendsByte-deassert_cs 0x3A bus (buffer_read_loop len opened).1 idle
      (buffer_read_loop-TakesSome len opened (first_byte-Takes 0x3A bus idle).0)
