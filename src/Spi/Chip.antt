-- ===== src/Spi/Chip.antt =====
-- What the Ethernet chip sees of src/gpio_spi.c, by the data sheet of its bus: while CS is down it
-- takes a bit from MOSI at each rising edge of SCK, and where CS rises the bits are a command.
pub mod Commands
pub mod Agrees
use eth_transfer.Base.{
  append_assoc, append_nil, ℕ, zero, suc, ◌+◌, ◌*◌, ◌/◌, ◌%◌, ◌^◌, ◌≡◌, refl, sym, ap, ap₂, ◌∙◌,
  List, [], ◌∷◌, ◌++◌, replicate, bit_and, bit_or, ◌<<<◌, u32, ◌==◌, ◌&&◌, if◌then◌else◌, arith,
}
use mathlib.Core.Path.{subst}
use eth_transfer.Spi.{
  Event, gpio_set, gpio_clr, gpio_get, Bus, sck_bit, mosi_bit, cs_bit, short_wait, emit, clock_out,
  write_rounds, spi_write_byte, assert_cs, deassert_cs, send_command, command,
}
use eth_transfer.Spi.Bits.{bit_and-power}
use eth_transfer.Spi.Write.{raised, lowered, bits, bits-byte_bits, byte_bits}

-- The levels of the pins, the bits of the command so far, and the commands that are complete.
pub record Line : Type 0 where
  pub cs : ℕ
  pub sck : ℕ
  pub mosi : ℕ
  pub taken : List ℕ
  pub frames : List (List ℕ)

abbrev pub after_set : ℕ → Line → Line
after_set word l =
    let cs = raised word 8 l.cs in
    let sck = raised word 11 l.sck in
    let mosi = raised word 10 l.mosi in
    let ends = l.cs == 0 && cs == 1 in
    let clocks = cs == 0 && (l.sck == 0 && sck == 1) in
    record {
      cs = cs;
      sck = sck;
      mosi = mosi;
      taken = if ends then [] else if clocks then l.taken ++ (mosi ∷ []) else l.taken;
      frames = if ends then l.frames ++ (l.taken ∷ []) else l.frames;
    }

abbrev pub after_pin : Event → Line → Line
after_pin (gpio_set word) l = after_set word l
after_pin (gpio_clr word) l = record l {
  cs = lowered word 8 l.cs;
  sck = lowered word 11 l.sck;
  mosi = lowered word 10 l.mosi;
}
after_pin gpio_get l = l

abbrev pub seen : List Event → Line → Line
seen [] l = l
seen (e ∷ events) l = seen events (after_pin e l)

pub seen-append : (xs ys : List Event) (l : Line) → seen (xs ++ ys) l ≡ seen ys (seen xs l)
seen-append [] ys l = refl
seen-append (e ∷ xs) ys l = seen-append xs ys (after_pin e l)

-- Before the driver starts, CS is up.
abbrev pub start_line : Line
start_line = record { cs = 1; sck = 0; mosi = 1; taken = []; frames = [] }

abbrev pub line_of : Bus → Line
line_of bus = seen bus.trace start_line

-- Between commands: CS is up, and nothing is taken.
abbrev pub IsIdle : Line → Type 0
IsIdle l = (l.cs ≡ 1) × (l.taken ≡ [])

-- From one line to another, with CS down, these bits are taken.
abbrev pub Takes : Line → List ℕ → Line → Type 0
Takes l xs m = (m.cs ≡ 0) × (m.taken ≡ l.taken ++ xs) × (m.frames ≡ l.frames)

wait_seen : (n : ℕ) (l : Line) → seen (replicate n (gpio_clr 0)) l ≡ l
wait_seen zero l = refl
wait_seen (suc n) l = wait_seen n l

pub wait_then : (events : List Event) (l : Line) → seen (short_wait ++ events) l ≡ seen events l
wait_then events l = seen-append short_wait events l ∙ ap (seen events) (wait_seen 16 l)

bit_seen :
    (b : ℕ) (xs : List ℕ) (fs : List (List ℕ))
    → after_set (bit_and b mosi_bit) (record { cs = 0; sck = 0; mosi = 0; taken = xs; frames = fs })
      ≡ record { cs = 0; sck = 0; mosi = b / 2 ^ 10 % 2; taken = xs; frames = fs }
bit_seen b xs fs =
    let bit = bit_and-power 10 b in
    let no_select : raised (bit_and b mosi_bit) 8 0 ≡ 0 = ground arith in
    let no_clock : raised (bit_and b mosi_bit) 11 0 ≡ 0 = ground arith in
    let level : raised (bit_and b mosi_bit) 10 0 ≡ b / 2 ^ 10 % 2 = ground arith in
    rw no_select (rw no_clock (rw level refl))

-- One round gives the bit at the place of MOSI.
clock_out-seen :
    (b : ℕ) (l : Line)
    → l.cs ≡ 0
    → seen (clock_out b) l ≡ record {
      cs = 0;
      sck = 1;
      mosi = b / 2 ^ 10 % 2;
      taken = l.taken ++ (b / 2 ^ 10 % 2 ∷ []);
      frames = l.frames;
    }
clock_out-seen b l e =
    let edge = short_wait ++ (gpio_set sck_bit ∷ []) in
    let both = bit_or sck_bit mosi_bit in
    wait_then (gpio_clr both ∷ gpio_set (bit_and b mosi_bit) ∷ edge) l
    ∙ ap
        (λ (c : ℕ).
          seen (gpio_set (bit_and b mosi_bit) ∷ edge)
            (record { cs = c; sck = 0; mosi = 0; taken = l.taken; frames = l.frames }))
        e
    ∙ ap (seen edge) (bit_seen b l.taken l.frames)
    ∙ wait_then (gpio_set sck_bit ∷ [])
        (record { cs = 0; sck = 0; mosi = b / 2 ^ 10 % 2; taken = l.taken; frames = l.frames })

pub Takes-trans :
    (l m n : Line) (xs ys : List ℕ) → Takes l xs m → Takes m ys n → Takes l (xs ++ ys) n
Takes-trans l m n xs ys h k =
    (k.0, k.1 ∙ ap (λ (t : List ℕ). t ++ ys) h.1 ∙ append_assoc l.taken xs ys, k.2 ∙ h.2)

write_rounds-Takes :
    (n b : ℕ) (l : Line) → l.cs ≡ 0 → Takes l (bits n b) (seen (write_rounds n b) l)
unfolding write_rounds
write_rounds-Takes zero b l e = (e, sym (append_nil l.taken), refl)
write_rounds-Takes (suc n) b l e =
    let rest = write_rounds n (u32 (b <<< 1)) in
    let m : Line = record {
      cs = 0;
      sck = 1;
      mosi = b / 2 ^ 10 % 2;
      taken = l.taken ++ (b / 2 ^ 10 % 2 ∷ []);
      frames = l.frames;
    } in
    let first = seen-append (clock_out b) rest l ∙ ap (seen rest) (clock_out-seen b l e) in
    rw first (
      Takes-trans l m (seen rest m) (b / 2 ^ 10 % 2 ∷ []) (bits n (u32 (b <<< 1)))
        (refl, refl, refl) (write_rounds-Takes n (u32 (b <<< 1)) m refl))

pub spi_write_byte-Takes :
    (b : ℕ) (bus : Bus)
    → (line_of bus).cs ≡ 0
    → Takes (line_of bus) (byte_bits b) (line_of (spi_write_byte b bus))
unfolding spi_write_byte
spi_write_byte-Takes b bus e =
    let start = line_of bus in
    rw (seen-append bus.trace (write_rounds 8 (u32 (b <<< 3))) start_line)
      (rw (← bits-byte_bits b) (write_rounds-Takes 8 (u32 (b <<< 3)) start e))

pub assert_cs-Takes :
    (bus : Bus) → IsIdle (line_of bus) → Takes (line_of bus) [] (line_of (assert_cs bus))
unfolding assert_cs
assert_cs-Takes bus h =
    let events = gpio_clr cs_bit ∷ [] in
    rw (seen-append bus.trace (short_wait ++ events) start_line)
      (refl, sym (append_nil (line_of bus).taken), refl)

-- The command is complete.
abbrev pub Ends : Line → Line → Type 0
Ends l m = IsIdle m × (m.frames ≡ l.frames ++ (l.taken ∷ []))

raise_seen :
    (l : Line)
    → l.cs ≡ 0
    → after_set cs_bit l ≡ record {
      cs = 1;
      sck = l.sck;
      mosi = l.mosi;
      taken = [];
      frames = l.frames ++ (l.taken ∷ []);
    }
raise_seen l e = rw e refl

pub deassert_cs-Ends :
    (bus : Bus) → (line_of bus).cs ≡ 0 → Ends (line_of bus) (line_of (deassert_cs bus))
unfolding deassert_cs
deassert_cs-Ends bus e =
    let l = line_of bus in
    let last = gpio_set sck_bit ∷ [] in
    let middle = gpio_set cs_bit ∷ (short_wait ++ last) in
    let low : Line = record l { sck = 0 } in
    let final : Line = record low { cs = 1; taken = []; frames = l.frames ++ (l.taken ∷ []) } in
    let path =
      seen-append bus.trace (short_wait ++ (gpio_clr sck_bit ∷ (short_wait ++ middle))) start_line
      ∙ wait_then (gpio_clr sck_bit ∷ (short_wait ++ middle)) l
      ∙ wait_then middle low
      ∙ ap (seen (short_wait ++ last)) (raise_seen low e)
      ∙ wait_then last final in
    subst (Ends l) (sym path) ((refl, refl), refl)
