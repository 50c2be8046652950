-- ===== src/Driver/Address.antt =====
-- The Ethernet address that `init_ethernet` of src/eth_driver.c makes, saves and loads.
use eth_transfer.Base.{
  holds_under, holds_under-at, ℕ, zero, suc, ◌%◌, ◌<◌, ◌≤◌, ◌≡◌, refl, ap, ap₂, ◌&&◌, ◌==◌, ltb,
  length-take, ◌∙◌, List, [], ◌∷◌, length, get_or, take, Bool, true, Option, none, some, bit_and,
  bit_or, u8, arith,
}
use eth_transfer.Driver.Setup.{Board, create_mac, each_u8, new_mac, mac_of, mac_from, load_mac}
use eth_transfer.Driver.MacText.{mac_text, scan_mac, scan_mac-mac_text}

abbrev first_byte : ℕ → ℕ
first_byte x = bit_or (bit_and x 0xFE) 0x02

abbrev is_local : ℕ → Bool
is_local x = first_byte x % 4 == 2 && ltb (first_byte x) 256

local_table : holds_under is_local 256 ≡ true
unfolding holds_under
local_table = refl

is_local-u8 : (byte : ℕ) → is_local (u8 byte) ≡ true
is_local-u8 byte = holds_under-at is_local 256 (u8 byte) (omega arith) local_table

-- Six bytes.
abbrev pub IsMac : List ℕ → Type 0
IsMac mac = (length mac ≡ 6) × ((i : ℕ) → get_or mac i 0 < 256)

each_u8-bytes : (xs : List ℕ) (i : ℕ) → get_or (each_u8 xs) i 0 < 256
each_u8-bytes [] i = omega arith
each_u8-bytes (x ∷ xs) zero = omega arith
each_u8-bytes (x ∷ xs) (suc i) = each_u8-bytes xs i

each_u8_id : (xs : List ℕ) → ((i : ℕ) → get_or xs i 0 < 256) → each_u8 xs ≡ xs
each_u8_id [] h = refl
each_u8_id (x ∷ xs) h = ap₂ ◌∷◌ (let small = h 0 in omega arith) (each_u8_id xs (λ i. h (suc i)))

length-each_u8 : (xs : List ℕ) → length (each_u8 xs) ≡ length xs
length-each_u8 [] = refl
length-each_u8 (x ∷ xs) = ap suc (length-each_u8 xs)

create_mac-IsMac :
    (bytes : List ℕ)
    → length bytes ≡ 6
    → IsMac (create_mac bytes) × (get_or (create_mac bytes) 0 0 % 4 ≡ 2)
create_mac-IsMac [] e = absurd (omega arith)
create_mac-IsMac (byte ∷ bytes) e =
    let table = is_local-u8 byte in ((omega (arith, length-each_u8 bytes), byte_at), ground arith)
  where
    byte_at : (i : ℕ) → get_or (create_mac (byte ∷ bytes)) i 0 < 256
    byte_at zero = let table = is_local-u8 byte in ground arith
    byte_at (suc i) = each_u8-bytes bytes i

load_mac-saved :
    (random mac : List ℕ) (writable : Bool) (b : Board)
    → IsMac mac
    → b.mac_file ≡ some (mac_text mac)
    → (load_mac random writable b).mac_address ≡ mac
unfolding load_mac
load_mac-saved random mac writable b h e =
    ap (λ (file : Option (List ℕ)). (mac_from random writable b file).mac_address) e
    ∙ ap (λ (fields : Option (List ℕ)). (mac_of random writable b fields).mac_address)
        (scan_mac-mac_text mac h.0 h.1)
    ∙ each_u8_id mac h.1

-- There is no file, or `fscanf` does not find six numbers in it.
abbrev pub HasNoAddress : Option (List ℕ) → Type 0
HasNoAddress none = Unit {0}
HasNoAddress (some text) = scan_mac text ≡ none

mac_from-new_mac :
    (random : List ℕ) (b : Board) (file : Option (List ℕ))
    → HasNoAddress file
    → mac_from random true b file ≡ new_mac random true b
mac_from-new_mac random b none h = refl
mac_from-new_mac random b (some text) h =
    ap (λ (fields : Option (List ℕ)). mac_of random true b fields) h

-- Without a file, or where `fscanf` does not find six numbers in its text, the driver makes an address
-- of six bytes, a unicast address that is locally administered, whatever the random numbers are. Where
-- the file can be written, the next start scans the same address from the text that was printed.
pub load_mac-again :
    (random other : List ℕ) (writable : Bool) (b : Board)
    → 6 ≤ length random
    → HasNoAddress b.mac_file
    → IsMac (load_mac random true b).mac_address
      × (get_or (load_mac random true b).mac_address 0 0 % 4 ≡ 2)
      × ((load_mac other writable (load_mac random true b)).mac_address
          ≡ (load_mac random true b).mac_address)
unfolding load_mac new_mac
load_mac-again random other writable b long no_file =
    let (is_mac, local) = create_mac-IsMac (take 6 random) (omega (arith, length-take 6 random)) in
    let made = mac_from-new_mac random b b.mac_file no_file in
    rw made (
      is_mac,
      local,
      load_mac-saved other (create_mac (take 6 random)) writable (new_mac random true b) is_mac
          refl,
    )
