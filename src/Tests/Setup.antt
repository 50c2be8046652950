-- ===== src/Tests/Setup.antt =====
-- The set-up of the GPIO pins and of the Ethernet address: runs and witnesses.
use eth_transfer.Base.{
  ℕ, ◌%◌, ◌≡◌, refl, List, [], ◌∷◌, get_or, true, false, none, some, minus_one, codes, arith,
}
use eth_transfer.Spi.Revision.{
  get_revision_id, revision_loop, get_peri_base, scan_hex, scan_signed, scan_unsigned, hex_digits,
  skip_separators, table_lookup,
}
use eth_transfer.Spi.Revision.Reads.{cpuinfo_text, get_revision_id-hex_number}
use eth_transfer.Spi.Gpio.{set_input, set_output}
use eth_transfer.Spi.Setup.{System, Mapping, init_gpio}
use eth_transfer.Spi.Setup.Released.{IsOpened, init_gpio-IsOpened}
use eth_transfer.Driver.Setup.{Board, load_mac}
use eth_transfer.Driver.Address.{IsMac, load_mac-again}

abbrev cpuinfo : List ℕ
cpuinfo = codes "Hardware\t: BCM2709\nRevision\t: a01041\nSerial\t: 0000\n"

revision_read : get_revision_id (some cpuinfo) ≡ 0xA01041
unfolding get_revision_id revision_loop scan_hex scan_signed scan_unsigned hex_digits
    skip_separators
revision_read = refl

get_revision_id-hex_number_example :
    get_revision_id (
      some (
        cpuinfo_text
          (codes "Hardware\t: BCM2709\n")
          (codes "\t: ")
          (codes "a01041")
          (codes "Serial\t: 0000\n")))
    ≡ 0xA01041
get_revision_id-hex_number_example =
    get_revision_id-hex_number (codes "Hardware\t: BCM2709\n") (codes "\t: ") (codes "01041")
      (codes "Serial\t: 0000\n") b'a' refl refl refl (omega arith) (omega arith)

base_found : get_peri_base (some cpuinfo) ≡ 0x3F000000
unfolding get_peri_base table_lookup get_revision_id revision_loop scan_hex scan_signed
    scan_unsigned hex_digits skip_separators
base_found = refl

pin_set : set_output 11 (0 ∷ 0x3F ∷ 0 ∷ []) ≡ 0 ∷ 0x0F ∷ 0 ∷ []
unfolding set_output set_input
pin_set = refl

abbrev raspberry : System
raspberry = record {
  cpuinfo = some cpuinfo;
  open_result = 3;
  mmap_at = λ base. some base;
  setuid_own = 0;
  setuid_root = minus_one;
}

abbrev unmapped : Mapping
unmapped = record { gpio_mmap = none; maps = [] }

init_gpio-IsOpened_example : IsOpened raspberry unmapped (init_gpio raspberry unmapped)
init_gpio-IsOpened_example = init_gpio-IsOpened raspberry unmapped

abbrev new_board_state : Board
new_board_state = record {
  mapping = unmapped;
  registers = [];
  banks = record { bus = record { trace = []; inputs = [] }; bank_stack = []; current_bank = 0 };
  mac_address = [];
  mac_file = some (codes "01:02");
}

abbrev random_values : List ℕ
random_values = 0xFFFF ∷ 300 ∷ 2 ∷ 3 ∷ 4 ∷ 5 ∷ 6 ∷ []

load_mac-again_example :
    IsMac (load_mac random_values true new_board_state).mac_address
    × (get_or (load_mac random_values true new_board_state).mac_address 0 0 % 4 ≡ 2)
    × ((load_mac [] false (load_mac random_values true new_board_state)).mac_address
        ≡ (load_mac random_values true new_board_state).mac_address)
load_mac-again_example = load_mac-again random_values [] false new_board_state (omega arith) refl
