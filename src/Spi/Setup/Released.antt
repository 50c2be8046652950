-- ===== src/Spi/Setup/Released.antt =====
-- The result of `init_gpio` of src/gpio_spi.c, the root rights and the mapping.
use eth_transfer.Base.{
  ℕ, ◌≡◌, ◌≢◌, refl, sym, ap, ◌∷◌, Bool, true, false, ◌==◌, slt, add32, Option, none, some,
  minus_one, Bool-cases, ◌⊎◌, inl, inr, arith,
}
use eth_transfer.Spi.Revision.{get_peri_base}
use eth_transfer.Spi.Setup.{
  System, Mapping, without_map, drop_root, take_map, open_map, open_gpio, init_gpio, close_gpio,
  gpio_offset,
}
use mathlib.Core.Path.{subst}

-- The rights are given up, and the attempt to take them back has failed.
abbrev pub IsReleased : System → Type 0
IsReleased system = (system.setuid_own ≢ minus_one) × (system.setuid_root ≡ minus_one)

-- One of the two has not happened.
abbrev pub KeepsRights : System → Type 0
KeepsRights system = (system.setuid_own ≡ minus_one) ⊎ (system.setuid_root ≢ minus_one)

-- The address of the registers of the board.
abbrev pub board_base : System → ℕ
board_base system = add32 (get_peri_base system.cpuinfo) gpio_offset

abbrev pub opened_map : ℕ → Mapping → Mapping
opened_map map m = record { gpio_mmap = some map; maps = map ∷ m.maps }

abbrev pub left_map : ℕ → Mapping → Mapping
left_map map m = record { gpio_mmap = none; maps = map ∷ m.maps }

-- What `init_gpio` may return.
pub data IsOpened (system : System) (m : Mapping) : Bool × Mapping → Type 0 where
  good :
      (map : ℕ)
      → m.gpio_mmap ≡ none
      → get_peri_base system.cpuinfo ≢ minus_one
      → system.mmap_at (board_base system) ≡ some map
      → IsReleased system
      → close_gpio (opened_map map m) ≡ (true, m)
      → IsOpened system m (true, opened_map map m)
  failed : IsOpened system m (false, m)
  left_behind :
      (map : ℕ)
      → m.gpio_mmap ≡ none
      → system.mmap_at (board_base system) ≡ some map
      → KeepsRights system
      → IsOpened system m (false, left_map map m)

drop_root-IsReleased : (system : System) → drop_root system ≡ true → IsReleased system
unfolding drop_root
drop_root-IsReleased system e = (ground arith, ground arith)

drop_root-KeepsRights : (system : System) → drop_root system ≡ false → KeepsRights system
unfolding drop_root
drop_root-KeepsRights system e = elim (Bool-cases (system.setuid_own == minus_one)) [
  | inl own ↦ inl (ground arith)
  | inr own ↦ inr (ground arith)
]

module _ (system : System) (m : Mapping) (unmapped : m.gpio_mmap ≡ none) where
  without_map-id : without_map m ≡ m
  without_map-id = ap (λ (o : Option ℕ). record { gpio_mmap = o; maps = m.maps }) (sym unmapped)

  failed-without_map : IsOpened system m (false, without_map m)
  failed-without_map =
      subst (λ (n : Mapping). IsOpened system m (false, n)) (sym without_map-id) failed

  closes : (map : ℕ) → close_gpio (opened_map map m) ≡ (true, m)
  unfolding close_gpio
  closes map =
      let same : (map == map) ≡ true = ground arith in
      rw same (ap (λ (n : Mapping). (true, n)) without_map-id)

  take_map-IsOpened :
      (answer : Option ℕ)
      → get_peri_base system.cpuinfo ≢ minus_one
      → system.mmap_at (board_base system) ≡ answer
      → IsOpened system m (take_map system m answer)
  take_map-IsOpened none known e = failed-without_map
  take_map-IsOpened (some map) known e = elim (Bool-cases (drop_root system)) [
    | inl given_up ↦
        rw given_up (good map unmapped known e (drop_root-IsReleased system given_up) (closes map))
    | inr kept ↦ rw kept (left_behind map unmapped e (drop_root-KeepsRights system kept))
  ]

  open_map-IsOpened : IsOpened system m (open_map system m)
  unfolding open_map
  open_map-IsOpened =
      let peri_base = get_peri_base system.cpuinfo in
      elim (Bool-cases (peri_base == minus_one)) [
        | inl unknown ↦ rw unknown failed-without_map
        | inr known ↦ rw known (elim (Bool-cases (slt system.open_result 0)) [
          | inl refused ↦ rw refused failed-without_map
          | inr opened ↦
              rw opened (take_map-IsOpened (system.mmap_at (board_base system)) (ground arith) refl)
        ])
      ]

open_gpio-IsOpened :
    (system : System) (m : Mapping) (before : Option ℕ)
    → m.gpio_mmap ≡ before
    → IsOpened system m (open_gpio system m before)
open_gpio-IsOpened system m (some map) e = failed
open_gpio-IsOpened system m none e = open_map-IsOpened system m e

-- `init_gpio` returns 1 only where nothing was mapped, the board is in the table, the root rights
-- are given up and cannot be taken back; then `gpio_mmap` is a new map of the registers of that board,
-- and `close_gpio` takes it away and returns to the state before. Where it returns 0, nothing has
-- changed, except where the map was made and the root rights were not given up for good: then
-- `gpio_mmap` is NULL and the map stays, with nothing that points to it.
pub init_gpio-IsOpened : (system : System) (m : Mapping) → IsOpened system m (init_gpio system m)
unfolding init_gpio
init_gpio-IsOpened system m = open_gpio-IsOpened system m m.gpio_mmap refl
