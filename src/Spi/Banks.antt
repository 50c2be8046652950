-- ===== src/Spi/Banks.antt =====
-- The register banks of the chip: `set_bank`, `push_bank` and `pop_bank` of src/gpio_spi.c, and the
-- drivers of src/eth_driver.c that stand on them. `none` is `exit(-1)`.
use eth_transfer.Base.{
  ℕ, ◌<◌, ◌≡◌, refl, ◌∙◌, List, [], ◌∷◌, length, leb, false, Option, none, some, bit_and,
  if◌then◌else◌, ◌>>=◌, arith,
}
use eth_transfer.Spi.{Bus, clear_control_register, set_control_register}

abbrev pub econ1 : ℕ
econ1 = 0x1F

abbrev pub econ1_bsel : ℕ
econ1_bsel = 0x03

abbrev pub bank_stack_size : ℕ
bank_stack_size = 128

-- `bank_stack` is the list of its first `bank_index` entries, the last one first.
pub record Banks : Type 0 where
  pub bus : Bus
  pub bank_stack : List ℕ
  pub current_bank : ℕ

unfoldable pub set_bank : ℕ → Banks → Banks
set_bank bank s = record s {
  current_bank = bank;
  bus =
      set_control_register econ1 (bit_and bank econ1_bsel)
        (clear_control_register econ1 econ1_bsel s.bus);
}

unfoldable pub push_bank : ℕ → Banks → Option Banks
push_bank bank s =
    if leb bank_stack_size (length s.bank_stack)
    then none
    else some (set_bank bank (record s { bank_stack = s.current_bank ∷ s.bank_stack }))

unfoldable pub pop_bank : Banks → Option Banks
pop_bank s = go s.bank_stack
  where
    go : List ℕ → Option Banks
    go [] = none
    go (bank ∷ rest) = some (set_bank bank (record s { bank_stack = rest }))

-- One access between `push_bank` and `pop_bank`.
abbrev pub in_bank : {A : Type 0} → ℕ → (Bus → A × Bus) → Banks → Option (A × Banks)
in_bank bank access s = push_bank bank s >>= (λ t.
    let (a, bus) = access t.bus in pop_bank (record t { bus = bus }) >>= (λ u. some (a, u)))

-- The bank and the bank stack are as they were.
abbrev pub SameBanks : Banks → Banks → Type 0
SameBanks s t = (t.bank_stack ≡ s.bank_stack) × (t.current_bank ≡ s.current_bank)

-- With a free entry in the bank stack, an access between `push_bank` and `pop_bank` returns, and
-- leaves the bank and the stack as they were.
pub in_bank-SameBanks :
    {A : Type 0} (bank : ℕ) (access : Bus → A × Bus) (s : Banks)
    → length s.bank_stack < 128
    → (r : A × Banks) × (in_bank bank access s ≡ some r) × SameBanks s r.1
unfolding push_bank pop_bank set_bank
in_bank-SameBanks bank access s free =
    let not_full : leb bank_stack_size (length s.bank_stack) ≡ false = ground arith in
    let t = set_bank bank (record s { bank_stack = s.current_bank ∷ s.bank_stack }) in
    let r = access t.bus in
    (
      (r.0, set_bank s.current_bank (record t { bus = r.1; bank_stack = s.bank_stack })),
      rw not_full refl,
      (refl, refl),
    )

pub SameBanks-trans : (s t u : Banks) → SameBanks s t → SameBanks t u → SameBanks s u
SameBanks-trans s t u h k = (k.0 ∙ h.0, k.1 ∙ h.1)
