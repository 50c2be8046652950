-- ===== src/Driver/Present.antt =====
-- `test_present` of src/eth_driver.c, and its second `pop_bank`.
use eth_transfer.Base.{
  ℕ, ◌≡◌, ◌≢◌, refl, ◌∙◌, List, [], length, Bool, none, some, bit_and, ◌==◌, Bool-cases, inl, inr,
  ◌⊎◌, arith, ap,
}
use eth_transfer.Spi.Banks.{Banks, pop_bank, in_bank, SameBanks, in_bank-SameBanks, SameBanks-trans}
use eth_transfer.Driver.{test_present, clear_probe, set_probe}

pop_bank-empty : (s : Banks) → s.bank_stack ≡ [] → pop_bank s ≡ none
unfolding pop_bank
pop_bank-empty s e = rw e refl

-- With an empty bank stack, as `init_ethernet` calls it, `test_present` returns an answer and keeps
-- the banks where the first reading shows the bits cleared; where it does not, it ends the program
-- in `pop_bank` and does not return 0.
pub test_present-exits :
    (s : Banks)
    → s.bank_stack ≡ []
    → (first : ℕ × Banks) × (in_bank 0 clear_probe s ≡ some first)
      × (((bit_and first.0 0x3 ≡ 0)
            × ((r : Bool × Banks) × (test_present s ≡ some r) × SameBanks s r.1))
          ⊎ ((bit_and first.0 0x3 ≢ 0) × (test_present s ≡ none)))
unfolding test_present
test_present-exits s empty =
    let (first, e, same) =
      in_bank-SameBanks 0 clear_probe s (omega (arith, ap (λ (xs : List ℕ). length xs) empty)) in
    let (second, k, same') =
      in_bank-SameBanks 0 set_probe first.1
        (omega (arith, ap (λ (xs : List ℕ). length xs) (same.0 ∙ empty))) in
    (
      first,
      e,
      elim (Bool-cases (bit_and first.0 0x3 == 0)) [
        | inl clear ↦ inl (
          (ground arith),
          (
            (bit_and second.0 0x3 == 0x3, second.1),
            rw e (rw clear (rw k refl)),
            SameBanks-trans s first.1 second.1 same same',
          ),
        )
        | inr bits ↦
            inr ((ground arith), rw e (rw bits (rw (pop_bank-empty first.1 (same.0 ∙ empty)) refl)))
      ],
    )
