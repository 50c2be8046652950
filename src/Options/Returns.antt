-- ===== src/Options/Returns.antt =====
-- When `scan_options` returns: at an option of size 0 the cursor stands still.
use eth_transfer.Base.{
  ℕ, zero, suc, ◌+◌, ◌^◌, ◌≤◌, ◌<◌, ◌≡◌, ◌≢◌, refl, ap, ◌∙◌, List, none, some, IsBytes, arith, inl,
  inr, ◌⊎◌, minus_one,
}
use native.Mathlib.Decide.{ℕ_discrete, dec_lt, dec_le}
use eth_transfer.Options.{byte_at, option_value, scan_loop, scan_options}

module _ (buf : List ℕ) (len kind : ℕ) where
  -- The cursor stands at an option that another kind owns, and whose size byte is 0.
  pub record IsStuck (i : ℕ) : Type 0 where
    pub inside : i + 1 < len
    pub not_end : byte_at buf i ≢ 0
    pub not_nop : byte_at buf i ≢ 1
    pub other_kind : byte_at buf i ≢ kind
    pub no_size : byte_at buf (i + 1) ≡ 0

  -- One round of the loop that goes on: past a one-byte option, or past a sized one.
  pub data Moves (i : ℕ) : ℕ → Type 0 where
    past_nop : i + 1 < len → byte_at buf i ≡ 1 → Moves i (i + 1)
    past_option :
        i + 1 < len
        → byte_at buf i ≢ 0
        → byte_at buf i ≢ 1
        → byte_at buf i ≢ kind
        → i + byte_at buf (i + 1) ≤ len
        → Moves i (i + byte_at buf (i + 1))

  pub data Reaches : ℕ → ℕ → Type 0 where
    here : (i : ℕ) → Reaches i i
    onward : {i j k : ℕ} → Moves i j → Reaches j k → Reaches i k

module _ (buf : List ℕ) (len kind : ℕ) (int : len < 2 ^ 30) where
  -- A stuck cursor stays stuck for every number of rounds.
  stuck_never_returns : (fuel i : ℕ) → IsStuck buf len kind i → scan_loop fuel buf len kind i ≡ none
  unfolding scan_loop
  stuck_never_returns zero i s = refl
  stuck_never_returns (suc fuel) i s =
      ground
        (arith, stuck_never_returns fuel i s, ap (λ (n : ℕ). scan_loop fuel buf len kind n) still)
    where
      still : i + byte_at buf (i + 1) ≡ i
      still = omega (arith, s.no_size)

  Moves-scan_loop :
      (fuel i : ℕ) {j : ℕ}
      → IsBytes buf
      → Moves buf len kind i j
      → scan_loop (suc fuel) buf len kind i ≡ scan_loop fuel buf len kind j
  unfolding scan_loop
  Moves-scan_loop fuel i bytes (past_nop inside nop) = ground arith
  Moves-scan_loop fuel i bytes (past_option inside a b c d) = ground (arith, bytes (i + 1))

  pub reached_stuck_never_returns :
      (fuel : ℕ) {i j : ℕ}
      → IsBytes buf
      → Reaches buf len kind i j
      → IsStuck buf len kind j
      → scan_loop fuel buf len kind i ≡ none
  reached_stuck_never_returns fuel bytes (here i) s = stuck_never_returns fuel i s
  reached_stuck_never_returns zero bytes (onward m r) s = unfold scan_loop in refl
  reached_stuck_never_returns (suc fuel) {i} bytes (onward m r) s =
      Moves-scan_loop fuel i bytes m ∙ reached_stuck_never_returns fuel bytes r s

  -- Either the loop returns within the fuel, or a stuck cursor is reached.
  abbrev Ends : ℕ → ℕ → Type 0
  Ends fuel i =
      ((v : ℕ) × (scan_loop fuel buf len kind i ≡ some v))
      ⊎ ((j : ℕ) × Reaches buf len kind i j × IsStuck buf len kind j)

  Ends-move :
      (fuel i : ℕ) {j : ℕ} → IsBytes buf → Moves buf len kind i j → Ends fuel j → Ends (suc fuel) i
  Ends-move fuel i bytes m (inl (v, e)) = inl (v, Moves-scan_loop fuel i bytes m ∙ e)
  Ends-move fuel i bytes m (inr (k, r, s)) = inr (k, onward m r, s)

  data Round (i : ℕ) : Type 0 where
    returns : ((fuel : ℕ) → (v : ℕ) × (scan_loop (suc fuel) buf len kind i ≡ some v)) → Round i
    goes_on : (j : ℕ) → i < j → j ≤ len → Moves buf len kind i j → Round i
    stands : IsStuck buf len kind i → Round i

  at_option :
      (i : ℕ)
      → IsBytes buf
      → i + 1 < len
      → byte_at buf i ≢ 0
      → byte_at buf i ≢ 1
      → byte_at buf i ≢ kind
      → Round i
  unfolding scan_loop
  at_option i bytes inside a b c = elim (dec_le (i + byte_at buf (i + 1)) len) [
    | yes fits ↦ elim (ℕ_discrete (byte_at buf (i + 1)) 0) [
      | yes z ↦
          stands (record { inside = inside; not_end = a; not_nop = b; other_kind = c; no_size = z })
      | no nz ↦ goes_on (i + byte_at buf (i + 1)) (omega arith) fits (past_option inside a b c fits)
    ]
    | no out ↦ returns (λ fuel. (minus_one, ground (arith, bytes (i + 1))))
  ]

  round : (i : ℕ) → IsBytes buf → i ≤ len → Round i
  unfolding scan_loop
  round i bytes below = elim (dec_lt (i + 1) len) [
    | no out ↦ returns (λ fuel. (minus_one, ground arith))
    | yes inside ↦ elim (ℕ_discrete (byte_at buf i) 0) [
      | yes z ↦ returns (λ fuel. (minus_one, ground arith))
      | no a ↦ elim (ℕ_discrete (byte_at buf i) 1) [
        | yes nop ↦ goes_on (i + 1) (omega arith) (omega arith) (past_nop inside nop)
        | no b ↦ elim (ℕ_discrete (byte_at buf i) kind) [
          | no c ↦ at_option i bytes inside a b c
          | yes k ↦ elim (dec_le (i + byte_at buf (i + 1)) len) [
            | yes fits ↦ returns (λ fuel. (option_value buf i, ground (arith, bytes (i + 1))))
            | no out ↦ returns (λ fuel. (minus_one, ground (arith, bytes (i + 1))))
          ]
        ]
      ]
    ]
  ]

  scan_loop-Ends : (fuel i : ℕ) → IsBytes buf → i ≤ len → len < i + fuel → Ends fuel i
  scan_loop-Ends zero i bytes below enough = absurd (omega arith)
  scan_loop-Ends (suc fuel) i bytes below enough =
      go (λ j q r. scan_loop-Ends fuel j bytes q r) (round i bytes below)
    where
      go : ((j : ℕ) → j ≤ len → len < j + fuel → Ends fuel j) → Round i → Ends (suc fuel) i
      go rest (returns f) = inl (f fuel)
      go rest (stands s) = inr (i, here i, s)
      go rest (goes_on j p q m) = Ends-move fuel i bytes m (rest j q (omega arith))

-- `scan_options` over `len` bytes of options either returns within `len + 1` rounds, or its cursor
-- reaches an option of another kind whose size byte is 0, and then it never returns.
pub scan_options-returns_or_hangs :
    (buf : List ℕ) (len kind enough : ℕ)
    → len < 2 ^ 30
    → len < enough
    → IsBytes buf
    → ((v : ℕ) × (scan_options enough buf len kind ≡ some v))
      ⊎ (((j : ℕ) × Reaches buf len kind 0 j × IsStuck buf len kind j)
          × ((fuel : ℕ) → scan_options fuel buf len kind ≡ none))
unfolding scan_options
scan_options-returns_or_hangs buf len kind enough int more bytes =
    go (scan_loop-Ends buf len kind int enough 0 bytes (omega arith) (omega arith))
  where
    go :
        Ends buf len kind int enough 0
        → ((v : ℕ) × (scan_options enough buf len kind ≡ some v))
          ⊎ (((j : ℕ) × Reaches buf len kind 0 j × IsStuck buf len kind j)
              × ((fuel : ℕ) → scan_options fuel buf len kind ≡ none))
    go (inl r) = inl r
    go (inr (j, r, s)) =
        inr ((j, r, s), λ fuel. reached_stuck_never_returns buf len kind int fuel bytes r s)
