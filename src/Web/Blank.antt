-- ===== src/Web/Blank.antt =====
-- `header_scan` finds the blank line that ends a header, and `split_header` cuts the lines apart.
use mathlib.Core.Path.{subst}
use native.Mathlib.Decide.{dec_lt}
use eth_transfer.Base.{
  ℕ, zero, suc, ◌+◌, ◌*◌, ◌≤◌, ◌<◌, ◌≡◌, ◌≢◌, refl, ap, ◌∙◌, List, [], ◌∷◌, get_or, Bool, ◌&&◌,
  ◌||◌, ◌==◌, ltb, ◌⊎◌, inl, inr, minus_one, if◌then◌else◌, Bool-cases, arith,
}
use eth_transfer.Web.{lf, cr, blank_at, header_scan_loop, header_scan, split_header}

-- A blank line at `i`, with the byte behind it: LF LF, or LF CR LF, inside the first `len` bytes.
abbrev pub IsBlank : List ℕ → ℕ → ℕ → ℕ → Type 0
IsBlank buffer len i r =
    (get_or buffer i 0 ≡ 10)
    × (r ≤ len)
    × (((get_or buffer (i + 1) 0 ≡ 10) × (r ≡ i + 2))
        ⊎ ((get_or buffer (i + 1) 0 ≡ 13) × (get_or buffer (i + 2) 0 ≡ 10) × (r ≡ i + 3)))

abbrev pub HasNoBlank : List ℕ → ℕ → ℕ → ℕ → Type 0
HasNoBlank buffer len low high = (k : ℕ) → low ≤ k → k < high → (r : ℕ) → IsBlank buffer len k r → ⊥

-- `r` is the end of the first blank line from `low` on.
abbrev pub EndsHeader : List ℕ → ℕ → ℕ → ℕ → Type 0
EndsHeader buffer len low r =
    (i : ℕ) × (low ≤ i) × (i < len) × IsBlank buffer len i r × HasNoBlank buffer len low i

module _ (buffer : List ℕ) (len : ℕ) where
  blank_at-IsBlank :
      (i : ℕ)
      → i < len
      → (blank_at buffer len i ≡ 0 → ⊥)
      → IsBlank buffer len i (i + blank_at buffer len i)
  blank_at-IsBlank i inside some_blank = ground arith

  IsBlank-blank_at : (i r : ℕ) → i < len → IsBlank buffer len i r → blank_at buffer len i ≡ 0 → ⊥
  IsBlank-blank_at i r inside b e = ground arith

  HasNoBlank-extend :
      (i high : ℕ)
      → i < len
      → blank_at buffer len i ≡ 0
      → HasNoBlank buffer len (i + 1) high
      → HasNoBlank buffer len i high
  HasNoBlank-extend i high inside none_here rest k from before r b = elim (dec_lt i k) [
    | yes later ↦ rest k (omega arith) before r b
    | no same ↦
        IsBlank-blank_at i r inside (subst (λ (m : ℕ). IsBlank buffer len m r) (omega arith) b)
          none_here
  ]

  header_scan_loop-EndsHeader :
      (left i : ℕ)
      → i + left ≡ len
      → EndsHeader buffer len i (header_scan_loop buffer len left i)
        ⊎ ((header_scan_loop buffer len left i ≡ minus_one) × HasNoBlank buffer len i len)
  unfolding header_scan_loop
  header_scan_loop-EndsHeader zero i e = inr (refl, λ k low high r b. absurd (omega arith))
  header_scan_loop-EndsHeader (suc left) i e = elim (Bool-cases (blank_at buffer len i == 0)) [
    | inl none_here ↦
        let zero_here : blank_at buffer len i ≡ 0 = ground arith in
        rw none_here (later zero_here (header_scan_loop-EndsHeader left (i + 1) (omega arith)))
    | inr here ↦
        let some_here : blank_at buffer len i ≢ 0 = ground arith in
        rw here (
          inl (
            i,
            omega arith,
            omega arith,
            blank_at-IsBlank i (omega arith) some_here,
            λ k low high r b. absurd (omega arith),
          ))
  ]
    where
      later :
          blank_at buffer len i ≡ 0
          → EndsHeader buffer len (i + 1) (header_scan_loop buffer len left (i + 1))
            ⊎ ((header_scan_loop buffer len left (i + 1) ≡ minus_one)
                × HasNoBlank buffer len (i + 1) len)
          → EndsHeader buffer len i (header_scan_loop buffer len left (i + 1))
            ⊎ ((header_scan_loop buffer len left (i + 1) ≡ minus_one) × HasNoBlank buffer len i len)
      later z (inl (j, low, high, b, before)) =
          inl (j, omega arith, high, b, HasNoBlank-extend i j (omega arith) z before)
      later z (inr (k, none_there)) = inr (k, HasNoBlank-extend i len (omega arith) z none_there)

header_scan-header_scan_loop :
    (buffer : List ℕ) (len : ℕ)
    → len ≤ 1024 * 1024
    → header_scan buffer len ≡ header_scan_loop buffer len len 0
unfolding header_scan
header_scan-header_scan_loop buffer len small = ground arith

-- On a buffer of at most a megabyte, `header_scan` returns the end of the first blank line, LF LF or
-- LF CR LF, and -1 where there is none.
pub header_scan-EndsHeader :
    (buffer : List ℕ) (len : ℕ)
    → len ≤ 1024 * 1024
    → EndsHeader buffer len 0 (header_scan buffer len)
      ⊎ ((header_scan buffer len ≡ minus_one) × HasNoBlank buffer len 0 len)
header_scan-EndsHeader buffer len small =
    rw (header_scan-header_scan_loop buffer len small)
      (header_scan_loop-EndsHeader buffer len len 0 (omega arith))

-- Behind `split_header` the ends of lines among the first `len` bytes are 0, and every other byte is
-- as it was.
pub get_or-split_header :
    (buffer : List ℕ) (len i : ℕ)
    → get_or (split_header buffer len) i 0 ≡ (
        if ltb i len && (get_or buffer i 0 == lf || get_or buffer i 0 == cr)
        then 0
        else get_or buffer i 0)
unfolding split_header
get_or-split_header [] len i = ground arith
get_or-split_header (b ∷ buffer) zero i = ground arith
get_or-split_header (b ∷ buffer) (suc len) zero = ground arith
get_or-split_header (b ∷ buffer) (suc len) (suc i) =
    let same : ltb i len ≡ ltb (suc i) (suc len) = ground arith in
    get_or-split_header buffer len i
    ∙ ap
        (λ (t : Bool).
          if t && (get_or buffer i 0 == lf || get_or buffer i 0 == cr)
          then 0
          else get_or buffer i 0)
        same
