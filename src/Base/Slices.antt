-- ===== src/Base/Slices.antt =====
-- `memcpy` on arrays of bytes. `none` is an access out of range, which C leaves undefined.
use Prim.Native.Nat.{ℕ, zero, suc, ◌+◌, ◌-◌, ◌≤◌, ◌<◌}
use mathlib.Core.Path.{◌≡◌, refl, ap, ◌∙◌}
use mathlib.Core.Bool.{◌&&◌}
use mathlib.Core.Option.{Option, none, some}
use mathlib.Core.List.{List, [], ◌∷◌, ◌++◌}
use native.Mathlib.Omega.{arith}
use native.Mathlib.Decide.{dec_lt}
use eth_transfer.Base.Tests.{leb, if◌then◌else◌}
use eth_transfer.Base.Lists.{
  length, get_or, set, take, drop, length-append, length-take, length-drop, get_or-take,
  get_or-drop, get_or_out, get_or-append_left, get_or-append_right,
}

-- The bytes `xs[off .. off + n)`.
abbrev pub slice : List ℕ → ℕ → ℕ → List ℕ
slice xs off n = take n (drop off xs)

-- `dest` with `n` bytes of `source + source_off` stored at `dest_off`.
abbrev pub splice : List ℕ → ℕ → List ℕ → ℕ → ℕ → List ℕ
splice dest dest_off source source_off n =
    take dest_off dest ++ (slice source source_off n ++ drop (dest_off + n) dest)

unfoldable pub memcpy : List ℕ → ℕ → List ℕ → ℕ → ℕ → Option (List ℕ)
memcpy dest dest_off source source_off n =
    if leb (dest_off + n) (length dest) && leb (source_off + n) (length source)
    then some (splice dest dest_off source source_off n)
    else none

pub length-slice : (xs : List ℕ) (off n : ℕ) → off + n ≤ length xs → length (slice xs off n) ≡ n
length-slice xs off n h = omega (arith, length-take n (drop off xs), length-drop off xs)

pub get_or-slice :
    (xs : List ℕ) (off n i : ℕ) → i < n → get_or (slice xs off n) i 0 ≡ get_or xs (off + i) 0
get_or-slice xs off n i h = get_or-take n (drop off xs) i 0 h ∙ get_or-drop off xs i 0

pub memcpy-eq-none :
    (dest : List ℕ) (dest_off : ℕ) (source : List ℕ) (source_off n : ℕ)
    → length dest < dest_off + n
    → memcpy dest dest_off source source_off n ≡ none
unfolding memcpy
memcpy-eq-none dest dest_off source source_off n h = ground arith

module _ (dest : List ℕ) (dest_off : ℕ) (source : List ℕ) (source_off n : ℕ)
    (dest_fits : dest_off + n ≤ length dest) (source_fits : source_off + n ≤ length source) where
  pub memcpy-eq-some :
      memcpy dest dest_off source source_off n ≡ some (splice dest dest_off source source_off n)
  unfolding memcpy
  memcpy-eq-some = ground arith

  pub length-splice : length (splice dest dest_off source source_off n) ≡ length dest
  length-splice = omega (
    arith,
    length-append (take dest_off dest) (slice source source_off n ++ drop (dest_off + n) dest),
    length-append (slice source source_off n) (drop (dest_off + n) dest),
    length-take dest_off dest,
    length-slice source source_off n source_fits,
    length-drop (dest_off + n) dest,
  )

  first : length (take dest_off dest) ≡ dest_off
  first = omega (arith, length-take dest_off dest)

  middle : length (slice source source_off n) ≡ n
  middle = length-slice source source_off n source_fits

  pub get_or-splice_before :
      (j : ℕ)
      → j < dest_off
      → get_or (splice dest dest_off source source_off n) j 0 ≡ get_or dest j 0
  get_or-splice_before j h =
      get_or-append_left (take dest_off dest) _ j 0 (omega (arith, first))
      ∙ get_or-take dest_off dest j 0 h

  after_first :
      (j : ℕ)
      → dest_off ≤ j
      → get_or (splice dest dest_off source source_off n) j 0
        ≡ get_or (slice source source_off n ++ drop (dest_off + n) dest) (j - dest_off) 0
  after_first j h =
      get_or-append_right (take dest_off dest) _ j 0 (omega (arith, first))
      ∙ ap (λ (k : ℕ). get_or (slice source source_off n ++ drop (dest_off + n) dest) k 0)
          (omega (arith, first))

  pub get_or-splice_inside :
      (j : ℕ)
      → dest_off ≤ j
      → j < dest_off + n
      → get_or (splice dest dest_off source source_off n) j 0
        ≡ get_or source (source_off + (j - dest_off)) 0
  get_or-splice_inside j h k =
      after_first j h
      ∙ get_or-append_left (slice source source_off n) _ (j - dest_off) 0 (omega (arith, middle))
      ∙ get_or-slice source source_off n (j - dest_off) (omega arith)

  pub get_or-splice_after :
      (j : ℕ)
      → dest_off + n ≤ j
      → get_or (splice dest dest_off source source_off n) j 0 ≡ get_or dest j 0
  get_or-splice_after j h =
      after_first j (omega arith)
      ∙ get_or-append_right (slice source source_off n) _ (j - dest_off) 0 (omega (arith, middle))
      ∙ get_or-drop (dest_off + n) dest (j - dest_off - length (slice source source_off n)) 0
      ∙ ap (λ (k : ℕ). get_or dest k 0) (omega (arith, middle))

pub slice-cons :
    (xs : List ℕ) (off n : ℕ)
    → off < length xs
    → slice xs off (suc n) ≡ get_or xs off 0 ∷ slice xs (suc off) n
slice-cons [] off n h = absurd (omega arith)
slice-cons (x ∷ xs) zero n h = refl
slice-cons (x ∷ xs) (suc off) n h = slice-cons xs off n (omega arith)

pub slice_whole : (xs : List ℕ) → slice xs 0 (length xs) ≡ xs
slice_whole [] = refl
slice_whole (x ∷ xs) = ap (λ ys. x ∷ ys) (slice_whole xs)

-- The entries of a buffer of `uint8_t`.
abbrev pub IsBytes : List ℕ → Type 0
IsBytes xs = (i : ℕ) → get_or xs i 0 < 256

pub IsBytes-slice : (xs : List ℕ) (off n : ℕ) → IsBytes xs → IsBytes (slice xs off n)
IsBytes-slice xs off n h i = elim (dec_lt i n) [
  | yes p ↦ rw (get_or-slice xs off n i p) (h (off + i))
  | no p ↦
      rw (get_or_out (slice xs off n) i (omega (arith, length-take n (drop off xs)))) (omega arith)
]

pub IsBytes-set : (xs : List ℕ) (i v : ℕ) → v < 256 → IsBytes xs → IsBytes (set xs i v)
IsBytes-set [] i v small h j = omega arith
IsBytes-set (x ∷ xs) zero v small h zero = small
IsBytes-set (x ∷ xs) zero v small h (suc j) = h (suc j)
IsBytes-set (x ∷ xs) (suc i) v small h zero = h 0
IsBytes-set (x ∷ xs) (suc i) v small h (suc j) = IsBytes-set xs i v small (λ n. h (suc n)) j

-- Bytes one by one, for lists that are written out.
abbrev pub EachByte : List ℕ → Type 0
EachByte [] = Unit {0}
EachByte (x ∷ xs) = (x < 256) × EachByte xs

pub EachByte-IsBytes : (xs : List ℕ) → EachByte xs → IsBytes xs
EachByte-IsBytes [] h i = omega arith
EachByte-IsBytes (x ∷ xs) h zero = h.0
EachByte-IsBytes (x ∷ xs) h (suc i) = EachByte-IsBytes xs h.1 i
