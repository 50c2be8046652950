-- ===== src/Web/Lines.antt =====
-- `header_value` on the lines that `split_header` leaves: each ends with a 0.
use native.Mathlib.Decide.{dec_lt}
use eth_transfer.Base.{
  drop-drop, drop-append, ℕ, zero, suc, ◌+◌, ◌-◌, ◌≤◌, ◌<◌, ◌≡◌, ◌≢◌, refl, sym, ap, ◌∙◌, List, [],
  ◌∷◌, ◌++◌, drop, length, length-append, Bool, true, false, ◌&&◌, ◌==◌, minus_one, if◌then◌else◌,
  Bool-cases, inl, inr, arith,
}
use eth_transfer.Web.{starts_with, line_end, value_loop, header_value}

-- No byte of the list is 0.
abbrev pub NoZero : List ℕ → Type 0
NoZero [] = Unit {0}
NoZero (b ∷ bs) = (b ≢ 0) × NoZero bs

abbrev pub EachNoZero : List (List ℕ) → Type 0
EachNoZero [] = Unit {0}
EachNoZero (line ∷ lines) = NoZero line × EachNoZero lines

-- The lines one behind the other, each with its 0.
abbrev pub join : List (List ℕ) → List ℕ
join [] = []
join (line ∷ lines) = line ++ (0 ∷ join lines)

abbrev pub is_prefix : List ℕ → List ℕ → Bool
is_prefix [] line = true
is_prefix (k ∷ key) [] = false
is_prefix (k ∷ key) (b ∷ line) = k == b && is_prefix key line

-- Where the value stands behind the key, in the first line that starts with the key; the lines
-- start at `i`.
abbrev pub value_at : List (List ℕ) → List ℕ → ℕ → ℕ
value_at [] key i = minus_one
value_at (line ∷ lines) key i =
    if is_prefix key line then i + length key else value_at lines key (i + length line + 1)

starts_with-is_prefix :
    (key line rest : List ℕ)
    → NoZero key
    → starts_with key (line ++ (0 ∷ rest)) ≡ is_prefix key line
unfolding starts_with
starts_with-is_prefix [] line rest h = refl
starts_with-is_prefix (k ∷ key) [] rest h = let no = h.0 in ground arith
starts_with-is_prefix (k ∷ key) (b ∷ line) rest h =
    ap (λ (t : Bool). k == b && t) (starts_with-is_prefix key line rest h.1)

is_prefix-length : (key line : List ℕ) → is_prefix key line ≡ true → length key ≤ length line
is_prefix-length [] line e = omega arith
is_prefix-length (k ∷ key) [] e = absurd (cc)
is_prefix-length (k ∷ key) (b ∷ line) e =
    let rest : is_prefix key line ≡ true = ground arith in
    omega (arith, is_prefix-length key line rest)

-- The step over a line that ends before the bound.
line_end-eq :
    (line rest : List ℕ) (bound i : ℕ)
    → NoZero line
    → i + length line < bound
    → line_end (line ++ (0 ∷ rest)) bound i ≡ i + length line + 1
unfolding line_end
line_end-eq [] rest bound i h inside = ground arith
line_end-eq (b ∷ line) rest bound i h inside =
    let no = h.0 in
    let there = line_end-eq line rest bound (i + 1) h.1 (omega arith) in ground arith

-- The step over a line that reaches the bound.
line_end-ge :
    (line rest : List ℕ) (bound i : ℕ)
    → NoZero line
    → bound ≤ i + length line
    → bound ≤ line_end (line ++ (0 ∷ rest)) bound i
unfolding line_end
line_end-ge [] rest bound i h inside = ground arith
line_end-ge (b ∷ line) rest bound i h inside =
    let no = h.0 in
    let there = line_end-ge line rest bound (i + 1) h.1 (omega arith) in ground arith

length-join :
    (line : List ℕ) (lines : List (List ℕ))
    → length (join (line ∷ lines)) ≡ length line + 1 + length (join lines)
length-join line lines = omega (arith, length-append line (0 ∷ join lines))

lines-length : (lines : List (List ℕ)) → length lines ≤ length (join lines)
lines-length [] = omega arith
lines-length (line ∷ lines) = omega (arith, length-join line lines, lines-length lines)

-- Lines that are together no longer than the key have no value.
value_at-short :
    (lines : List (List ℕ)) (key : List ℕ) (i : ℕ)
    → length (join lines) ≤ length key
    → value_at lines key i ≡ minus_one
value_at-short [] key i h = refl
value_at-short (line ∷ lines) key i h = elim (Bool-cases (is_prefix key line)) [
  | inl long ↦ absurd (omega (arith, length-join line lines, is_prefix-length key line long))
  | inr other ↦
      rw other
        (value_at-short lines key (i + length line + 1) (omega (arith, length-join line lines)))
]

value_loop_short :
    (buffer key : List ℕ) (fuel bound i : ℕ)
    → bound ≤ i
    → value_loop fuel buffer bound key i ≡ minus_one
unfolding value_loop
value_loop_short buffer key zero bound i h = refl
value_loop_short buffer key (suc fuel) bound i h = ground arith

module _ (buffer key : List ℕ) (no_zero : NoZero key) (bound : ℕ)
    (len : bound + length key ≡ length buffer) where
  next_line :
      (line : List ℕ) (lines : List (List ℕ)) (i : ℕ)
      → drop i buffer ≡ join (line ∷ lines)
      → drop (i + length line + 1) buffer ≡ join lines
  next_line line lines i e =
      ap (λ (k : ℕ). drop k buffer) {y = i + (length line + 1)} (omega arith)
      ∙ drop-drop i (length line + 1) buffer
      ∙ ap (λ (xs : List ℕ). drop (length line + 1) xs) e
      ∙ drop-drop (length line) 1 (line ++ (0 ∷ join lines))
      ∙ ap (λ (xs : List ℕ). drop 1 xs) (drop-append line (0 ∷ join lines))

  -- What follows a line without the key, given what the lines behind it hold.
  other_line :
      (line : List ℕ) (lines : List (List ℕ)) (fuel i : ℕ)
      → NoZero line
      → drop i buffer ≡ join (line ∷ lines)
      → i + length (join (line ∷ lines)) ≡ length buffer
      → value_loop fuel buffer bound key (i + length line + 1)
        ≡ value_at lines key (i + length line + 1)
      → value_loop fuel buffer bound key (line_end (drop i buffer) bound i)
        ≡ value_at lines key (i + length line + 1)
  other_line line lines fuel i h e at behind = elim (dec_lt (i + length line) bound) [
    | yes inside ↦
        ap (λ (xs : List ℕ). value_loop fuel buffer bound key (line_end xs bound i)) e
        ∙ ap (value_loop fuel buffer bound key) (line_end-eq line (join lines) bound i h inside)
        ∙ behind
    | no reached ↦
        ap (λ (xs : List ℕ). value_loop fuel buffer bound key (line_end xs bound i)) e
        ∙ value_loop_short buffer key fuel bound (line_end (line ++ (0 ∷ join lines)) bound i)
            (line_end-ge line (join lines) bound i h (omega arith))
        ∙ sym
            (value_at-short lines key (i + length line + 1) (omega (arith, length-join line lines)))
  ]

  value_loop-value_at :
      (lines : List (List ℕ)) (fuel i : ℕ)
      → EachNoZero lines
      → drop i buffer ≡ join lines
      → i + length (join lines) ≡ length buffer
      → length lines < fuel
      → value_loop fuel buffer bound key i ≡ value_at lines key i
  unfolding value_loop
  value_loop-value_at lines zero i h e at enough = absurd (omega arith)
  value_loop-value_at [] (suc fuel) i h e at enough = ground arith
  value_loop-value_at (line ∷ lines) (suc fuel) i h e at enough = elim (dec_lt i bound) [
    | no done ↦
        value_loop_short buffer key (suc fuel) bound i (omega arith)
        ∙ sym (value_at-short (line ∷ lines) key i (omega arith))
    | yes inside ↦ elim (Bool-cases (is_prefix key line)) [
      | inl found ↦
          let s : starts_with key (drop i buffer) ≡ true =
            ap (starts_with key) e ∙ starts_with-is_prefix key line (join lines) no_zero ∙ found in
          ground arith
      | inr other ↦
          let s : starts_with key (drop i buffer) ≡ false =
            ap (starts_with key) e ∙ starts_with-is_prefix key line (join lines) no_zero ∙ other in
          let v = other_line line lines fuel i h.0 e at (
            value_loop-value_at lines fuel (i + length line + 1) h.1 (next_line line lines i e)
              (omega (arith, length-join line lines)) (omega arith)) in
          ground arith
    ]
  ]

-- On a header of whole lines, none of them with a 0 in it, `header_value` returns where the value
-- stands in the first line that starts with the key, and -1 where no line does.
pub header_value-value_at :
    (lines : List (List ℕ)) (key : List ℕ)
    → EachNoZero lines
    → NoZero key
    → header_value (join lines) (length (join lines)) key ≡ value_at lines key 0
unfolding header_value
header_value-value_at lines key h no_zero = elim (dec_lt (length (join lines)) (length key)) [
  | yes short ↦
      value_loop_short (join lines) key (suc (length (join lines)))
        (length (join lines) - length key) 0 (omega arith)
      ∙ sym (value_at-short lines key 0 (omega arith))
  | no long ↦
      value_loop-value_at (join lines) key no_zero (length (join lines) - length key) (omega arith)
        lines (suc (length (join lines))) 0 h refl (omega arith) (omega (arith, lines-length lines))
]
