-- ===== src/Web/Needle.antt =====
-- `find_needle` finds the first occurrence.
use eth_transfer.Base.{
  holds_under, holds_under-at, not, length, ℕ, zero, suc, ◌+◌, ◌-◌, ◌^◌, ◌≤◌, ◌<◌, ◌≡◌, refl, sym,
  ap, ◌∙◌, List, get_or, Bool, true, false, ◌&&◌, ◌==◌, ◌⊎◌, inl, inr, minus_one, sub32, Bool-cases,
  arith,
}
use mathlib.Core.Path.{subst}
use native.Mathlib.Decide.{dec_lt}
use eth_transfer.Web.{match_loop, find_loop, find_needle}

-- The first `n` bytes of the needle stand at `i`.
abbrev pub StandsAt : List ℕ → List ℕ → ℕ → ℕ → Type 0
StandsAt haystack needle n i = (j : ℕ) → j < n → get_or haystack (i + j) 0 ≡ get_or needle j 0

abbrev pub IsAbsent : List ℕ → List ℕ → ℕ → ℕ → ℕ → Type 0
IsAbsent haystack needle n low high =
    (k : ℕ) → low ≤ k → k < high → StandsAt haystack needle n k → ⊥

-- `r` is the first place of the needle from `low` on and before `high`.
pub record IsFirst (haystack needle : List ℕ) (n low high r : ℕ) : Type 0 where
  pub from : low ≤ r
  pub before : r < high
  pub stands : StandsAt haystack needle n r
  pub first : IsAbsent haystack needle n low r

true_ne_false : true ≡ false → ⊥
true_ne_false e = cc

module _ (haystack needle : List ℕ) where
  match_loop_sound :
      (i left j : ℕ)
      → match_loop haystack needle i left j ≡ true
      → (k : ℕ) → j ≤ k
      → k < j + left
      → get_or haystack (i + k) 0 ≡ get_or needle k 0
  unfolding match_loop
  match_loop_sound i zero j e k low high = absurd (omega arith)
  match_loop_sound i (suc left) j e k low high =
      let first : get_or haystack (i + j) 0 ≡ get_or needle j 0 = ground arith in
      let rest : match_loop haystack needle i left (j + 1) ≡ true = ground arith in
      elim (dec_lt j k) [
        | yes later ↦ match_loop_sound i left (j + 1) rest k (omega arith) (omega arith)
        | no same ↦ let e' : k ≡ j = omega arith in rw e' first
      ]

  match_loop_complete :
      (i left j : ℕ)
      → ((k : ℕ) → j ≤ k → k < j + left → get_or haystack (i + k) 0 ≡ get_or needle k 0)
      → match_loop haystack needle i left j ≡ true
  unfolding match_loop
  match_loop_complete i zero j h = refl
  match_loop_complete i (suc left) j h =
      let rest =
        match_loop_complete i left (j + 1) (λ k low high. h k (omega arith) (omega arith)) in
      let here = h j (omega arith) (omega arith) in ground arith

  module _ (n : ℕ) (some_needle : 1 ≤ n) where
    abbrev found : ℕ → Bool
    found i = get_or haystack i 0 == get_or needle 0 0 && match_loop haystack needle i n 0

    found-StandsAt : (i : ℕ) → found i ≡ true → StandsAt haystack needle n i
    found-StandsAt i e j h =
        let e' : match_loop haystack needle i n 0 ≡ true = ground arith in
        match_loop_sound i n 0 e' j (omega arith) (omega arith)

    StandsAt-found : (i : ℕ) → StandsAt haystack needle n i → found i ≡ true
    StandsAt-found i h =
        let all = match_loop_complete i n 0 (λ k low high. h k (omega arith)) in
        let same : i + 0 ≡ i = omega arith in
        let first : get_or haystack i 0 ≡ get_or needle 0 0 =
          ap (λ (k : ℕ). get_or haystack k 0) (sym same) ∙ h 0 (omega arith) in
        ground arith

    IsAbsent-extend :
        (i high : ℕ)
        → (StandsAt haystack needle n i → ⊥)
        → IsAbsent haystack needle n (i + 1) high
        → IsAbsent haystack needle n i high
    IsAbsent-extend i high here rest k from before s = elim (dec_lt i k) [
      | yes later ↦ rest k (omega arith) before s
      | no same ↦ here (subst (StandsAt haystack needle n) (omega arith) s)
    ]

    find_loop-IsFirst :
        (left i : ℕ)
        → IsFirst haystack needle n i (i + left) (find_loop haystack needle n left i)
          ⊎ ((find_loop haystack needle n left i ≡ minus_one)
              × IsAbsent haystack needle n i (i + left))
    unfolding find_loop
    find_loop-IsFirst zero i = inr (refl, λ k low high s. absurd (omega arith))
    find_loop-IsFirst (suc left) i = elim (Bool-cases (found i)) [
      | inl yes_here ↦ inl (
          rw yes_here (record {
            from = omega arith;
            before = omega arith;
            stands = found-StandsAt i yes_here;
            first = λ k low high s. absurd (omega arith);
          }))
      | inr not_here ↦ rw not_here (
          later (λ s. true_ne_false (sym (StandsAt-found i s) ∙ not_here))
            (find_loop-IsFirst left (i + 1)))
    ]
      where
        later :
            (StandsAt haystack needle n i → ⊥)
            → IsFirst haystack needle n
                (i + 1)
                (i + 1 + left)
                (find_loop haystack needle n left (i + 1))
              ⊎ ((find_loop haystack needle n left (i + 1) ≡ minus_one)
                  × IsAbsent haystack needle n (i + 1) (i + 1 + left))
            → IsFirst haystack needle n i (i + suc left) (find_loop haystack needle n left (i + 1))
              ⊎ ((find_loop haystack needle n left (i + 1) ≡ minus_one)
                  × IsAbsent haystack needle n i (i + suc left))
        later not_at_i (inl f) = inl (record {
          from = omega (arith, f.from);
          before = omega (arith, f.before);
          stands = f.stands;
          first = IsAbsent-extend i (find_loop haystack needle n left (i + 1)) not_at_i f.first;
        })
        later not_at_i (inr (e, none_there)) = inr (
          e,
          IsAbsent-extend i (i + suc left) not_at_i (λ k low high. none_there k low (omega arith)),
        )

find_needle-find_loop :
    (haystack needle : List ℕ) (haystack_length needle_length : ℕ)
    → needle_length < haystack_length
    → haystack_length < 2 ^ 31
    → find_needle haystack haystack_length needle needle_length
      ≡ find_loop haystack needle needle_length (haystack_length - needle_length) 0
unfolding find_needle
find_needle-find_loop haystack needle haystack_length needle_length more int =
    let rounds : sub32 haystack_length needle_length ≡ haystack_length - needle_length =
      omega arith in
    ground arith

find_needle-none :
    (haystack needle : List ℕ) (haystack_length needle_length : ℕ)
    → haystack_length ≤ needle_length
    → needle_length < 2 ^ 31
    → find_needle haystack haystack_length needle needle_length ≡ minus_one
unfolding find_needle
find_needle-none haystack needle haystack_length needle_length less int = ground arith

-- A needle that is at none of the places, by evaluation.
pub IsAbsent-holds_under :
    (haystack needle : List ℕ) (high : ℕ)
    → holds_under (λ k. not (match_loop haystack needle k (length needle) 0)) high ≡ true
    → IsAbsent haystack needle (length needle) 0 high
IsAbsent-holds_under haystack needle high every k from below stands =
    let missed =
      holds_under-at (λ k. not (match_loop haystack needle k (length needle) 0)) high k below
        every in
    let matched =
      match_loop_complete haystack needle k (length needle) 0
        (λ j low inside. stands j (omega arith)) in
    true_ne_false (sym missed ∙ ap not matched)

-- `find_needle` returns the first place of the needle among those that end before the last byte of
-- the haystack, and -1 where there is none.
pub find_needle-IsFirst :
    (haystack needle : List ℕ) (haystack_length needle_length : ℕ)
    → 1 ≤ needle_length
    → needle_length < 2 ^ 31
    → haystack_length < 2 ^ 31
    → IsFirst haystack needle needle_length 0
        (haystack_length - needle_length)
        (find_needle haystack haystack_length needle needle_length)
      ⊎ ((find_needle haystack haystack_length needle needle_length ≡ minus_one)
          × IsAbsent haystack needle needle_length 0 (haystack_length - needle_length))
find_needle-IsFirst haystack needle haystack_length needle_length some_needle int int' =
    elim (dec_lt needle_length haystack_length) [
      | yes more ↦
          let rounds = haystack_length - needle_length in
          rw (find_needle-find_loop haystack needle haystack_length needle_length more int') (
            subst
              (λ (m : ℕ).
                IsFirst haystack needle needle_length 0 m
                  (find_loop haystack needle needle_length rounds 0)
                ⊎ ((find_loop haystack needle needle_length rounds 0 ≡ minus_one)
                    × IsAbsent haystack needle needle_length 0 m))
              (omega arith) (find_loop-IsFirst haystack needle needle_length some_needle rounds 0))
      | no full ↦ inr (
        find_needle-none haystack needle haystack_length needle_length (omega arith) int,
        λ k low high s. absurd (omega arith),
      )
    ]
