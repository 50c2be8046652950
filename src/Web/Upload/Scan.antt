-- ===== src/Web/Upload/Scan.antt =====
-- How the text functions of src/web_server.c run over a buffer that is made of known pieces.
use eth_transfer.Base.{
  ℕ, suc, ◌+◌, ◌≤◌, ◌<◌, ◌^◌, ◌≡◌, ◌≢◌, refl, sym, ap, ap₂, ◌∙◌, drop-drop, List, [], ◌∷◌, ◌++◌,
  drop, get_or, length, get_or-drop, get_or-append_left, get_or-append_right, Bool, true, false,
  ◌&&◌, ◌||◌, ◌==◌, not, if◌then◌else◌, inl, inr, arith,
}
use native.Mathlib.Decide.{dec_lt}
use eth_transfer.Web.{
  lf, cr, blank_at, header_scan_loop, split_header, starts_with, line_end, value_loop, find_needle,
}
use eth_transfer.Web.Needle.{StandsAt, IsAbsent, find_needle-IsFirst}

-- Every byte passes the test.
abbrev pub each : (ℕ → Bool) → List ℕ → Bool
each test [] = true
each test (b ∷ bytes) = test b && each test bytes

-- No 0 and no end of a line.
abbrev pub is_line : ℕ → Bool
is_line b = not (b == 0) && not (b == lf) && not (b == cr)

-- And no `;`.
abbrev pub is_plain : ℕ → Bool
is_plain b = is_line b && not (b == b';')

abbrev pub is_inner : ℕ → Bool
is_inner b = not (b == lf)

pub each-append :
    (test : ℕ → Bool) (xs ys : List ℕ)
    → each test xs ≡ true
    → each test ys ≡ true
    → each test (xs ++ ys) ≡ true
each-append test [] ys h k = k
each-append test (x ∷ xs) ys h k =
    let rest = each-append test xs ys (ground arith) k in ground arith

pub each-is_line : (xs : List ℕ) → each is_plain xs ≡ true → each is_line xs ≡ true
each-is_line [] h = refl
each-is_line (x ∷ xs) h = let rest = each-is_line xs (ground arith) in ground arith

pub each-is_inner : (xs : List ℕ) → each is_line xs ≡ true → each is_inner xs ≡ true
each-is_inner [] h = refl
each-is_inner (x ∷ xs) h = let rest = each-is_inner xs (ground arith) in ground arith

module _ (buffer : List ℕ) (len : ℕ) where
  pub get_or-drop_eq :
      (i : ℕ) (x : ℕ) (rest : List ℕ) → drop i buffer ≡ x ∷ rest → get_or buffer i 0 ≡ x
  get_or-drop_eq i x rest e =
      ap (λ (k : ℕ). get_or buffer k 0) {y = i + 0} (omega arith)
      ∙ sym (get_or-drop i buffer 0 0)
      ∙ ap (λ (xs : List ℕ). get_or xs 0 0) e

  scan_step :
      (left i : ℕ)
      → blank_at buffer len i ≡ 0
      → header_scan_loop buffer len (suc left) i ≡ header_scan_loop buffer len left (i + 1)
  unfolding header_scan_loop
  scan_step left i skip = ground arith

  -- A piece without LF is passed over.
  pub scan_inner :
      (text rest : List ℕ) (left i : ℕ)
      → drop i buffer ≡ text ++ rest
      → each is_inner text ≡ true
      → header_scan_loop buffer len (length text + left) i
        ≡ header_scan_loop buffer len left (i + length text)
  unfolding header_scan_loop
  scan_inner [] rest left i e h = ap₂ (header_scan_loop buffer len) (omega arith) (omega arith)
  scan_inner (b ∷ text) rest left i e h =
      let here = get_or-drop_eq i b (text ++ rest) e in
      let next : drop (i + 1) buffer ≡ text ++ rest =
        drop-drop i 1 buffer ∙ ap (λ (xs : List ℕ). drop 1 xs) e in
      let inner : (b == lf) ≡ false = ground arith in
      let skip : blank_at buffer len i ≡ 0 = ground arith in
      ap (λ (n : ℕ). header_scan_loop buffer len n i) {y = suc (length text + left)} (omega arith)
      ∙ scan_step (length text + left) i skip
      ∙ scan_inner text rest left (i + 1) next (ground arith)
      ∙ ap (header_scan_loop buffer len left) {x = i + 1 + length text} (omega arith)

  -- So is an LF with neither LF nor CR behind it.
  pub scan_line :
      (c left i : ℕ) (rest : List ℕ)
      → drop i buffer ≡ lf ∷ c ∷ rest
      → c ≢ 10
      → c ≢ 13
      → header_scan_loop buffer len (suc left) i ≡ header_scan_loop buffer len left (i + 1)
  scan_line c left i rest e no_lf no_cr =
      let here = get_or-drop_eq i lf (c ∷ rest) e in
      let behind =
        get_or-drop_eq (i + 1) c rest (drop-drop i 1 buffer ∙ ap (λ (xs : List ℕ). drop 1 xs) e) in
      scan_step left i (ground arith)

  -- The blank line.
  pub scan_blank :
      (left i : ℕ) (rest : List ℕ)
      → drop i buffer ≡ lf ∷ cr ∷ lf ∷ rest
      → i + 3 ≤ len
      → header_scan_loop buffer len (suc left) i ≡ i + 3
  unfolding header_scan_loop
  scan_blank left i rest e inside =
      let here = get_or-drop_eq i lf (cr ∷ lf ∷ rest) e in
      let second =
        get_or-drop_eq (i + 1) cr (lf ∷ rest)
          (drop-drop i 1 buffer ∙ ap (λ (xs : List ℕ). drop 1 xs) e) in
      let third =
        get_or-drop_eq (i + 2) lf rest (drop-drop i 2 buffer ∙ ap (λ (xs : List ℕ). drop 2 xs) e) in
      let found : blank_at buffer len i ≡ 3 = ground arith in ground arith

  -- A line that is empty before its 0 is passed over by `header_value`.
  pub value_empty :
      (key : List ℕ) (fuel bound i : ℕ) (rest : List ℕ)
      → drop i buffer ≡ 0 ∷ rest
      → i < bound
      → starts_with key (0 ∷ rest) ≡ false
      → value_loop (suc fuel) buffer bound key i ≡ value_loop fuel buffer bound key (i + 1)
  unfolding value_loop line_end
  value_empty key fuel bound i rest e inside other =
      let other' : starts_with key (drop i buffer) ≡ false = ap (starts_with key) e ∙ other in
      let over : line_end (drop i buffer) bound i ≡ i + 1 =
        ap (λ (xs : List ℕ). line_end xs bound i) e ∙ ground arith in
      ground arith

  pub value_found :
      (key : List ℕ) (fuel bound i : ℕ)
      → i < bound
      → starts_with key (drop i buffer) ≡ true
      → value_loop (suc fuel) buffer bound key i ≡ i + length key
  unfolding value_loop
  value_found key fuel bound i inside found = ground arith

-- `split_header` of the first piece leaves the second.
pub split_header-append :
    (xs ys : List ℕ) → split_header (xs ++ ys) (length xs) ≡ split_header xs (length xs) ++ ys
unfolding split_header
split_header-append [] [] = refl
split_header-append [] (y ∷ ys) = refl
split_header-append (x ∷ xs) ys =
    ap (λ (t : List ℕ). (if x == lf || x == cr then 0 else x) ∷ t) (split_header-append xs ys)

pub split_header-two :
    (xs ys : List ℕ)
    → split_header (xs ++ ys) (length (xs ++ ys))
      ≡ split_header xs (length xs) ++ split_header ys (length ys)
unfolding split_header
split_header-two [] ys = refl
split_header-two (x ∷ xs) ys =
    ap (λ (t : List ℕ). (if x == lf || x == cr then 0 else x) ∷ t) (split_header-two xs ys)

-- A single line has nothing to split.
pub split_header-is_line : (xs : List ℕ) → each is_line xs ≡ true → split_header xs (length xs) ≡ xs
unfolding split_header
split_header-is_line [] h = refl
split_header-is_line (x ∷ xs) h =
    let rest = split_header-is_line xs (ground arith) in
    let same : (x == lf || x == cr) ≡ false = ground arith in
    rw same (ap (λ (t : List ℕ). x ∷ t) rest)

-- `find_needle` finds the place where the needle stands first.
pub find_needle-at :
    (haystack needle : List ℕ) (len i : ℕ)
    → 1 ≤ length needle
    → len < 2 ^ 31
    → i + length needle < len
    → StandsAt haystack needle (length needle) i
    → IsAbsent haystack needle (length needle) 0 i
    → find_needle haystack len needle (length needle) ≡ i
find_needle-at haystack needle len i some_needle int before stands absent =
    let n = length needle in
    let r = find_needle haystack len needle n in
    elim (find_needle-IsFirst haystack needle len n some_needle (omega arith) int) [
      | inl first ↦ elim (dec_lt r i) [
        | yes less ↦ absurd (absent r (omega arith) less first.stands)
        | no more ↦ elim (dec_lt i r) [
          | yes less ↦ absurd (first.first i (omega arith) less stands)
          | no more' ↦ omega arith
        ]
      ]
      | inr (missed, nowhere) ↦ absurd (nowhere i (omega arith) (omega arith) stands)
    ]

-- The needle stands behind what is before it.
pub needle-StandsAt :
    (xs needle ys : List ℕ) → StandsAt (xs ++ (needle ++ ys)) needle (length needle) (length xs)
needle-StandsAt xs needle ys j inside =
    get_or-append_right xs (needle ++ ys) (length xs + j) 0 (omega arith)
    ∙ ap (λ (k : ℕ). get_or (needle ++ ys) k 0) {y = j} (omega arith)
    ∙ get_or-append_left needle ys j 0 inside
