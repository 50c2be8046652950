-- ===== src/Options/Formed.antt =====
-- `scan_options` on options that a sender has laid out: it finds what the list of options says.
use native.Mathlib.Nat.{add-zero}
use eth_transfer.Base.{
  ℕ, zero, suc, ◌+◌, ◌*◌, ◌^◌, ◌≤◌, ◌<◌, ◌≡◌, ap, ◌∙◌, List, [], ◌∷◌, ◌++◌, length, length-append,
  get_or-append_left, get_or-append_right, some, get_or, IsBytes, arith, ◌==◌, if◌then◌else◌,
  minus_one, bit_or-fields,
}
use eth_transfer.Options.{byte_at, option_value, scan_loop, scan_options}

-- The one-byte option 1, or a kind with its payload; on the wire the size counts both lead bytes.
pub data TcpOption : Type 0 where
  nop : TcpOption
  sized : ℕ → List ℕ → TcpOption

abbrev pub encode : TcpOption → List ℕ
encode nop = 1 ∷ []
encode (sized kind payload) = kind ∷ (2 + length payload) ∷ payload

abbrev pub encode_all : List TcpOption → List ℕ
encode_all [] = []
encode_all (o ∷ os) = encode o ++ encode_all os

abbrev pub IsFormed : List TcpOption → Type 0
IsFormed [] = Unit {0}
IsFormed (nop ∷ os) = IsFormed os
IsFormed (sized kind payload ∷ os) =
    (2 ≤ kind) × (length payload ≤ 253) × IsBytes payload × IsFormed os

-- The number in a payload of two bytes or one, and -1 for any other.
abbrev pub number : List ℕ → ℕ
number [] = minus_one
number (a ∷ []) = a
number (a ∷ b ∷ []) = a * 256 + b
number (a ∷ b ∷ c ∷ rest) = minus_one

-- The number in the first option of a kind, and -1 where there is none.
abbrev pub lookup : ℕ → List TcpOption → ℕ
lookup kind [] = minus_one
lookup kind (nop ∷ os) = lookup kind os
lookup kind (sized k payload ∷ os) = if k == kind then number payload else lookup kind os

-- The bytes `xs` stand in the memory from index `i` on.
abbrev pub StandsAt : List ℕ → ℕ → List ℕ → Type 0
StandsAt buf i xs = (k : ℕ) → k < length xs → byte_at buf (i + k) ≡ get_or xs k 0

StandsAt-append :
    (buf : List ℕ) (i : ℕ) (xs ys : List ℕ)
    → StandsAt buf i (xs ++ ys)
    → StandsAt buf i xs × StandsAt buf (i + length xs) ys
StandsAt-append buf i xs ys h = (
  λ k p. h k (omega (arith, length-append xs ys)) ∙ get_or-append_left xs ys k 0 p,
  λ k p.
      ap (λ (n : ℕ). byte_at buf n) (omega arith)
      ∙ h (length xs + k) (omega (arith, length-append xs ys))
      ∙ get_or-append_right xs ys (length xs + k) 0 (omega arith)
      ∙ ap (λ (n : ℕ). get_or ys n 0) (omega arith),
)

option_value-number :
    (buf : List ℕ) (i k : ℕ) (payload : List ℕ)
    → StandsAt buf i (k ∷ (2 + length payload) ∷ payload)
    → IsBytes payload
    → length payload ≤ 253
    → option_value buf i ≡ number payload
unfolding option_value
option_value-number buf i k [] h bytes short = ground (arith, h 1)
option_value-number buf i k (a ∷ []) h bytes short = ground (arith, h 1, h 2)
option_value-number buf i k (a ∷ b ∷ []) h bytes short =
    ground (arith, h 1, h 2, h 3, bytes 1, bit_or-fields 8 a b)
option_value-number buf i k (a ∷ b ∷ c ∷ rest) h bytes short = ground (arith, h 1)

length-encode_all_pos : (o : TcpOption) (os : List TcpOption) → 0 < length (encode_all (o ∷ os))
length-encode_all_pos nop os = omega arith
length-encode_all_pos (sized k payload) os = omega arith

module _ (buf : List ℕ) (len kind : ℕ) (int : len < 2 ^ 30) (wanted : 2 ≤ kind) where
  scan_loop-lookup :
      (os : List TcpOption) (fuel i : ℕ)
      → IsFormed os
      → StandsAt buf i (encode_all os)
      → i + length (encode_all os) ≡ len
      → length os < fuel
      → scan_loop fuel buf len kind i ≡ some (lookup kind os)
  unfolding scan_loop
  scan_loop-lookup os zero i f h e enough = absurd (omega arith)
  scan_loop-lookup [] (suc fuel) i f h e enough = ground arith
  scan_loop-lookup (nop ∷ []) (suc fuel) i f h e enough = ground arith
  scan_loop-lookup (nop ∷ o ∷ os) (suc fuel) i f h e enough = ground (
    arith,
    h 0 (omega arith),
    ap (λ (n : ℕ). byte_at buf n) (add-zero i),
    length-encode_all_pos o os,
    scan_loop-lookup (o ∷ os) fuel (i + 1) f
        (StandsAt-append buf i (1 ∷ []) (encode_all (o ∷ os)) h).1 (omega arith) (omega arith),
  )
  scan_loop-lookup (sized k payload ∷ os) (suc fuel) i f h e enough =
      let parts = StandsAt-append buf i (encode (sized k payload)) (encode_all os) h in
      let joined = length-append payload (encode_all os) in
      ground (
        arith,
        h 0 (omega arith),
        h 1 (omega arith),
        joined,
        ap (λ (n : ℕ). byte_at buf n) (add-zero i),
        option_value-number buf i k payload parts.0 f.2 f.1,
        ap (λ (n : ℕ). scan_loop fuel buf len kind n) (index_after i payload (h 1 (omega arith))),
        scan_loop-lookup os fuel (i + length (encode (sized k payload))) f.3 parts.1
            (omega (arith, joined)) (omega arith),
      )
    where
      index_after :
          (i : ℕ) (payload : List ℕ)
          → byte_at buf (i + 1) ≡ 2 + length payload
          → i + byte_at buf (i + 1) ≡ i + suc (suc (length payload))
      index_after i payload e = omega (arith, e)

-- On well-formed options that fill `len` bytes, `scan_options` returns what the first option of the
-- wanted kind says, or -1 if there is none: the bytes are taken apart as they were put together.
pub scan_options-lookup :
    (os : List TcpOption) (fuel : ℕ) (buf : List ℕ) (kind : ℕ)
    → IsFormed os
    → 2 ≤ kind
    → length os < fuel
    → length (encode_all os) < 2 ^ 30
    → StandsAt buf 0 (encode_all os)
    → scan_options fuel buf (length (encode_all os)) kind ≡ some (lookup kind os)
unfolding scan_options
scan_options-lookup os fuel buf kind f wanted enough int h =
    scan_loop-lookup buf (length (encode_all os)) kind int wanted os fuel 0 f h (omega arith) enough
