-- ===== src/Base/Texts.antt =====
-- C strings as the lists of their bytes, without the 0, and the parts of `printf` and `scanf` that
-- read and write numbers.
use Prim.Native.Char.{code}
use Prim.Native.String.{String}
use Prim.Native.Nat.{ℕ, zero, suc, ◌+◌, ◌-◌, ◌*◌, ◌/◌, ◌%◌}
use mathlib.Core.Bool.{Bool, true, false, ◌&&◌, ◌||◌}
use mathlib.Core.Option.{Option, none, some}
use mathlib.Core.List.{List, [], ◌∷◌}
use eth_transfer.Base.Tests.{ltb, leb, ◌==◌, if◌then◌else◌}
use eth_transfer.Base.Lists.{get_or}
use eth_transfer.Base.Words.{u32, sub32}

-- The bytes of an ASCII text.
abbrev pub codes : String → List ℕ
codes String.[] = []
codes (String.◌∷◌ c s) = code c ∷ codes s

-- The string that starts with these bytes.
abbrev pub c_string : List ℕ → List ℕ
c_string [] = []
c_string (b ∷ bytes) = if b == 0 then [] else b ∷ c_string bytes

-- `strncmp(line, text, strlen(text)) == 0`, for a text with no 0 in it.
abbrev pub has_prefix : List ℕ → List ℕ → Bool
has_prefix [] line = true
has_prefix (c ∷ text) [] = false
has_prefix (c ∷ text) (b ∷ line) = b == c && has_prefix text line

-- `strcmp(a, b) == 0`
abbrev pub same_text : List ℕ → List ℕ → Bool
same_text [] [] = true
same_text [] (b ∷ bs) = false
same_text (a ∷ xs) [] = false
same_text (a ∷ xs) (b ∷ bs) = a == b && same_text xs bs

-- `strstr(text, needle)`, for a needle that is not empty.
abbrev pub strstr : List ℕ → List ℕ → Option (List ℕ)
strstr [] needle = none
strstr (b ∷ text) needle =
    let rest = strstr text needle in
    if has_prefix needle (b ∷ text) then some (b ∷ text) else if b == 0 then none else rest

abbrev pub is_space : ℕ → Bool
is_space c = c == 32 || leb 9 c && leb c 13

abbrev pub is_digit : ℕ → Bool
is_digit c = leb 48 c && leb c 57

-- The number in front of the text, added to the digits before it, and the text behind it.
abbrev pub digits_value : ℕ → List ℕ → ℕ × List ℕ
digits_value value [] = (value, [])
digits_value value (c ∷ text) =
    let rest = digits_value (u32 (value * 10 + (c - 48))) text in
    if is_digit c then rest else (value, c ∷ text)

abbrev pub scan_digits : List ℕ → Option (ℕ × List ℕ)
scan_digits text = if is_digit (get_or text 0 0) then some (digits_value 0 text) else none

abbrev pub negated : Option (ℕ × List ℕ) → Option (ℕ × List ℕ)
negated none = none
negated (some r) = some (sub32 0 r.0, r.1)

-- `%d`: spaces, a sign, and at least one digit; the `int` and the text behind it.
abbrev pub scan_int : List ℕ → Option (ℕ × List ℕ)
scan_int [] = none
scan_int (c ∷ text) =
    let rest = scan_int text in
    if is_space c
    then rest
    else if c == 43
    then scan_digits text
    else if c == 45
    then negated (scan_digits text)
    else scan_digits (c ∷ text)

-- The digits of a number below `10 ^ n`, in front of a text.
abbrev pub digits_of : ℕ → ℕ → List ℕ → List ℕ
digits_of zero value text = text
digits_of (suc n) value text =
    let more = digits_of n (value / 10) ((48 + value % 10) ∷ text) in
    if ltb value 10 then (48 + value) ∷ text else more

-- `%d` of an `int` from 0 on.
abbrev pub decimal : ℕ → List ℕ
decimal value = digits_of 10 value []
