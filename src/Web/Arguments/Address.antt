-- ===== src/Web/Arguments/Address.antt =====
-- The text of an address, as `unpack_ip_addr` of src/ip_stack.c prints it, and `main` of
-- src/web_server.c reads it.
use eth_transfer.Base.{
  ℕ, ◌+◌, ◌-◌, ◌*◌, ◌/◌, ◌%◌, ◌^◌, ◌≤◌, ◌<◌, ◌≡◌, refl, sym, ap, ◌∙◌, List, [], ◌∷◌, ◌++◌, drop,
  get_or, true, false, ◌==◌, ltb, u32, Option, none, some, if◌then◌else◌, ◌>>=◌, is_digit, is_space,
  digits_value, scan_int, decimal, append_nil, bit_and, bit_and-mask, ◌>>>◌, arith,
}
use native.Mathlib.Decide.{dec_lt}
use eth_transfer.Stack.Address.{pack_ip_addr, unpack_ip_addr, dotted, address_text, pack_ip_addr-eq}
use eth_transfer.Web.Arguments.{scan_dotted, scan_address}

-- The text goes on with no digit.
abbrev Ends : List ℕ → Type 0
Ends rest = is_digit (get_or rest 0 0) ≡ false

digits_value-Ends :
    (value : ℕ) (rest : List ℕ) → Ends rest → digits_value value rest ≡ (value, rest)
digits_value-Ends value [] h = refl
digits_value-Ends value (c ∷ rest) h = rw h refl

digits_value-digit :
    (value d : ℕ) (rest : List ℕ)
    → d < 10
    → digits_value value ((48 + d) ∷ rest) ≡ digits_value (u32 (value * 10 + d)) rest
digits_value-digit value d rest small =
    let digit : is_digit (48 + d) ≡ true = ground arith in
    let same : 48 + d - 48 ≡ d = omega arith in
    rw digit (ap (λ (k : ℕ). digits_value (u32 (value * 10 + k)) rest) same)

-- A digit starts a number.
scan_int-digit :
    (d : ℕ) (text : List ℕ)
    → d < 10
    → scan_int ((48 + d) ∷ text) ≡ some (digits_value 0 ((48 + d) ∷ text))
scan_int-digit d text small =
    let no_space : is_space (48 + d) ≡ false = ground arith in
    let no_plus : (48 + d == 43) ≡ false = ground arith in
    let no_minus : (48 + d == 45) ≡ false = ground arith in
    let digit : is_digit (48 + d) ≡ true = ground arith in
    rw no_space (rw no_plus (rw no_minus (rw digit refl)))

decimal-one : (v : ℕ) → v < 10 → decimal v ≡ (48 + v) ∷ []
decimal-one v small = let one : ltb v 10 ≡ true = ground arith in rw one refl

decimal-two : (v : ℕ) → 10 ≤ v → v < 100 → decimal v ≡ (48 + v / 10) ∷ (48 + v % 10) ∷ []
decimal-two v low small =
    let more : ltb v 10 ≡ false = ground arith in
    let one : ltb (v / 10) 10 ≡ true = ground arith in rw more (rw one refl)

decimal-three :
    (v : ℕ)
    → 100 ≤ v
    → v < 1000
    → decimal v ≡ (48 + v / 10 / 10) ∷ (48 + v / 10 % 10) ∷ (48 + v % 10) ∷ []
decimal-three v low small =
    let more : ltb v 10 ≡ false = ground arith in
    let more' : ltb (v / 10) 10 ≡ false = ground arith in
    let one : ltb (v / 10 / 10) 10 ≡ true = ground arith in rw more (rw more' (rw one refl))

-- `%d` reads back what `%d` has printed.
scan_int-decimal :
    (v : ℕ) (rest : List ℕ) → v < 1000 → Ends rest → scan_int (decimal v ++ rest) ≡ some (v, rest)
scan_int-decimal v rest small h = elim (dec_lt v 10) [
  | yes one ↦
      ap (λ (t : List ℕ). scan_int (t ++ rest)) (decimal-one v one)
      ∙ scan_int-digit v rest one
      ∙ ap some (
          digits_value-digit 0 v rest one
          ∙ digits_value-Ends (u32 (0 * 10 + v)) rest h
          ∙ ap (λ (k : ℕ). (k, rest)) {y = v} (omega arith))
  | no more ↦ elim (dec_lt v 100) [
    | yes two ↦
        ap (λ (t : List ℕ). scan_int (t ++ rest)) (decimal-two v (omega arith) two)
        ∙ scan_int-digit (v / 10) ((48 + v % 10) ∷ rest) (omega arith)
        ∙ ap some (
            digits_value-digit 0 (v / 10) ((48 + v % 10) ∷ rest) (omega arith)
            ∙ digits_value-digit (u32 (0 * 10 + v / 10)) (v % 10) rest (omega arith)
            ∙ digits_value-Ends (u32 (u32 (0 * 10 + v / 10) * 10 + v % 10)) rest h
            ∙ ap (λ (k : ℕ). (k, rest)) {y = v} (omega arith))
    | no three ↦
        let high = v / 10 / 10 in
        let middle = v / 10 % 10 in
        let low = v % 10 in
        ap (λ (t : List ℕ). scan_int (t ++ rest)) (decimal-three v (omega arith) small)
        ∙ scan_int-digit high ((48 + middle) ∷ (48 + low) ∷ rest) (omega arith)
        ∙ ap some (
            digits_value-digit 0 high ((48 + middle) ∷ (48 + low) ∷ rest) (omega arith)
            ∙ digits_value-digit (u32 (0 * 10 + high)) middle ((48 + low) ∷ rest) (omega arith)
            ∙ digits_value-digit (u32 (u32 (0 * 10 + high) * 10 + middle)) low rest (omega arith)
            ∙ digits_value-Ends (u32 (u32 (u32 (0 * 10 + high) * 10 + middle) * 10 + low)) rest h
            ∙ ap (λ (k : ℕ). (k, rest)) {y = v} (omega arith))
  ]
]

scan_dotted-decimal :
    (v : ℕ) (rest : List ℕ) → v < 1000 → scan_dotted (decimal v ++ (b'.' ∷ rest)) ≡ some (v, rest)
scan_dotted-decimal v rest small =
    ap
      (λ (o : Option (ℕ × List ℕ)).
        o >>= (λ r. if get_or r.1 0 0 == b'.' then some (r.0, drop 1 r.1) else none))
      (scan_int-decimal v (b'.' ∷ rest) small refl)

scan_address-dotted :
    (a b c d : ℕ)
    → a < 1000
    → b < 1000
    → c < 1000
    → d < 1000
    → scan_address (dotted (a ∷ b ∷ c ∷ d ∷ [])) ≡ some (pack_ip_addr a b c d)
unfolding scan_address
scan_address-dotted a b c d ha hb hc hd =
    let last = decimal d in
    let three = decimal c ++ (b'.' ∷ last) in
    let two = decimal b ++ (b'.' ∷ three) in
    ap
      (λ (o : Option (ℕ × List ℕ)). o >>= (λ r1. scan_dotted r1.1 >>= (λ r2.
        scan_dotted r2.1
        >>= (λ r3. scan_int r3.1 >>= (λ r4. some (pack_ip_addr r1.0 r2.0 r3.0 r4.0))))))
      (scan_dotted-decimal a two ha)
    ∙ ap
        (λ (o : Option (ℕ × List ℕ)). o >>= (λ r2.
          scan_dotted r2.1
          >>= (λ r3. scan_int r3.1 >>= (λ r4. some (pack_ip_addr a r2.0 r3.0 r4.0)))))
        (scan_dotted-decimal b three hb)
    ∙ ap
        (λ (o : Option (ℕ × List ℕ)).
          o >>= (λ r3. scan_int r3.1 >>= (λ r4. some (pack_ip_addr a b r3.0 r4.0))))
        (scan_dotted-decimal c last hc)
    ∙ ap (λ (t : List ℕ). scan_int t >>= (λ r4. some (pack_ip_addr a b c r4.0)))
        (sym (append_nil last))
    ∙ ap (λ (o : Option (ℕ × List ℕ)). o >>= (λ r4. some (pack_ip_addr a b c r4.0)))
        (scan_int-decimal d [] hd refl)

-- The text that `unpack_ip_addr` makes of an address is read by the `-i` option of the web server as
-- that address, for each of the 2^32 addresses.
pub scan_address-address_text :
    (ip_addr : ℕ) → ip_addr < 2 ^ 32 → scan_address (address_text ip_addr) ≡ some ip_addr
unfolding unpack_ip_addr
scan_address-address_text ip_addr word =
    let a = bit_and (ip_addr >>> 24) 0xFF in
    let b = bit_and (ip_addr >>> 16) 0xFF in
    let c = bit_and (ip_addr >>> 8) 0xFF in
    let d = bit_and ip_addr 0xFF in
    let ma = bit_and-mask 8 (ip_addr >>> 24) in
    let mb = bit_and-mask 8 (ip_addr >>> 16) in
    let mc = bit_and-mask 8 (ip_addr >>> 8) in
    let md = bit_and-mask 8 ip_addr in
    scan_address-dotted a b c d (omega arith) (omega arith) (omega arith) (omega arith)
    ∙ ap some (omega (arith, pack_ip_addr-eq a b c d))
