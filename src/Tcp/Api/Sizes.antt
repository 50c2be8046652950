-- ===== src/Tcp/Api/Sizes.antt =====
-- The results of `read_tcp` and the size of the buffer that it copies to.
use mathlib.Core.Path.{subst}
use eth_transfer.Base.{
  ℕ, ◌+◌, ◌^◌, ◌≤◌, ◌<◌, ◌≡◌, refl, sym, ap, ◌∙◌, List, length, Bool, true, false, ◌&&◌, leb, slt,
  sle, sub32, add32, minus_one, Option, none, some, some_inj, if◌then◌else◌, ◌>>=◌, >>=-eq-some,
  >>=-some-eq-some, ◌⊎◌, inl, inr, arith, bit_and, memcpy, splice, length-splice,
}
use eth_transfer.Ints.{negsuc}
use eth_transfer.Tcp.{TcpConnection, rx_mask, is_in, data_to_read, listen}
use eth_transfer.Tcp.Api.{Read, read_tcp, read_bytes, read_length, is_gone, is_drained}
use eth_transfer.Circle.{copy_from_circle_buffer}

-- `read_tcp` returns -1 or at most what is asked for, and keeps the size of the buffer.
abbrev pub IsRead : ℕ → ℕ → Read → Type 0
IsRead size len r = (length r.buffer ≡ size) × ((sle 0 r.result ≡ false) ⊎ (r.result ≤ len))

length-memcpy :
    (dest : List ℕ) (dest_off : ℕ) (source : List ℕ) (source_off n : ℕ) (out : List ℕ)
    → memcpy dest dest_off source source_off n ≡ some out
    → length out ≡ length dest
unfolding memcpy
length-memcpy dest dest_off source source_off n out e =
    kept (leb (dest_off + n) (length dest) && leb (source_off + n) (length source)) refl e
  where
    kept :
        (test : Bool)
        → test ≡ (leb (dest_off + n) (length dest) && leb (source_off + n) (length source))
        → (if test then some (splice dest dest_off source source_off n) else none) ≡ some out
        → length out ≡ length dest
    kept true t k =
        ap (λ (xs : List ℕ). length xs) (sym (some_inj k))
        ∙ length-splice dest dest_off source source_off n (ground arith) (ground arith)
    kept false t k = cc

-- A copy that returns keeps the size.
abbrev Keeps : ℕ → Option (List ℕ) → Type 0
Keeps n none = Unit {0}
Keeps n (some out) = length out ≡ n

if-Keeps :
    (n : ℕ) (test : Bool) (x y : Option (List ℕ))
    → Keeps n x
    → Keeps n y
    → Keeps n (if test then x else y)
if-Keeps n true x y h k = h
if-Keeps n false x y h k = k

Keeps-some :
    (n : ℕ) (x : Option (List ℕ)) (out : List ℕ) → Keeps n x → x ≡ some out → length out ≡ n
Keeps-some n x out h e = subst (Keeps n) e h

some-Keeps :
    (n : ℕ) (x : Option (List ℕ)) → ((out : List ℕ) → x ≡ some out → length out ≡ n) → Keeps n x
some-Keeps n none h = tt
some-Keeps n (some out) h = h out refl

copy_from_circle_buffer-Keeps :
    (dest : List ℕ) (len : ℕ) (source : List ℕ) (mask start n : ℕ)
    → Keeps (length dest) (copy_from_circle_buffer dest len source mask start n)
unfolding copy_from_circle_buffer
copy_from_circle_buffer-Keeps dest len source mask start n =
    if-Keeps (length dest) (slt mask n) (some dest) _ refl (
      if-Keeps (length dest) (slt len n) (some dest) _ refl (
        if-Keeps (length dest) (sle n 0) (some dest) _ refl (
          if-Keeps (length dest) (sle (bit_and start mask) (bit_and (sub32 (add32 start n) 1) mask))
            _ _
            (some-Keeps (length dest) _
              (λ out e. length-memcpy dest 0 source (bit_and start mask) n out e))
            (some-Keeps (length dest) _ (λ out e.
              let (middle, first, second) =
                >>=-eq-some (memcpy dest 0 source (bit_and start mask) _)
                  (λ dest'. memcpy dest' _ source 0 _) e in
              length-memcpy middle _ source 0 _ out second
              ∙ length-memcpy dest 0 source (bit_and start mask) _ middle first)))))

read_length-le :
    (len : ℕ) (c : TcpConnection)
    → len < 2 ^ 31
    → slt (read_length len c) 0 ≡ false
    → read_length len c ≤ len
read_length-le len c small e = ground arith

read_bytes-IsRead :
    (buffer : List ℕ) (len : ℕ) (c : TcpConnection) (r : Read)
    → len < 2 ^ 31
    → read_bytes buffer len c ≡ some r
    → IsRead (length buffer) len r
unfolding read_bytes
read_bytes-IsRead buffer len c r small e = at (slt (read_length len c) 0) refl e
  where
    at :
        (test : Bool)
        → slt (read_length len c) 0 ≡ test
        → (if test
            then some (record { result = minus_one; conn = c; buffer = buffer })
            else copy_from_circle_buffer buffer len c.rx_buffer rx_mask c.rx_read
                (read_length len c)
              >>= (λ out. some (record {
                result = read_length len c;
                conn = record c {
                  rx_read = add32 c.rx_read (read_length len c);
                  ack_timeout = if slt 0 (read_length len c) then negsuc 0 else c.ack_timeout;
                };
                buffer = out;
              })))
          ≡ some r
        → IsRead (length buffer) len r
    at true t k = subst (IsRead (length buffer) len) (some_inj k) (refl, inl refl)
    at false t k =
        let (out, copied, same) =
          >>=-some-eq-some
            (copy_from_circle_buffer buffer len c.rx_buffer rx_mask c.rx_read (read_length len c)) _
            k in
        subst (IsRead (length buffer) len) same (
          Keeps-some (length buffer) _ out
              (copy_from_circle_buffer-Keeps buffer len c.rx_buffer rx_mask c.rx_read
                (read_length len c))
              copied,
          inr (read_length-le len c small t),
        )

-- What is returned without a copy.
turned_away :
    (buffer : List ℕ) (len : ℕ) (test : Bool) (c : TcpConnection) (more : Option Read) (r : Read)
    → (more ≡ some r → IsRead (length buffer) len r)
    → (if test then some (record { result = minus_one; conn = c; buffer = buffer }) else more)
      ≡ some r
    → IsRead (length buffer) len r
turned_away buffer len true c more r h e =
    subst (IsRead (length buffer) len) (some_inj e) (refl, inl refl)
turned_away buffer len false c more r h e = h e

pub read_tcp-IsRead :
    (connection_id : ℕ) (buffer : List ℕ) (off len : ℕ) (c : TcpConnection) (r : Read)
    → len < 2 ^ 31
    → read_tcp connection_id buffer off len c ≡ some r
    → IsRead (length buffer) len r
unfolding read_tcp
read_tcp-IsRead connection_id buffer off len c r small = turned_away buffer len (slt off 0) c _ r (
    turned_away buffer len (is_gone connection_id c) c _ r (
      turned_away buffer len (is_in c.state data_to_read && is_drained c)
        (record c { state = listen }) _ r
        (turned_away buffer len (leb c.rx_fin c.rx_read) c _ r
          (read_bytes-IsRead buffer len c r small))))
