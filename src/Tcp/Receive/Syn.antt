-- ===== src/Tcp/Receive/Syn.antt =====
-- A SYN on the listening stack: what the options lead to, and the options on which the stack hangs.
use eth_transfer.Base.{
  ℕ, ◌+◌, sym, ◌^◌, ◌≤◌, ◌<◌, ◌≡◌, refl, ◌∙◌, List, [], ◌∷◌, length, length-append, none, some,
  true, false, ◌||◌, ltb, ◌==◌, if◌then◌else◌, sub32, arith, Bool-cases, slt, min, minus_one, ◌⊎◌,
  inl, inr, IsBytes,
}
use eth_transfer.Options.{scan_options}
use eth_transfer.Options.Formed.{
  TcpOption, nop, sized, encode_all, IsFormed, StandsAt, lookup, number, scan_options-lookup,
}
use eth_transfer.Options.Returns.{IsStuck, Reaches, reached_stuck_never_returns}
use mathlib.Core.Path.{subst}
use eth_transfer.Tcp.{listen, max_segment, tcp_rst, tcp_syn, tcp_ack}
use eth_transfer.Tcp.Receive.Opened.{SynResult, accept_connection-IsOpened, SynResult-if}
use eth_transfer.Tcp.Receive.{
  TcpPacket, Endpoint, data_offset, options, has_flag, handle_syn, accept_connection, option_rounds,
  handle_tcp_packet,
}

-- A packet that opens a connection: it reaches the branch of `handle_syn`.
pub record Opens (rx : TcpPacket) (e : Endpoint) : Type 0 where
  pub to_server : rx.dest_port ≡ 80
  pub listening : e.conn.state ≡ listen
  pub no_reset : has_flag rx tcp_rst ≡ false
  pub synchronise : has_flag rx tcp_syn ≡ true
  pub no_ack : has_flag rx tcp_ack ≡ false

Opens-handle_syn :
    (random1 random2 : ℕ) (rx : TcpPacket) (e : Endpoint)
    → Opens rx e
    → handle_tcp_packet random1 random2 rx e ≡ handle_syn random1 random2 rx e
unfolding handle_tcp_packet
Opens-handle_syn random1 random2 rx e o =
    rw (o.to_server, o.listening, o.no_reset, o.synchronise, o.no_ack)

-- What is agreed on: the peer's segment size up to 1400, and its window scale, 0 by default.
abbrev pub agreed_segment : ℕ → ℕ
agreed_segment m = if m == minus_one then 1400 else min m 1400

abbrev pub agreed_scale : ℕ → ℕ
agreed_scale s = if s == minus_one then 0 else s

number-small :
    (payload : List ℕ) → IsBytes payload → (number payload < 2 ^ 16) ⊎ (number payload ≡ minus_one)
number-small [] b = inr refl
number-small (x ∷ []) b = inl (omega (arith, b 0))
number-small (x ∷ y ∷ []) b = inl (omega (arith, b 0, b 1))
number-small (x ∷ y ∷ z ∷ rest) b = inr refl

lookup-small :
    (kind : ℕ) (os : List TcpOption)
    → IsFormed os
    → (lookup kind os < 2 ^ 16) ⊎ (lookup kind os ≡ minus_one)
lookup-small kind [] f = inr refl
lookup-small kind (nop ∷ os) f = lookup-small kind os f
lookup-small kind (sized k payload ∷ os) f = elim (Bool-cases (k == kind)) [
  | inl e ↦ rw e (number-small payload f.2)
  | inr e ↦ rw e (lookup-small kind os f.3)
]

length-le-encode_all : (os : List TcpOption) → length os ≤ length (encode_all os)
length-le-encode_all [] = omega arith
length-le-encode_all (nop ∷ os) = omega (arith, length-le-encode_all os)
length-le-encode_all (sized k payload ∷ os) =
    omega (arith, length-le-encode_all os, length-append payload (encode_all os))

-- The signed tests of the code on what was found.
scale_read : (s : ℕ) → (s < 2 ^ 16) ⊎ (s ≡ minus_one) → (if slt s 0 then 0 else s) ≡ agreed_scale s
scale_read s (inl small) = ground arith
scale_read s (inr none_found) = ground arith

scale_tested :
    (s : ℕ) → (s < 2 ^ 16) ⊎ (s ≡ minus_one) → slt 14 (agreed_scale s) ≡ ltb 14 (agreed_scale s)
scale_tested s (inl small) = ground arith
scale_tested s (inr none_found) = ground arith

segment_read :
    (m : ℕ)
    → (m < 2 ^ 16) ⊎ (m ≡ minus_one)
    → (if slt m 0 || slt max_segment m then max_segment else m) ≡ agreed_segment m
segment_read m (inl small) = ground arith
segment_read m (inr none_found) = ground arith

handle_tcp_packet-checked :
    (random1 random2 : ℕ) (rx : TcpPacket) (e : Endpoint) (os : List TcpOption)
    → Opens rx e
    → IsFormed os
    → StandsAt (options rx) 0 (encode_all os)
    → length (encode_all os) ≤ 40
    → data_offset rx ≡ 20 + length (encode_all os)
    → handle_tcp_packet random1 random2 rx e ≡ (
        if ltb 14 (agreed_scale (lookup 3 os)) || lookup 2 os == 0
        then some e
        else some (
            accept_connection random1 random2 rx e
              (agreed_segment (lookup 2 os))
              (agreed_scale (lookup 3 os))))
unfolding handle_syn
handle_tcp_packet-checked random1 random2 rx e os o f h short offset =
    Opens-handle_syn random1 random2 rx e o
    ∙ rw (
      size,
      found 2 (omega arith),
      found 3 (omega arith),
      scale_read (lookup 3 os) (lookup-small 3 os f),
      scale_tested (lookup 3 os) (lookup-small 3 os f),
      segment_read (lookup 2 os) (lookup-small 2 os f),
    )
  where
    size : sub32 (data_offset rx) 20 ≡ length (encode_all os)
    size = omega (arith, offset)

    found :
        (kind : ℕ)
        → 2 ≤ kind
        → scan_options option_rounds (options rx) (length (encode_all os)) kind
          ≡ some (lookup kind os)
    found kind wanted =
        scan_options-lookup os option_rounds (options rx) kind f wanted
          (omega (arith, length-le-encode_all os)) (omega arith) h

-- A SYN whose options are well formed is refused when it asks for a window scale above 14 or for
-- segments of size 0, and leaves the stack as it was. Else it opens the connection: in SYN_RECEIVED,
-- with the smaller of 1400 and the peer's segment size, with its window scale and its window under
-- that scale, with the peer's addresses and sequence number, with the next connection number and a
-- sequence number of two random halves, nothing read, nothing sent, no end on either side, and an
-- answer that is due at once.
pub handle_tcp_packet-SynResult :
    (random1 random2 : ℕ) (rx : TcpPacket) (e : Endpoint) (os : List TcpOption)
    → Opens rx e
    → IsFormed os
    → StandsAt (options rx) 0 (encode_all os)
    → length (encode_all os) ≤ 40
    → data_offset rx ≡ 20 + length (encode_all os)
    → SynResult random1 random2
        (ltb 14 (agreed_scale (lookup 3 os)) || lookup 2 os == 0)
        rx
        e
        (agreed_segment (lookup 2 os))
        (agreed_scale (lookup 3 os))
        (handle_tcp_packet random1 random2 rx e)
handle_tcp_packet-SynResult random1 random2 rx e os o f h short offset =
    let segment = agreed_segment (lookup 2 os) in
    let scale = agreed_scale (lookup 3 os) in
    let refused = ltb 14 scale || lookup 2 os == 0 in
    subst (SynResult random1 random2 refused rx e segment scale)
      (sym (handle_tcp_packet-checked random1 random2 rx e os o f h short offset))
      (SynResult-if random1 random2 refused rx e segment scale
        (accept_connection random1 random2 rx e segment scale)
        (accept_connection-IsOpened random1 random2 rx e segment scale o.to_server))

-- A SYN can stop the stack for good: where the search for the segment size reaches an option of
-- another kind with size 0, the handler never returns, for every fuel of the search.
pub handle_tcp_packet-hangs :
    (random1 random2 : ℕ) (rx : TcpPacket) (e : Endpoint) (len j : ℕ)
    → Opens rx e
    → sub32 (data_offset rx) 20 ≡ len
    → len < 2 ^ 30
    → IsBytes (options rx)
    → Reaches (options rx) len 2 0 j
    → IsStuck (options rx) len 2 j
    → (handle_tcp_packet random1 random2 rx e ≡ none)
      × ((fuel : ℕ) → scan_options fuel (options rx) len 2 ≡ none)
unfolding handle_syn scan_options
handle_tcp_packet-hangs random1 random2 rx e len j o size int bytes r s =
    (Opens-handle_syn random1 random2 rx e o ∙ rw (size, stuck option_rounds), stuck)
  where
    stuck : (fuel : ℕ) → scan_options fuel (options rx) len 2 ≡ none
    stuck fuel = reached_stuck_never_returns (options rx) len 2 int fuel bytes r s
