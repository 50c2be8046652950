-- ===== src/Tcp/Exchange/Same.antt =====
-- The calls of a connection that have no part in its receive side.
use eth_transfer.Base.{
  ℕ, ◌≡◌, refl, ◌∙◌, minus_one, slt, Bool-cases, List, inl, inr, some, Bool, true, false, arith,
  some_inj, Option, ◌⊎◌, if◌then◌else◌, >>=-some-eq-some,
}
use mathlib.Core.Path.{subst}
use eth_transfer.Clock.{Timespec, Clock}
use eth_transfer.Tcp.{TcpConnection, is_in, listen, tcp_rst}
use eth_transfer.Tcp.Segments.Delivery.{Holds}
use eth_transfer.Tcp.Receive.Stream.{Holds-cong}
use eth_transfer.Tcp.Send.{
  Surroundings, Sender, Sent, sent_of, transmit, decide_send, send_tcp_packet, after_send,
  after_syn, after_reset, after_fins, after_both, is_syn, flags_of,
}
use eth_transfer.Tcp.Receive.{TcpPacket, Endpoint, has_flag, handle_tcp_packet}
use eth_transfer.Tcp.Api.{
  Read, read_tcp, read_bytes, read_length, write_round, shutdown_tcp, close_tcp,
}

-- The fields of the receive side are the same.
abbrev pub SameReceive : TcpConnection → TcpConnection → Type 0
SameReceive c c' =
    (c'.rx_read ≡ c.rx_read)
    × (c'.rx_write ≡ c.rx_write)
    × (c'.rx_buffer ≡ c.rx_buffer)
    × (c'.rx_segments ≡ c.rx_segments)

pub SameReceive-Holds :
    (stream : ℕ → ℕ) (c c' : TcpConnection) → SameReceive c c' → Holds stream c → Holds stream c'
SameReceive-Holds stream c c' same h = Holds-cong stream c c' same.0 same.1 same.2 same.3 h

decide_send-SameReceive :
    (t : Timespec) (k : Clock) (c : TcpConnection) → SameReceive c (decide_send t k c).2
unfolding decide_send
decide_send-SameReceive t k c = (ground arith, ground arith, ground arith, ground arith)

after_send-SameReceive :
    (syn : Bool) (flags : ℕ) (c : TcpConnection) → SameReceive c (after_send syn flags c)
unfolding after_send after_syn after_reset after_fins after_both
after_send-SameReceive syn flags c = (ground arith, ground arith, ground arith, ground arith)

pub write_round-SameReceive :
    (bytes : List ℕ) (n : ℕ) (c c' : TcpConnection)
    → write_round bytes n c ≡ some c'
    → SameReceive c c'
unfolding write_round
write_round-SameReceive bytes n c c' e = (ground arith, ground arith, ground arith, ground arith)

pub shutdown_tcp-SameReceive :
    (connection_id : ℕ) (c : TcpConnection) → SameReceive c (shutdown_tcp connection_id c).1
unfolding shutdown_tcp
shutdown_tcp-SameReceive connection_id c = (ground arith, ground arith, ground arith, ground arith)

-- A read that fails leaves the receive side as it was.
read_bytes_failed :
    (buffer : List ℕ) (len : ℕ) (c : TcpConnection) (r : Read)
    → read_bytes buffer len c ≡ some r
    → r.result ≡ minus_one
    → SameReceive c r.conn
unfolding read_bytes
read_bytes_failed buffer len c r e failed = elim (Bool-cases (slt (read_length len c) 0)) [
  | inl negative ↦ (ground arith, ground arith, ground arith, ground arith)
  | inr counted ↦ (ground arith, ground arith, ground arith, ground arith)
]

pub refused-SameReceive :
    (connection_id off len : ℕ) (buffer : List ℕ) (c : TcpConnection) (r : Read)
    → read_tcp connection_id buffer off len c ≡ some r
    → r.result ≡ minus_one
    → SameReceive c r.conn
unfolding read_tcp
refused-SameReceive connection_id off len buffer c r e failed =
    let inner = read_bytes_failed buffer len c r in
    (ground (arith, inner), ground (arith, inner), ground (arith, inner), ground (arith, inner))

pub reset-SameReceive :
    (random1 random2 : ℕ) (rx : TcpPacket) (x y : Endpoint)
    → has_flag rx tcp_rst ≡ true
    → handle_tcp_packet random1 random2 rx x ≡ some y
    → SameReceive x.conn y.conn
unfolding handle_tcp_packet
reset-SameReceive random1 random2 rx x y flag e =
    (ground arith, ground arith, ground arith, ground arith)

pub close_tcp-SameReceive :
    (connection_id : ℕ) (c : TcpConnection) → SameReceive c (close_tcp connection_id c)
unfolding close_tcp
close_tcp-SameReceive connection_id c = (ground arith, ground arith, ground arith, ground arith)

SameReceive-trans : (c d e : TcpConnection) → SameReceive c d → SameReceive d e → SameReceive c e
SameReceive-trans c d e h k = (k.0 ∙ h.0, k.1 ∙ h.1, k.2 ∙ h.2, k.3 ∙ h.3)

transmit-SameReceive :
    (w : Surroundings) (s : Sender) (c : TcpConnection) (r : Sent)
    → transmit w s c ≡ some r
    → SameReceive c r.sender.conn
unfolding transmit sent_of
transmit-SameReceive w s c r e =
    let (memory, _, same) = >>=-some-eq-some _ (sent_of w s c) e in
    subst (λ (x : Sent). SameReceive c x.sender.conn) same
      (after_send-SameReceive (is_syn c) (flags_of c) _)

sent_cases :
    (gone send : Bool) (idle : Sent) (sent : Option Sent) (later r : Sent)
    → (if gone then some idle else if send then sent else some later) ≡ some r
    → (idle ≡ r) ⊎ ((sent ≡ some r) ⊎ (later ≡ r))
sent_cases true send idle sent later r e = inl (some_inj e)
sent_cases false true idle sent later r e = inr (inl e)
sent_cases false false idle sent later r e = inr (inr (some_inj e))

pub send_tcp_packet-SameReceive :
    (w : Surroundings) (s : Sender) (r : Sent)
    → send_tcp_packet w s ≡ some r
    → SameReceive s.conn r.sender.conn
unfolding send_tcp_packet
send_tcp_packet-SameReceive w s r e =
    let d = decide_send w.at_test s.clock s.conn in
    let s' : Sender = record s { clock = d.1; conn = d.2 } in
    let decided = decide_send-SameReceive w.at_test s.clock s.conn in
    elim (sent_cases (is_in s.conn.state listen) d.0 _ (transmit w s' d.2) _ r e) [
      | inl same ↦
          subst (λ (x : Sent). SameReceive s.conn x.sender.conn) same (refl, refl, refl, refl)
      | inr (inl k) ↦
          SameReceive-trans s.conn d.2 r.sender.conn decided (transmit-SameReceive w s' d.2 r k)
      | inr (inr same) ↦ subst (λ (x : Sent). SameReceive s.conn x.sender.conn) same decided
    ]
