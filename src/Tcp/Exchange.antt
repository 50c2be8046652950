-- ===== src/Tcp/Exchange.antt =====
-- The receive side of a connection over any sequence of calls: segments of the peer, in any order
-- and with repetitions, segments that are turned away, packets that are sent, and the calls of the
-- reader and the writer.
pub mod Same
use eth_transfer.Base.{
  ℕ, zero, suc, ◌+◌, ◌^◌, ◌<◌, ◌≡◌, List, [], ◌∷◌, ◌++◌, length, get_or, drop, inl, inr, some, Bool,
  true, false, minus_one, Option, ◌⊎◌, if◌then◌else◌, >>=-some-eq-some,
}
use eth_transfer.Clock.{Timespec, Clock}
use eth_transfer.Tcp.{TcpConnection, is_in, listen, tcp_rst}
use eth_transfer.Tcp.Segments.Delivery.{Holds, Sends}
use eth_transfer.Tcp.Receive.{
  TcpPacket, Endpoint, data_length, admits, handle_segment, has_flag, handle_tcp_packet,
}
use eth_transfer.Tcp.Receive.Stream.{Holds-cong, payload, base_of}
use eth_transfer.Tcp.Send.{
  Surroundings, Sender, Sent, sent_of, transmit, decide_send, send_tcp_packet, after_send,
  after_syn, after_reset, after_fins, after_both, is_syn, flags_of,
}
use eth_transfer.Tcp.Api.{Read, read_tcp, write_round, shutdown_tcp, close_tcp}
use eth_transfer.Tcp.Api.Reading.{IsReadable}

-- The first `n` bytes of a buffer.
abbrev pub first_bytes : ℕ → List ℕ → List ℕ
first_bytes zero buffer = []
first_bytes (suc n) buffer = get_or buffer 0 0 ∷ first_bytes n (drop 1 buffer)

-- A connection after some calls, with the bytes that `read_tcp` has handed out so far. A segment that
-- passes the guards carries bytes of the stream of the peer, and ends inside the window, 8192 bytes from
-- the read position on: the code tests the write position and the length, and not where the segment
-- stands. A read that hands out bytes is inside the buffer of its caller, and at positions for which
-- 2^32 is 8192 away. A read that is refused, a reset, and a close are steps too. What opens a new
-- connection, with a stream of its own, is not a step.
pub data Exchange (stream : ℕ → ℕ) (c : TcpConnection) : List ℕ → TcpConnection → Type 0 where
  opened : Exchange stream c [] c
  segment :
      {bytes : List ℕ} {d e : TcpConnection} (rx : TcpPacket)
      → Exchange stream c bytes d
      → admits rx d ≡ true
      → Sends stream d (payload rx) (data_length rx) (base_of rx d)
      → handle_segment rx d ≡ some e
      → Exchange stream c bytes e
  turned_away :
      {bytes : List ℕ} {d e : TcpConnection} (rx : TcpPacket)
      → Exchange stream c bytes d
      → admits rx d ≡ false
      → handle_segment rx d ≡ some e
      → Exchange stream c bytes e
  read :
      {bytes : List ℕ} {d : TcpConnection} (connection_id off len : ℕ) (buffer : List ℕ) (r : Read)
      → Exchange stream c bytes d
      → IsReadable connection_id off len buffer d
      → d.rx_write + 8192 < 2 ^ 32
      → read_tcp connection_id buffer off len d ≡ some r
      → Exchange stream c (bytes ++ first_bytes r.result r.buffer) r.conn
  send :
      {bytes : List ℕ} (w : Surroundings) (s : Sender) (r : Sent)
      → Exchange stream c bytes s.conn
      → send_tcp_packet w s ≡ some r
      → Exchange stream c bytes r.sender.conn
  write :
      {bytes : List ℕ} {d e : TcpConnection} (data_bytes : List ℕ) (n : ℕ)
      → Exchange stream c bytes d
      → write_round data_bytes n d ≡ some e
      → Exchange stream c bytes e
  refused :
      {bytes : List ℕ} {d : TcpConnection} (connection_id off len : ℕ) (buffer : List ℕ) (r : Read)
      → Exchange stream c bytes d
      → read_tcp connection_id buffer off len d ≡ some r
      → r.result ≡ minus_one
      → Exchange stream c bytes r.conn
  reset :
      {bytes : List ℕ} (random1 random2 : ℕ) (rx : TcpPacket) (x y : Endpoint)
      → Exchange stream c bytes x.conn
      → has_flag rx tcp_rst ≡ true
      → handle_tcp_packet random1 random2 rx x ≡ some y
      → Exchange stream c bytes y.conn
  close :
      {bytes : List ℕ} {d : TcpConnection} (connection_id : ℕ)
      → Exchange stream c bytes d
      → Exchange stream c bytes (close_tcp connection_id d)
  shutdown :
      {bytes : List ℕ} {d : TcpConnection} (connection_id : ℕ)
      → Exchange stream c bytes d
      → Exchange stream c bytes (shutdown_tcp connection_id d).1

-- What the reader of the stream has, from the position of `c` on.
pub record Reads (stream : ℕ → ℕ) (c : TcpConnection) (bytes : List ℕ) (d : TcpConnection)
    : Type 0 where
  pub holds : Holds stream d
  pub position : d.rx_read ≡ c.rx_read + length bytes
  pub in_order : (i : ℕ) → i < length bytes → get_or bytes i 0 ≡ stream (c.rx_read + i)
