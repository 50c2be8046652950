-- ===== src/Tcp/Api/Reading.antt =====
-- `read_tcp` against the stream of the peer.
use eth_transfer.Base.{
  ℕ, ◌+◌, ◌-◌, ◌^◌, ◌≤◌, ◌<◌, ◌≡◌, refl, ◌∙◌, List, length, get_or, some, false, ◌&&◌,
  if◌then◌else◌, add32, arith, slt, min,
}
use eth_transfer.Ints.{negsuc}
use eth_transfer.Circle.Reads.{copy_from_circle_buffer-IsRead}
use eth_transfer.Tcp.{TcpConnection, data_to_read, is_in}
use eth_transfer.Tcp.Segments.Delivery.{Holds}
use eth_transfer.Tcp.Api.{Read, read_tcp, read_bytes, read_length, is_gone, is_drained}

-- The call is let through by every guard of `read_tcp`.
pub record IsReadable (connection_id off len : ℕ) (buffer : List ℕ) (c : TcpConnection)
    : Type 0 where
  pub offset : off < 2 ^ 31
  pub present : is_gone connection_id c ≡ false
  pub not_drained : (is_in c.state data_to_read && is_drained c) ≡ false
  pub not_finished : c.rx_read < c.rx_fin
  pub int : len < 2 ^ 31
  pub fits : len ≤ length buffer

abbrev pub available : TcpConnection → ℕ
available c = c.rx_write - c.rx_read

read_tcp-read_bytes :
    (connection_id off len : ℕ) (buffer : List ℕ) (c : TcpConnection)
    → IsReadable connection_id off len buffer c
    → read_tcp connection_id buffer off len c ≡ read_bytes buffer len c
unfolding read_tcp
read_tcp-read_bytes connection_id off len buffer c r = ground arith

module _ (stream : ℕ → ℕ) (c : TcpConnection) (len : ℕ) (h : Holds stream c)
    (int : len < 2 ^ 31) where
  abbrev n : ℕ
  n = min len (available c)

  read_length-min : read_length len c ≡ n
  read_length-min = ground (arith, h.in_order, h.window, h.no_wrap)

  abbrev after : TcpConnection
  after = record c {
    rx_read = add32 c.rx_read n;
    ack_timeout = if slt 0 n then negsuc 0 else c.ack_timeout;
  }

  no_carry : c.rx_write + 8192 < 2 ^ 32 → add32 c.rx_read n ≡ c.rx_read + n
  no_carry room = omega (arith, h.in_order, h.window, h.no_wrap)

  after-Holds : c.rx_write + 8192 < 2 ^ 32 → Holds stream after
  after-Holds room =
      let moved = no_carry room in
      record {
        no_wrap = omega (arith, moved, h.in_order);
        size = h.size;
        in_order = omega (arith, moved, h.in_order);
        window = omega (arith, moved, h.window);
        pending = λ p e. omega (arith, moved, h.pending p e);
        received = λ p from to. h.received p (omega (arith, moved)) to;
        waiting = λ p from e. h.waiting p (omega (arith, moved)) e;
      }

  read_bytes-stream :
      (buffer : List ℕ)
      → len ≤ length buffer
      → c.rx_write + 8192 < 2 ^ 32
      → (out : List ℕ) × (read_bytes buffer len c
          ≡ some (record { result = n; conn = after; buffer = out }))
        × ((i : ℕ) → i < n → get_or out i 0 ≡ stream (c.rx_read + i))
  unfolding read_bytes
  read_bytes-stream buffer fits room =
      let (out, e, r) =
        copy_from_circle_buffer-IsRead buffer len c.rx_buffer c.rx_read n h.size
          (omega (arith, h.no_wrap)) (omega arith) int (omega arith) (omega (arith, h.window)) in
      (
        out,
        rw read_length-min (ground (arith, e, h.window)),
        λ i p. r.inside i p ∙ h.received (c.rx_read + i) (omega arith) (omega arith),
      )

-- A read that the guards let through never leaves a buffer: it returns the smaller of what is asked
-- for and what is there, hands out exactly the next bytes of the stream, moves the read position
-- over them, and keeps the invariant.
pub read_tcp-stream :
    (stream : ℕ → ℕ) (connection_id off len : ℕ) (buffer : List ℕ) (c : TcpConnection)
    → Holds stream c
    → IsReadable connection_id off len buffer c
    → c.rx_write + 8192 < 2 ^ 32
    → (r : Read) × (read_tcp connection_id buffer off len c ≡ some r)
      × (r.result ≡ min len (c.rx_write - c.rx_read))
      × ((i : ℕ) → i < r.result → get_or r.buffer i 0 ≡ stream (c.rx_read + i))
      × (r.conn.rx_read ≡ c.rx_read + r.result)
      × Holds stream r.conn
read_tcp-stream stream connection_id off len buffer c h ok room =
    let (out, e, content) = read_bytes-stream stream c len h ok.int buffer ok.fits room in
    (
      record { result = n stream c len h ok.int; conn = after stream c len h ok.int; buffer = out },
      read_tcp-read_bytes connection_id off len buffer c ok ∙ e,
      refl,
      content,
      no_carry stream c len h ok.int room,
      after-Holds stream c len h ok.int room,
    )
