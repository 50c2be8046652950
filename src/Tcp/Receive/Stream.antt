-- ===== src/Tcp/Receive/Stream.antt =====
-- `handle_segment` against the stream of the peer: the segments that the guards admit are taken in,
-- and the others change nothing.
use eth_transfer.Base.{ℕ, ◌≤◌, ◌≡◌, ◌∙◌, List, drop, some, true, sub32, arith}
use eth_transfer.Tcp.{TcpConnection}
use eth_transfer.Tcp.Segments.{add_segment}
use eth_transfer.Tcp.Segments.Delivery.{Holds, Sends}
use eth_transfer.Tcp.Segments.Outcome.{add_segment-Holds}
use eth_transfer.Tcp.Receive.{
  TcpPacket, data_offset, data_length, admits, after_data, take_ack, take_window, take_fin,
  handle_segment,
}

-- The invariant speaks of four fields.
pub Holds-cong :
    (stream : ℕ → ℕ) (c c' : TcpConnection)
    → c'.rx_read ≡ c.rx_read
    → c'.rx_write ≡ c.rx_write
    → c'.rx_buffer ≡ c.rx_buffer
    → c'.rx_segments ≡ c.rx_segments
    → Holds stream c
    → Holds stream c'
Holds-cong stream c c' e1 e2 e3 e4 h = record {
  no_wrap = rw e1 h.no_wrap;
  size = rw e3 h.size;
  in_order = rw (e1, e2) h.in_order;
  window = rw (e1, e2) h.window;
  pending = λ p k. rw e1 (h.pending p (rw e4 at k));
  received = λ p from to. rw e3 (h.received p (rw e1 at from) (rw e2 at to));
  waiting = λ p from k. rw e3 (h.waiting p (rw e1 at from) (rw e4 at k));
}

-- The bookkeeping behind `add_segment` leaves the receive side alone.
after_data-rx :
    (rx : TcpPacket) (base : ℕ) (c : TcpConnection)
    → ((after_data rx base c).rx_read ≡ c.rx_read)
      × ((after_data rx base c).rx_write ≡ c.rx_write)
      × ((after_data rx base c).rx_buffer ≡ c.rx_buffer)
      × ((after_data rx base c).rx_segments ≡ c.rx_segments)
unfolding after_data take_ack take_window take_fin
after_data-rx rx base c = (ground arith, ground arith, ground arith, ground arith)

abbrev pub payload : TcpPacket → List ℕ
payload rx = drop (data_offset rx) rx.memory

-- The sender's position of the first byte, counted from its initial sequence number.
abbrev pub base_of : TcpPacket → TcpConnection → ℕ
base_of rx c = sub32 rx.sequence c.remote_sequence

handle_segment-admitted :
    (rx : TcpPacket) (c : TcpConnection) (out : ℕ × TcpConnection)
    → admits rx c ≡ true
    → add_segment (payload rx) (data_length rx) (base_of rx c) c ≡ some out
    → handle_segment rx c ≡ some (after_data rx (base_of rx c) out.1)
unfolding handle_segment
handle_segment-admitted rx c out ok e = rw (ok, e)

-- A segment that passes the guards, and whose bytes are those of the stream inside the offered
-- window, is handled to the end: the receive buffer holds the stream afterwards, and the write
-- position does not move back.
pub handle_segment-Holds :
    (stream : ℕ → ℕ) (rx : TcpPacket) (c : TcpConnection)
    → Holds stream c
    → admits rx c ≡ true
    → Sends stream c (payload rx) (data_length rx) (base_of rx c)
    → (c' : TcpConnection) × (handle_segment rx c ≡ some c')
      × Holds stream c'
      × (c.rx_write ≤ c'.rx_write)
      × (c'.rx_read ≡ c.rx_read)
handle_segment-Holds stream rx c h ok s =
    let (out, e, d) = add_segment-Holds stream c (payload rx) (data_length rx) (base_of rx c) h s in
    let (same_read, same_write, same_buffer, same_segments) =
      after_data-rx rx (base_of rx c) out.1 in
    (
      after_data rx (base_of rx c) out.1,
      handle_segment-admitted rx c out ok e,
      Holds-cong stream out.1 (after_data rx (base_of rx c) out.1) same_read same_write same_buffer
          same_segments d.holds,
      omega (arith, same_write, d.forward),
      same_read ∙ d.same_read,
    )
