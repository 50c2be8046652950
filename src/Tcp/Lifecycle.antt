-- ===== src/Tcp/Lifecycle.antt =====
-- The states that a connection goes through: every call of src/ip_stack.c that changes the
-- connection, in any order and with any arguments, packets and clock.
pub mod States
pub mod Closing
use mathlib.Core.Path.{subst}
use eth_transfer.Base.{
  >>=-some-eq-some, some_inj, drop, sub32, ℕ, zero, suc, ◌+◌, ◌≡◌, ◌≢◌, refl, sym, ap, ◌∙◌, List,
  [], ◌∷◌, length, Option, none, some, Bool, true, false, ◌&&◌, ◌||◌, ◌==◌, if◌then◌else◌, arith,
  Bool-cases, Option-cases, not, ◌⊎◌, inl, inr,
}
use eth_transfer.Clock.{Timespec, Clock}
use eth_transfer.Base.{◌>>=◌}
use eth_transfer.Circle.{copy_from_circle_buffer, copy_to_circle_buffer}
use eth_transfer.Tcp.{
  TcpConnection, TcpState, listen, syn_received, syn_ack_sent, connected, rx_closed, tx_closed,
  both_closed, send_rst, data_to_read, is_in, state_code, tx_mask,
}
use eth_transfer.Tcp.Segments.{add_segment, insert_segment, assemble_loop}
use eth_transfer.Tcp.Receive.{
  admits, data_offset, data_length, TcpPacket, Endpoint, handle_tcp_packet, handle_segment,
  handle_syn, after_data, take_ack, take_window, take_fin, accept_connection,
}
use eth_transfer.Tcp.Send.{
  sent_of, after_syn, after_reset, after_fins, after_both, length_of, Surroundings, Sender, Sent,
  send_tcp_packet, transmit, decide_send, after_send, close_states, logical_not, is_syn, flags_of,
}
use eth_transfer.Tcp.Api.{Read, read_tcp, read_bytes, write_round, close_tcp, shutdown_tcp}

-- One call.
pub data Step (c c' : TcpConnection) : Type 0 where
  receive :
      (random1 random2 : ℕ) (rx : TcpPacket) (e e' : Endpoint)
      → e.conn ≡ c
      → e'.conn ≡ c'
      → handle_tcp_packet random1 random2 rx e ≡ some e'
      → Step c c'
  send :
      (w : Surroundings) (s : Sender) (r : Sent)
      → s.conn ≡ c
      → r.sender.conn ≡ c'
      → send_tcp_packet w s ≡ some r
      → Step c c'
  read :
      (connection_id : ℕ) (buffer : List ℕ) (off len : ℕ) (r : Read)
      → r.conn ≡ c'
      → read_tcp connection_id buffer off len c ≡ some r
      → Step c c'
  write : (bytes : List ℕ) (n : ℕ) → write_round bytes n c ≡ some c' → Step c c'
  shutdown : (connection_id : ℕ) → (shutdown_tcp connection_id c).1 ≡ c' → Step c c'
  close : (connection_id : ℕ) → close_tcp connection_id c ≡ c' → Step c c'

pub data Reach (c : TcpConnection) : TcpConnection → Type 0 where
  here : Reach c c
  next : {d e : TcpConnection} → Reach c d → Step d e → Reach c e

-- The states other than RX_CLOSED, TX_CLOSED and BOTH_CLOSED.
abbrev pub not_closing : TcpState → Bool
not_closing rx_closed = false
not_closing tx_closed = false
not_closing both_closed = false
not_closing _ = true
