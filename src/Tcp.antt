-- ===== src/Tcp.antt =====
-- The one TCP connection of src/ip_stack.c, with the types and constants of
-- src/ip_stack_local.h. Numbers are the bit patterns of their C types.
pub mod Segments
pub mod Receive
pub mod Send
pub mod Api
pub mod Lifecycle
pub mod Exchange
use eth_transfer.Base.{ℕ, List, Bool, ◌==◌}
use eth_transfer.Ints.{ℤ}

abbrev pub tcp_window : ℕ
tcp_window = 0x1000

abbrev pub rx_mask : ℕ
rx_mask = 0x1FFF

abbrev pub tx_mask : ℕ
tx_mask = rx_mask

abbrev pub buffer_size : ℕ
buffer_size = 0x1000

abbrev pub max_segment : ℕ
max_segment = 1400

abbrev pub seg_mask : ℕ
seg_mask = 0x1F

abbrev pub tcp_ack : ℕ
tcp_ack = 0x10

abbrev pub tcp_rst : ℕ
tcp_rst = 0x04

abbrev pub tcp_syn : ℕ
tcp_syn = 0x02

abbrev pub tcp_fin : ℕ
tcp_fin = 0x01

pub data TcpState : Type 0 where
  listen syn_received syn_ack_sent connected rx_closed tx_closed both_closed : TcpState
  send_rst data_to_read : TcpState

abbrev pub state_code : TcpState → ℕ
state_code listen = 0
state_code syn_received = 1
state_code syn_ack_sent = 2
state_code connected = 3
state_code rx_closed = 4
state_code tx_closed = 5
state_code both_closed = 6
state_code send_rst = 7
state_code data_to_read = 8

abbrev pub is_in : TcpState → TcpState → Bool
is_in a b = state_code a == state_code b

pub record TcpSegment : Type 0 where
  pub position : ℕ
  pub length : ℕ

-- `rx_segments` is the list of the first `segment_count` entries of the array; the code reads no
-- other entry. `ack_timeout` is a `long`, taken without a bound.
pub record TcpConnection : Type 0 where
  pub connection_id : ℕ
  pub rx_buffer : List ℕ
  pub tx_buffer : List ℕ
  pub state : TcpState
  pub local_port : ℕ
  pub local_sequence : ℕ
  pub remote_mac : List ℕ
  pub remote_port : ℕ
  pub remote_ip : ℕ
  pub remote_sequence : ℕ
  pub remote_window_scale : ℕ
  pub remote_window : ℕ
  pub remote_max_segment : ℕ
  pub rx_write : ℕ
  pub rx_read : ℕ
  pub rx_acked : ℕ
  pub rx_window : ℕ
  pub rx_fin : ℕ
  pub tx_write : ℕ
  pub tx_sent : ℕ
  pub tx_acked : ℕ
  pub tx_limit : ℕ
  pub tx_fin : ℕ
  pub ack_timeout : ℤ
  pub rx_segments : List TcpSegment
