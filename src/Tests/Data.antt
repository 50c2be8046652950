-- ===== src/Tests/Data.antt =====
-- The inputs that the tests share.
use eth_transfer.Base.{
  ℕ, zero, suc, ◌+◌, ◌<◌, ◌≡◌, refl, List, [], ◌∷◌, ◌++◌, length, replicate, length-replicate,
  get_or, arith,
}
use eth_transfer.Ints.{pos}
use eth_transfer.Options.Formed.{TcpOption, nop, sized}
use eth_transfer.Tcp.{TcpConnection, listen, connected}
use eth_transfer.Tcp.Receive.{TcpPacket, Endpoint}
use eth_transfer.Tcp.Segments.Delivery.{Holds, Sends}

unfoldable pub zeros : List ℕ
zeros = replicate 8192 0

pub length-zeros : length zeros ≡ 8192
unfolding zeros
length-zeros = length-replicate {A = ℕ} 8192 0

-- Byte `p` of the stream is `64 + p`: A, B, C from position 1 on.
abbrev pub letters : ℕ → ℕ
letters p = 64 + p

abbrev pub letters_sent : List ℕ
letters_sent = 65 ∷ 66 ∷ 67 ∷ []

-- A connection behind the handshake, with nothing received.
abbrev pub open_conn : TcpConnection
open_conn = record {
  connection_id = 1;
  rx_buffer = zeros;
  tx_buffer = zeros;
  state = connected;
  local_port = 80;
  local_sequence = 5000;
  remote_mac = 1 ∷ 2 ∷ 3 ∷ 4 ∷ 5 ∷ 6 ∷ [];
  remote_port = 4000;
  remote_ip = 0xA9FE0001;
  remote_sequence = 1000;
  remote_window_scale = 0;
  remote_window = 4096;
  remote_max_segment = 1400;
  rx_write = 1;
  rx_read = 1;
  rx_acked = 1;
  rx_window = 4096;
  rx_fin = 0xFFFFFFFF;
  tx_write = 1;
  tx_sent = 1;
  tx_acked = 1;
  tx_limit = 4097;
  tx_fin = 0xFFFFFFFF;
  ack_timeout = pos 20;
  rx_segments = [];
}

pub open_conn-Holds : Holds letters open_conn
open_conn-Holds = record {
  no_wrap = omega arith;
  size = length-zeros;
  in_order = omega arith;
  window = omega arith;
  pending = λ p e. cc;
  received = λ p from to. absurd (omega arith);
  waiting = λ p from e. cc;
}

pub letters-Sends : Sends letters open_conn letters_sent 3 1
letters-Sends = record {
  fits = omega arith;
  short = omega arith;
  in_window = omega arith;
  content = at;
}
  where
    at : (i : ℕ) → i < 3 → get_or letters_sent i 0 ≡ letters (1 + i)
    at zero h = refl
    at (suc zero) h = refl
    at (suc (suc zero)) h = refl
    at (suc (suc (suc i))) h = absurd (omega arith)

abbrev pub syn_offer : List TcpOption
syn_offer = sized 2 (5 ∷ 0xB4 ∷ []) ∷ nop ∷ sized 3 (7 ∷ []) ∷ []

-- A SYN for port 80 with 28 bytes of header.
abbrev pub syn_packet : TcpPacket
syn_packet = record {
  eth_source = 1 ∷ 2 ∷ 3 ∷ 4 ∷ 5 ∷ 6 ∷ [];
  version_ihl = 0x45;
  total_length = 48;
  source_ip = 0xA9FE0001;
  dest_ip = 0xA9FE1234;
  source_port = 4000;
  dest_port = 80;
  sequence = 999;
  ack = 0;
  offset_flags = 0x7002;
  window_size = 4096;
  memory = replicate 20 0 ++ (2 ∷ 4 ∷ 5 ∷ 0xB4 ∷ 1 ∷ 3 ∷ 3 ∷ 7 ∷ []);
}

-- The same with an option of kind 5 and size 0 in front.
abbrev pub bad_syn_packet : TcpPacket
bad_syn_packet = record syn_packet {
  memory = replicate 20 0 ++ (5 ∷ 0 ∷ 0 ∷ 0 ∷ 0 ∷ 0 ∷ 0 ∷ 0 ∷ []);
}

-- The three letters in one segment, from position 1 on, with 20 bytes of header.
abbrev pub data_packet : TcpPacket
data_packet = record syn_packet {
  total_length = 43;
  sequence = 1001;
  ack = 5001;
  offset_flags = 0x5010;
  memory = replicate 20 0 ++ letters_sent;
}

abbrev pub listening : Endpoint
listening = record {
  ip_addr = 0xA9FE1234;
  connection_counter = 1;
  conn = record open_conn { state = listen };
}

-- The three letters are stored and not read yet.
abbrev pub filled_conn : TcpConnection
filled_conn = record open_conn {
  rx_buffer = 0 ∷ 65 ∷ 66 ∷ 67 ∷ replicate 8188 0;
  rx_write = 4;
  tx_fin = 1;
}
