-- ===== src/Tcp/Receive/Opened.antt =====
-- The connection that a SYN opens, field by field.
use eth_transfer.Base.{
  ℕ, ◌+◌, ◌*◌, ◌%◌, ◌^◌, ◌≡◌, refl, ap₂, ◌∙◌, [], Bool, true, false, Option, some, bit_or, bit_and,
  bit_or-fields, bit_and-mask, u32, ◌<<<◌, if◌then◌else◌, arith,
}
use eth_transfer.Ints.{negsuc}
use eth_transfer.Tcp.{syn_received}
use eth_transfer.Tcp.Receive.{TcpPacket, Endpoint, accept_connection}

-- The connection of a SYN, with the segment size and the window scale that are agreed on.
pub record IsOpened (random1 random2 : ℕ) (rx : TcpPacket) (e : Endpoint) (segment scale : ℕ)
    (d : Endpoint) : Type 0 where
  pub state : d.conn.state ≡ syn_received
  pub max_segment_size : d.conn.remote_max_segment ≡ segment
  pub window_scale : d.conn.remote_window_scale ≡ scale
  pub window : d.conn.remote_window ≡ rx.window_size * 2 ^ scale % 2 ^ 32
  pub limit : d.conn.tx_limit ≡ (1 + rx.window_size * 2 ^ scale % 2 ^ 32) % 2 ^ 32
  pub number : d.conn.connection_id ≡ e.connection_counter
  pub next_number : d.connection_counter ≡ (e.connection_counter + 1) % 2 ^ 32
  pub peer :
      (d.conn.remote_mac ≡ rx.eth_source)
      × (d.conn.remote_ip ≡ rx.source_ip)
      × (d.conn.remote_port ≡ rx.source_port)
      × (d.conn.remote_sequence ≡ rx.sequence)
  pub local : d.conn.local_port ≡ 80
  pub own_sequence : d.conn.local_sequence ≡ random1 % 2 ^ 16 * 2 ^ 16 + random2 % 2 ^ 16
  pub nothing_read : (d.conn.rx_write ≡ 1) × (d.conn.rx_read ≡ 1) × (d.conn.rx_segments ≡ [])
  pub nothing_sent : (d.conn.tx_write ≡ 1) × (d.conn.tx_sent ≡ 1) × (d.conn.tx_acked ≡ 0)
  pub no_end : (d.conn.rx_fin ≡ 0xFFFFFFFF) × (d.conn.tx_fin ≡ 0xFFFFFFFF)
  pub answer_now : d.conn.ack_timeout ≡ negsuc 0

own_sequence-eq :
    (random1 random2 : ℕ)
    → bit_or (u32 (random1 <<< 16)) (bit_and random2 0xFFFF)
      ≡ random1 % 2 ^ 16 * 2 ^ 16 + random2 % 2 ^ 16
own_sequence-eq random1 random2 =
    ap₂ bit_or {y = (random1 % 2 ^ 16) <<< 16} (omega arith) (bit_and-mask 16 random2)
    ∙ bit_or-fields 16 (random1 % 2 ^ 16) (random2 % 2 ^ 16) (omega arith)

pub accept_connection-IsOpened :
    (random1 random2 : ℕ) (rx : TcpPacket) (e : Endpoint) (segment scale : ℕ)
    → rx.dest_port ≡ 80
    → IsOpened random1 random2 rx e segment scale
        (accept_connection random1 random2 rx e segment scale)
unfolding accept_connection
accept_connection-IsOpened random1 random2 rx e segment scale to_server = record {
  state = refl;
  max_segment_size = refl;
  window_scale = refl;
  window = refl;
  limit = refl;
  number = refl;
  next_number = refl;
  peer = (refl, refl, refl, refl);
  local = to_server;
  own_sequence = own_sequence-eq random1 random2;
  nothing_read = (refl, refl, refl);
  nothing_sent = (refl, refl, refl);
  no_end = (refl, refl);
  answer_now = refl;
}

-- What a SYN leads to, by the test of its options.
abbrev pub SynResult : ℕ → ℕ → Bool → TcpPacket → Endpoint → ℕ → ℕ → Option Endpoint → Type 0
SynResult random1 random2 true rx e segment scale r = r ≡ some e
SynResult random1 random2 false rx e segment scale r =
    (d : Endpoint) × (r ≡ some d) × IsOpened random1 random2 rx e segment scale d

pub SynResult-if :
    (random1 random2 : ℕ) (refused : Bool) (rx : TcpPacket) (e : Endpoint) (segment scale : ℕ)
    (d : Endpoint)
    → IsOpened random1 random2 rx e segment scale d
    → SynResult random1 random2 refused rx e segment scale (if refused then some e else some d)
SynResult-if random1 random2 true rx e segment scale d h = refl
SynResult-if random1 random2 false rx e segment scale d h = (d, refl, h)
