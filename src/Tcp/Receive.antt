-- ===== src/Tcp/Receive.antt =====
-- `handle_tcp_packet` of src/ip_stack.c, behind `ntoh_tcp`: the fields are in host order. `none` is
-- a call that does not return or a copy out of range.
pub mod Stream
pub mod Opened
pub mod Syn
use eth_transfer.Base.{
  ℕ, ◌+◌, ◌*◌, ◌-◌, ◌%◌, ◌^◌, List, [], Bool, true, false, not, ◌&&◌, ◌||◌, Option, none, some,
  ◌==◌, ltb, drop, if◌then◌else◌, bit_and, bit_or, ◌<<<◌, ◌>>>◌, u32, add32, sub32, slt, minus_one,
}
use eth_transfer.Ints.{ℤ, negsuc}
use eth_transfer.Base.{◌>>=◌}
use eth_transfer.Options.{scan_options}
use eth_transfer.Tcp.{
  TcpConnection, TcpState, listen, syn_received, syn_ack_sent, connected, send_rst, is_in,
  tcp_window, max_segment, tcp_ack, tcp_rst, tcp_syn, tcp_fin,
}
use eth_transfer.Tcp.Segments.{add_segment}

-- What the function reads of the packet: the Ethernet, IP and TCP fields, and the memory from the
-- TCP header on.
pub record TcpPacket : Type 0 where
  pub eth_source : List ℕ
  pub version_ihl : ℕ
  pub total_length : ℕ
  pub source_ip : ℕ
  pub dest_ip : ℕ
  pub source_port : ℕ
  pub dest_port : ℕ
  pub sequence : ℕ
  pub ack : ℕ
  pub offset_flags : ℕ
  pub window_size : ℕ
  pub memory : List ℕ

-- The globals that the function uses.
pub record Endpoint : Type 0 where
  pub ip_addr : ℕ
  pub connection_counter : ℕ
  pub conn : TcpConnection

abbrev pub has_flag : TcpPacket → ℕ → Bool
has_flag rx flag = not (bit_and rx.offset_flags flag == 0)

-- `(offset_flags >> 12) * 4`
abbrev pub data_offset : TcpPacket → ℕ
data_offset rx = rx.offset_flags >>> 12 * 4

-- `total_length - 4 * ihl - data_offset`, an `int`
abbrev pub data_length : TcpPacket → ℕ
data_length rx = sub32 (sub32 rx.total_length (4 * bit_and rx.version_ihl 0x0F)) (data_offset rx)

-- The bytes from the TCP options on.
abbrev pub options : TcpPacket → List ℕ
options rx = drop 20 rx.memory

unfoldable pub connection_match : TcpPacket → Endpoint → Bool
connection_match rx e =
    (rx.source_port == e.conn.remote_port)
    && (rx.dest_port == e.conn.local_port)
    && (rx.source_ip == e.conn.remote_ip)
    && (rx.dest_ip == e.ip_addr)

-- At most 40 bytes of options: 64 rounds are enough for a search that returns at all.
abbrev pub option_rounds : ℕ
option_rounds = 64

-- A SYN on the listening stack; `random1` and `random2` are the two values of `rand()`.
unfoldable pub accept_connection : ℕ → ℕ → TcpPacket → Endpoint → ℕ → ℕ → Endpoint
accept_connection random1 random2 rx e segment scale =
    let remote_window = u32 (rx.window_size <<< scale) in
    record e {
      connection_counter = add32 e.connection_counter 1;
      conn = record (e.conn) {
        connection_id = e.connection_counter;
        state = syn_received;
        local_port = rx.dest_port;
        local_sequence = bit_or (u32 (random1 <<< 16)) (bit_and random2 0xFFFF);
        remote_mac = rx.eth_source;
        remote_port = rx.source_port;
        remote_ip = rx.source_ip;
        remote_sequence = rx.sequence;
        remote_window_scale = scale;
        remote_window = remote_window;
        remote_max_segment = segment;
        rx_write = 1;
        rx_read = 1;
        rx_fin = 0xFFFFFFFF;
        tx_write = 1;
        tx_sent = 1;
        tx_acked = 0;
        tx_limit = add32 1 remote_window;
        tx_fin = 0xFFFFFFFF;
        ack_timeout = negsuc 0;
        rx_segments = [];
      };
    }

-- The options of a SYN are checked, with the defaults for those that are absent.
unfoldable pub handle_syn : ℕ → ℕ → TcpPacket → Endpoint → Option Endpoint
handle_syn random1 random2 rx e = do
  found_segment ← scan_options option_rounds (options rx) (sub32 (data_offset rx) 20) 2
  found_scale ← scan_options option_rounds (options rx) (sub32 (data_offset rx) 20) 3
  let scale = if slt found_scale 0 then 0 else found_scale
  let segment =
      if slt found_segment 0 || slt max_segment found_segment then max_segment else found_segment
  if slt 14 scale || found_segment == 0
      then some e
      else some (accept_connection random1 random2 rx e segment scale)

-- `if (ack > tcp_conn.tx_acked)`: the comparison is unsigned. The second result is `acked`.
unfoldable pub take_ack : TcpPacket → TcpConnection → TcpConnection × Bool
take_ack rx c =
    let ack = sub32 rx.ack c.local_sequence in
    if ltb c.tx_acked ack
    then (
      record c {
        tx_acked = ack;
        ack_timeout = if ack == c.tx_fin then negsuc 0 else c.ack_timeout;
      },
      true,
    )
    else (c, false)

unfoldable pub take_window : TcpPacket → TcpConnection → TcpConnection
take_window rx c =
    let remote_window = u32 (rx.window_size <<< c.remote_window_scale) in
    let new_limit = add32 c.tx_acked remote_window in
    record c {
      remote_window = remote_window;
      tx_limit = if ltb c.tx_limit new_limit then new_limit else c.tx_limit;
    }

abbrev pub confirm : Bool → TcpConnection → TcpConnection
confirm acked c = if is_in c.state syn_ack_sent && acked then record c { state = connected } else c

unfoldable pub take_fin : TcpPacket → ℕ → TcpConnection → TcpConnection
take_fin rx base c =
    if has_flag rx tcp_fin
    then record c { rx_fin = add32 base (data_length rx); ack_timeout = negsuc 0 }
    else c

abbrev pub ask_for_ack : TcpPacket → TcpConnection → TcpConnection
ask_for_ack rx c = if slt 0 (data_length rx) then record c { ack_timeout = negsuc 0 } else c

-- The guards in front of `add_segment`; `true` lets the segment in.
unfoldable pub admits : TcpPacket → TcpConnection → Bool
admits rx c =
    not (slt (data_length rx) 0 || slt max_segment (data_length rx))
    && not (ltb (add32 c.rx_read tcp_window) (add32 c.rx_write (data_length rx)))
    && not (has_flag rx tcp_syn)
    && has_flag rx tcp_ack

-- What follows `add_segment`, whose result is not used.
unfoldable pub after_data : TcpPacket → ℕ → TcpConnection → TcpConnection
after_data rx base c =
    let (c', acked) = take_ack rx c in
    ask_for_ack rx (take_fin rx base (confirm acked (take_window rx c')))

-- A segment on an open connection.
unfoldable pub handle_segment : TcpPacket → TcpConnection → Option TcpConnection
handle_segment rx c =
    let base = sub32 rx.sequence c.remote_sequence in
    let taken = add_segment (drop (data_offset rx) rx.memory) (data_length rx) base c in
    if admits rx c then taken >>= (λ r. some (after_data rx base r.1)) else some c

unfoldable pub handle_tcp_packet : ℕ → ℕ → TcpPacket → Endpoint → Option Endpoint
handle_tcp_packet random1 random2 rx e =
    if not (rx.dest_port == 80)
    then some e
    else if not (is_in e.conn.state listen) && not (connection_match rx e)
    then some e
    else if has_flag rx tcp_rst
    then some (
        if is_in e.conn.state listen
        then e
        else record e { conn = record (e.conn) { state = send_rst; ack_timeout = negsuc 0 } })
    else if is_in e.conn.state listen
    then (if has_flag rx tcp_syn && not (has_flag rx tcp_ack)
        then handle_syn random1 random2 rx e
        else some e)
    else handle_segment rx e.conn >>= (λ c. some (record e { conn = c }))
