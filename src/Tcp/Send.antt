-- ===== src/Tcp/Send.antt =====
-- `send_tcp_packet` of src/ip_stack.c. The packet goes to `send_packet` as the bytes that are
-- transmitted. `none` is a copy out of range.
pub mod Handshake
use eth_transfer.Base.{
  ℕ, ◌+◌, ◌*◌, ◌-◌, ◌%◌, ◌^◌, List, [], ◌∷◌, ◌++◌, Bool, true, false, not, ◌&&◌, ◌||◌, Option, none,
  some, ◌==◌, ltb, leb, take, drop, length, if◌then◌else◌, bit_and, bit_or, ◌<<<◌, ◌>>>◌, u16, u32,
  add32, sub32, slt, minus_one,
}
use eth_transfer.Ints.{negsuc, eqb_ℤ}
use eth_transfer.Clock.{Timespec, Clock, get_now, check_timeout, add_long}
use eth_transfer.Base.{◌>>=◌}
use eth_transfer.Circle.{copy_from_circle_buffer}
use eth_transfer.Frame.{IpFields, TcpFields, ip_header_sent, tcp_bytes, tcp_sent, be32, eth_bytes}
use eth_transfer.Tcp.{
  TcpConnection, TcpState, listen, syn_ack_sent, rx_closed, tx_closed, both_closed, send_rst,
  data_to_read, is_in, state_code, tcp_window, tx_mask, max_segment, tcp_ack, tcp_rst, tcp_syn,
  tcp_fin,
}

abbrev pub ack_timeout_ms : ℕ
ack_timeout_ms = 20

-- The globals that the function uses.
pub record Sender : Type 0 where
  pub clock : Clock
  pub ip_addr : ℕ
  pub mac_address : List ℕ
  pub identification_counter : ℕ
  pub conn : TcpConnection

-- What the calls of the C library give: the clock at the timeout test and after the packet is
-- sent, and the memory of the packet behind the headers before anything is stored there.
pub record Surroundings : Type 0 where
  pub at_test : Timespec
  pub at_end : Timespec
  pub stale : List ℕ

pub record Sent : Type 0 where
  pub result : ℕ
  pub sender : Sender
  pub packets : List (List ℕ)

abbrev pub wants_send : TcpConnection → Bool
wants_send c = ltb c.tx_sent c.tx_write || eqb_ℤ c.ack_timeout (negsuc 0) || is_in c.state send_rst

-- The first part: `send` and the state, gone back to the acknowledged position on a timeout. The
-- clock is read only where something is not acknowledged.
unfoldable pub decide_send : Timespec → Clock → TcpConnection → Bool × Clock × TcpConnection
decide_send t clock c =
    let (expired, clock') = check_timeout c.ack_timeout t clock in
    let waits = ltb c.tx_acked c.tx_sent in
    let timed_out = waits && expired && not (wants_send c) in
    (
      wants_send c || timed_out,
      if waits then clock' else clock,
      if timed_out
          then record c { tx_sent = c.tx_acked; tx_limit = add32 c.tx_acked c.remote_window }
          else c,
    )

abbrev pub is_syn : TcpConnection → Bool
is_syn c = c.tx_acked == 0

abbrev pub offset_of : TcpConnection → ℕ
offset_of c = if is_syn c then 28 else 20

-- `data_length`: the first comparison is unsigned, the second signed.
unfoldable pub length_of : TcpConnection → ℕ
length_of c =
    let wanted = if is_syn c then 0 else sub32 c.tx_write c.tx_sent in
    let room = sub32 c.tx_limit c.tx_sent in
    let allowed = if ltb room wanted then room else wanted in
    if slt max_segment allowed then max_segment else allowed

unfoldable pub flags_of : TcpConnection → ℕ
flags_of c =
    let syn = if is_syn c then bit_or tcp_ack tcp_syn else tcp_ack in
    let fin = if leb c.tx_fin c.tx_acked then bit_or syn tcp_fin else syn in
    if is_in c.state send_rst then bit_or fin tcp_rst else fin

abbrev pub total_length_of : TcpConnection → ℕ
total_length_of c = u16 (20 + offset_of c + length_of c)

-- `tcp_length`; below 20 for a negative `data_length`.
abbrev pub tcp_length_of : TcpConnection → ℕ
tcp_length_of c = add32 (offset_of c) (length_of c)

-- `tx_sent + local_sequence - (syn ? 1 : 0)`
abbrev pub sequence_of : TcpConnection → ℕ
sequence_of c = sub32 (add32 c.tx_sent c.local_sequence) (if is_syn c then 1 else 0)

abbrev pub ack_of : TcpConnection → ℕ
ack_of c = add32 c.rx_write c.remote_sequence

abbrev pub window_of : TcpConnection → ℕ
window_of c = u16 (sub32 (add32 c.rx_read tcp_window) c.rx_write)

abbrev pub tcp_fields : TcpConnection → TcpFields
tcp_fields c = record {
  source_port = c.local_port;
  dest_port = c.remote_port;
  sequence = sequence_of c;
  ack = ack_of c;
  offset_flags = bit_or (u16 (offset_of c >>> 2 <<< 12)) (flags_of c);
  window_size = window_of c;
}

abbrev pub ip_fields : Sender → TcpConnection → IpFields
ip_fields s c = record {
  total_length = total_length_of c;
  identification = s.identification_counter;
  protocol = 6;
  source_ip = s.ip_addr;
  dest_ip = c.remote_ip;
}

-- The two options of a SYN: the largest segment, and no window scaling.
abbrev pub syn_options : TcpConnection → List ℕ
syn_options c = if is_syn c then be32 (0x02040000 + max_segment) ++ be32 0x01030300 else []

unfoldable pub packet_bytes : Sender → TcpConnection → List ℕ → List ℕ
packet_bytes s c payload =
    let ip = ip_header_sent (ip_fields s c) in
    let tcp = take (tcp_length_of c) (tcp_bytes (tcp_fields c) ++ (syn_options c ++ payload)) in
    take (14 + total_length_of c)
      (eth_bytes c.remote_mac s.mac_address 0x0800 ++ (ip ++ tcp_sent ip tcp))

-- `!x` of C.
abbrev pub logical_not : ℕ → ℕ
logical_not n = if n == 0 then 1 else 0

-- The transitions to the closing states.
unfoldable pub close_states : ℕ → TcpConnection → TcpConnection
close_states flags c =
    let c1 =
      if leb c.rx_fin c.rx_write
      then record c { state = if is_in c.state tx_closed then both_closed else rx_closed }
      else c in
    if not (bit_and flags tcp_fin == 0)
    then record c1 { state = if is_in c1.state rx_closed then both_closed else tx_closed }
    else c1

-- The four tests on the state behind the packet, in their order. `!tcp_conn.state ==
-- TCP_DATA_TO_READ` negates the state first.
unfoldable pub after_syn : Bool → TcpConnection → TcpConnection
after_syn syn c = if syn then record c { state = syn_ack_sent } else c

unfoldable pub after_reset : TcpConnection → TcpConnection
after_reset c = if is_in c.state send_rst then record c { state = data_to_read } else c

unfoldable pub after_fins : ℕ → TcpConnection → TcpConnection
after_fins flags c =
    if logical_not (state_code c.state) == state_code data_to_read then close_states flags c else c

unfoldable pub after_both : TcpConnection → TcpConnection
after_both c =
    if is_in c.state both_closed then record c { state = send_rst; ack_timeout = negsuc 0 } else c

unfoldable pub after_send : Bool → ℕ → TcpConnection → TcpConnection
after_send syn flags c = after_both (after_fins flags (after_reset (after_syn syn c)))

-- What is left behind once the packet is built, with the payload in `memory`.
unfoldable pub sent_of : Surroundings → Sender → TcpConnection → List ℕ → Sent
sent_of w s c memory =
    let (now, clock) = get_now w.at_end s.clock in
    record {
      result = if slt 0 (length_of c) then 1 else 0;
      sender = record s {
        clock = clock;
        identification_counter = u16 (s.identification_counter + 1);
        conn = after_send (is_syn c) (flags_of c) (record c {
          rx_acked = c.rx_write;
          rx_window = window_of c;
          tx_sent = add32 c.tx_sent (length_of c);
          ack_timeout = add_long now ack_timeout_ms;
        });
      };
      packets = packet_bytes s c (take (length_of c) memory) ∷ [];
    }

-- The part under `if (send)`.
unfoldable pub transmit : Surroundings → Sender → TcpConnection → Option Sent
transmit w s c =
    copy_from_circle_buffer w.stale (length_of c) c.tx_buffer tx_mask c.tx_sent (length_of c)
    >>= (λ memory. some (sent_of w s c memory))

unfoldable pub send_tcp_packet : Surroundings → Sender → Option Sent
send_tcp_packet w s =
    let (send, clock, c) = decide_send w.at_test s.clock s.conn in
    let s' = record s { clock = clock; conn = c } in
    if is_in s.conn.state listen
    then some (record { result = 0; sender = s; packets = [] })
    else if send
    then transmit w s' c
    else some (record { result = 0; sender = s'; packets = [] })
