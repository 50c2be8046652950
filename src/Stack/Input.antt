-- ===== src/Stack/Input.antt =====
-- `handle_ip_packet` and `handle_rx_packet` of src/ip_stack.c: one received packet and the handlers
-- it goes to. `none` is a call that does not return or a copy out of range.
use eth_transfer.Base.{
  ℕ, ◌+◌, List, [], drop, get_or, slice, Bool, true, false, Option, some, ◌==◌, slt, if◌then◌else◌,
  ◌>>=◌,
}
use eth_transfer.Stack.{IpStack}
use eth_transfer.Ethernet.{EthPacket}
use eth_transfer.Wire.{load16, load32, ntoh_ip, ntoh_tcp}
use eth_transfer.Arp.{new_arp_packet, handle_arp_packet}
use eth_transfer.Ip.{IpPacket, new_ip_packet}
use eth_transfer.Ping.{handle_ping_packet}
use eth_transfer.Tcp.Receive.{TcpPacket, Endpoint, handle_tcp_packet}

-- What `get_packet` returns: nothing, or a packet of one of its types.
pub data Received : Type 0 where
  nothing : Received
  arp ip unknown : EthPacket → Received

-- What the calls of the C library give: two values of `rand()`, and the memory of the packet that
-- is built.
pub record Chance : Type 0 where
  pub random1 : ℕ
  pub random2 : ℕ
  pub stale : List ℕ

-- The result of `handle_rx_packet`, the globals behind it and the packets that were sent.
pub record Handled : Type 0 where
  pub found : Bool
  pub stack : IpStack
  pub packets : List (List ℕ)

-- The packet behind `ntoh_tcp`, read in the memory that it and `ntoh_ip` have changed in place: with
-- an IP header below 20 bytes the two headers overlap.
unfoldable pub read_tcp_packet : IpPacket → TcpPacket
read_tcp_packet rx =
    let b = ntoh_tcp (ntoh_ip rx.eth_packet.buffer 14) rx.transport in
    record {
      eth_source = slice b 6 6;
      version_ihl = get_or b 14 0;
      total_length = load16 b 16;
      source_ip = load32 b 26;
      dest_ip = load32 b 30;
      source_port = load16 b rx.transport;
      dest_port = load16 b (rx.transport + 2);
      sequence = load32 b (rx.transport + 4);
      ack = load32 b (rx.transport + 8);
      offset_flags = load16 b (rx.transport + 12);
      window_size = load16 b (rx.transport + 14);
      memory = drop rx.transport b;
    }

abbrev pub endpoint : IpStack → Endpoint
endpoint s = record {
  ip_addr = s.ip_addr;
  connection_counter = s.connection_counter;
  conn = s.tcp_conn;
}

unfoldable pub handle_ip_packet : Chance → IpPacket → IpStack → Option Handled
handle_ip_packet k rx s =
    let pinged =
      handle_ping_packet s.ip_addr s.mac_address k.stale s.identification_counter rx >>= (λ r.
        some (record {
          found = true;
          stack = record s { identification_counter = r.1 };
          packets = r.0;
        })) in
    let taken = handle_tcp_packet k.random1 k.random2 (read_tcp_packet rx) (endpoint s) >>= (λ e.
      some (record {
        found = true;
        stack = record s { connection_counter = e.connection_counter; tcp_conn = e.conn };
        packets = [];
      })) in
    let kept = some (record { found = true; stack = s; packets = [] }) in
    if slt rx.length 0
    then kept
    else if rx.protocol == 1
    then pinged
    else if rx.protocol == 6
    then taken
    else kept

unfoldable pub handle_rx_packet : Chance → Received → IpStack → Option Handled
handle_rx_packet k nothing s = some (record { found = false; stack = s; packets = [] })
handle_rx_packet k (arp eth) s = some (record {
  found = true;
  stack = s;
  packets = handle_arp_packet s.ip_addr s.mac_address k.stale (new_arp_packet eth true);
})
handle_rx_packet k (ip eth) s = handle_ip_packet k (new_ip_packet eth) s
handle_rx_packet k (unknown eth) s = some (record { found = true; stack = s; packets = [] })
