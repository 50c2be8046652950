-- ===== src/Tests/Packets.antt =====
-- ARP, ping, polls and the packets that are read back: runs and witnesses.
use eth_transfer.Base.{
  ℕ, zero, suc, ◌+◌, ◌-◌, ◌*◌, ◌^◌, ◌≤◌, ◌<◌, ◌≡◌, refl, List, [], ◌∷◌, ◌++◌, length, slice, take,
  drop, replicate, length-replicate, arith, some, none, IsBytes, EachByte, EachByte-IsBytes, true,
  false, Bool, Option, if◌then◌else◌, u16, bit_and, ap,
}
use eth_transfer.Checksum.{ip_checksum}
use eth_transfer.Frame.{eth_bytes, ip_header_sent}
use eth_transfer.Ethernet.{EthPacket, be16_at}
use eth_transfer.Arp.{new_arp_packet, handle_arp_packet}
use eth_transfer.Arp.Reply.{asks_for, arp_reply, handle_arp_packet-reply}
use eth_transfer.Ip.{IpPacket}
use eth_transfer.Ping.{handle_ping_packet, ping_fields}
use eth_transfer.Ping.Echo.{IsEcho, handle_ping_packet-echo, handle_ping_packet-fault}
use eth_transfer.Stack.Poll.{ip_stack_poll, ip_stack_poll-counts}
use eth_transfer.Stack.Sent.{IsReadBack, packet_bytes-IsReadBack}
use eth_transfer.Tcp.{TcpConnection}
use eth_transfer.Tcp.Send.{Sender, packet_bytes, length_of}
use eth_transfer.Tests.Data.{open_conn, letters_sent, zeros}

IsBytes-append : (xs ys : List ℕ) → EachByte xs → IsBytes ys → IsBytes (xs ++ ys)
IsBytes-append [] ys h k i = k i
IsBytes-append (x ∷ xs) ys h k zero = h.0
IsBytes-append (x ∷ xs) ys h k (suc i) = IsBytes-append xs ys h.1 k i

IsBytes-replicate : (n : ℕ) → IsBytes (replicate n 0)
IsBytes-replicate zero i = omega arith
IsBytes-replicate (suc n) zero = omega arith
IsBytes-replicate (suc n) (suc i) = IsBytes-replicate n i

abbrev our_mac : List ℕ
our_mac = 2 ∷ 0 ∷ 0 ∷ 0 ∷ 0 ∷ 1 ∷ []

-- A broadcast request for 169.254.18.52 from 169.254.0.1.
abbrev request : EthPacket
request = record {
  buffer =
      255 ∷ 255 ∷ 255 ∷ 255 ∷ 255 ∷ 255 ∷ 1 ∷ 2 ∷ 3 ∷ 4 ∷ 5 ∷ 6 ∷ 8 ∷ 6 ∷ 0 ∷ 1 ∷ 8 ∷ 0 ∷ 6 ∷ 4 ∷ 0
      ∷ 1 ∷ 1 ∷ 2 ∷ 3 ∷ 4 ∷ 5 ∷ 6 ∷ 0xA9 ∷ 0xFE ∷ 0 ∷ 1 ∷ 0 ∷ 0 ∷ 0 ∷ 0 ∷ 0 ∷ 0 ∷ 0xA9 ∷ 0xFE ∷ 0x12
      ∷ 0x34 ∷ [];
  length = 42;
}

handle_arp_packet-reply_example :
    handle_arp_packet 0xA9FE1234 our_mac zeros (new_arp_packet request true)
    ≡ (if asks_for 0xA9FE1234 request then arp_reply 0xA9FE1234 our_mac request.buffer ∷ [] else [])
handle_arp_packet-reply_example =
    handle_arp_packet-reply 0xA9FE1234 our_mac zeros request
      (EachByte-IsBytes request.buffer (omega arith)) (omega arith) refl (omega arith) refl

request-asks : asks_for 0xA9FE1234 request ≡ true
request-asks = refl

-- An echo request with the payload 9, 10 in a buffer of 2048 bytes, of the given total length.
abbrev echo_head : ℕ → List ℕ
echo_head total_length =
    2 ∷ 0 ∷ 0 ∷ 0 ∷ 0 ∷ 1 ∷ 1 ∷ 2 ∷ 3 ∷ 4 ∷ 5 ∷ 6 ∷ 8 ∷ 0 ∷ 0x45 ∷ 0 ∷ 0 ∷ total_length ∷ 0 ∷ 7
    ∷ 0x40 ∷ 0 ∷ 128 ∷ 1 ∷ 0 ∷ 0 ∷ 0xA9 ∷ 0xFE ∷ 0 ∷ 1 ∷ 0xA9 ∷ 0xFE ∷ 0x12 ∷ 0x34 ∷ 8 ∷ 0 ∷ 0 ∷ 0
    ∷ 0 ∷ 3 ∷ 0 ∷ 1 ∷ 9 ∷ 10 ∷ []

abbrev echo_buffer : ℕ → List ℕ
echo_buffer total_length = echo_head total_length ++ replicate 2004 0

abbrev echo_request : ℕ → IpPacket
echo_request total_length = record {
  eth_packet = record { buffer = echo_buffer total_length; length = 44 };
  version_ihl = 0x45;
  total_length = total_length;
  protocol = 1;
  source_ip = 0xA9FE0001;
  dest_ip = 0xA9FE1234;
  transport = 34;
  length = total_length;
}

echo_request-IsEcho :
    (total_length : ℕ) → total_length < 2 ^ 16 → IsEcho (echo_request total_length)
echo_request-IsEcho total_length h = record {
  echo = refl;
  no_code = refl;
  after_header = refl;
  size = ap (λ (n : ℕ). 44 + n) (length-replicate {A = ℕ} 2004 0);
  low_header = omega arith;
  word = h;
}

abbrev stale_packet : List ℕ
stale_packet = replicate 2048 1

handle_ping_packet-echo_example :
    (ping : List ℕ) × (handle_ping_packet 0xA9FE1234 our_mac stale_packet 7 (echo_request 30)
      ≡ some (
        (eth_bytes (slice (echo_buffer 30) 6 6) our_mac (be16_at (echo_buffer 30) 12)
              ++ (ip_header_sent (ping_fields 0xA9FE1234 7 (echo_request 30)) ++ ping))
            ∷ [],
        u16 (7 + 1),
      ))
    × (take 2 ping ≡ 0 ∷ 0 ∷ [])
    × (ip_checksum ping (length ping) ≡ 0)
    × (drop 4 ping ≡ slice (echo_buffer 30) (34 + 4) (30 - (bit_and 0x45 0x0F * 4 + 4)))
handle_ping_packet-echo_example =
    handle_ping_packet-echo 0xA9FE1234 our_mac stale_packet 7 (echo_request 30)
      (echo_request-IsEcho 30 (omega arith))
      (IsBytes-append (echo_head 30) (replicate 2004 0) (omega arith) (IsBytes-replicate 2004)) refl
      (length-replicate {A = ℕ} 2048 1) (omega arith) (omega arith) (omega arith)

handle_ping_packet-fault_example :
    handle_ping_packet 0xA9FE1234 our_mac stale_packet 7 (echo_request 20) ≡ none
handle_ping_packet-fault_example =
    handle_ping_packet-fault 0xA9FE1234 our_mac stale_packet 7 (echo_request 20)
      (echo_request-IsEcho 20 (omega arith)) (length-replicate {A = ℕ} 2048 1) (omega arith)

-- Handlers that count their calls; packets are there at all times.
abbrev count_received : ℕ × ℕ → Option (Bool × (ℕ × ℕ))
count_received w = some (true, (w.0 + 1, w.1))

abbrev count_sent : ℕ × ℕ → Option (Bool × (ℕ × ℕ))
count_sent w = some (false, (w.0, w.1 + 1))

ip_stack_poll-counts_example :
    (r : Bool × (ℕ × ℕ)) × (ip_stack_poll count_received count_sent (0, 0) ≡ some r)
    × (0 + 1 ≤ r.1.0)
    × (r.1.0 ≤ 0 + 12)
    × (0 + 1 ≤ r.1.1)
    × (r.1.1 ≤ 0 + 12)
ip_stack_poll-counts_example =
    ip_stack_poll-counts count_received count_sent (λ w. w.0) (λ w. w.1)
      (λ w. ((true, (w.0 + 1, w.1)), refl, refl, refl))
      (λ w. ((false, (w.0, w.1 + 1)), refl, refl, refl)) (0, 0)

abbrev data_conn : TcpConnection
data_conn = record open_conn { tx_write = 4 }

abbrev data_sender : Sender
data_sender = record {
  clock = record { base_time = 0; base_time_set = true };
  ip_addr = 0xA9FE1234;
  mac_address = our_mac;
  identification_counter = 7;
  conn = data_conn;
}

packet_bytes-IsReadBack_example :
    IsReadBack data_sender data_conn letters_sent (packet_bytes data_sender data_conn letters_sent)
unfolding length_of
packet_bytes-IsReadBack_example =
    packet_bytes-IsReadBack data_sender data_conn letters_sent (record {
      remote_mac = refl;
      mac_address = refl;
      identification = omega arith;
      ip_addr = omega arith;
      remote_ip = omega arith;
      local_port = omega arith;
      remote_port = omega arith;
      taken = refl;
      short = omega arith;
    })
