-- ===== src/Ping.antt =====
-- `handle_ping_packet` of src/ip_stack.c. `none` is the `memcpy` of the payload out of range.
pub mod Echo
use eth_transfer.Base.{
  ℕ, ◌+◌, ◌*◌, List, [], ◌∷◌, ◌++◌, drop, take, slice, get_or, length, Option, none, some, Bool,
  not, ◌||◌, ◌==◌, memcpy, sub32, add32, u16, bit_and, if◌then◌else◌, ◌>>=◌,
}
use eth_transfer.Checksum.{ip_checksum}
use eth_transfer.Checksum.Verify.{store_checksum}
use eth_transfer.Frame.{IpFields, ip_header_sent, be16, eth_bytes}
use eth_transfer.Ethernet.{be16_at}
use eth_transfer.Ip.{IpPacket}

-- `payload_length`, an `int`
abbrev pub payload_length : IpPacket → ℕ
payload_length rx = sub32 (sub32 rx.total_length (bit_and rx.version_ihl 0x0F * 4)) 8

-- The ping header and the payload, with a zero checksum.
unfoldable pub ping_bytes : IpPacket → List ℕ → List ℕ
ping_bytes rx payload =
    let b = rx.eth_packet.buffer in
    0
    ∷ 0
    ∷ 0
    ∷ 0
    ∷ (be16 (be16_at b (rx.transport + 4)) ++ (be16 (be16_at b (rx.transport + 6)) ++ payload))

-- `ping_header->checksum = htons(ip_checksum(...))`, with the field at bytes 2 and 3.
unfoldable pub ping_sent : IpPacket → List ℕ → List ℕ
ping_sent rx payload =
    let ping = ping_bytes rx payload in
    store_checksum ping 1 (ip_checksum ping (add32 (payload_length rx) 8))

abbrev pub ping_fields : ℕ → ℕ → IpPacket → IpFields
ping_fields ip_addr identification rx = record {
  total_length = u16 (payload_length rx + 28);
  identification = identification;
  protocol = 1;
  source_ip = ip_addr;
  dest_ip = rx.source_ip;
}

unfoldable pub echo_reply : ℕ → List ℕ → ℕ → IpPacket → List ℕ → List ℕ
echo_reply ip_addr mac_address identification rx payload =
    let b = rx.eth_packet.buffer in
    let fields = ping_fields ip_addr identification rx in
    take (14 + fields.total_length) (
      eth_bytes (slice b 6 6) mac_address (be16_at b 12)
      ++ (ip_header_sent fields ++ ping_sent rx payload))

-- The packets that are sent, and `identification_counter`. The payload goes to offset 42 of a
-- packet in memory that holds `stale`.
unfoldable pub handle_ping_packet : ℕ → List ℕ → List ℕ → ℕ → IpPacket → Option (List (List ℕ) × ℕ)
handle_ping_packet ip_addr mac_address stale identification rx =
    let b = rx.eth_packet.buffer in
    let n = payload_length rx in
    let copied = memcpy (drop 42 stale) 0 b (rx.transport + 8) n in
    let answer = copied >>= (λ memory. some (
      echo_reply ip_addr mac_address identification rx (take n memory) ∷ [],
      u16 (identification + 1),
    )) in
    if not (get_or b rx.transport 0 == 8) || not (get_or b (rx.transport + 1) 0 == 0)
    then some ([], identification)
    else answer
