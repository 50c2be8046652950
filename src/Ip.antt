-- ===== src/Ip.antt =====
-- `new_ip_packet` of src/ip_stack.c on a received packet. The header is in host order, as behind
-- `ntoh_ip`.
use eth_transfer.Base.{
  ℕ, ◌+◌, ◌*◌, get_or, Bool, ◌&&◌, ◌||◌, ◌==◌, leb, minus_one, bit_and, if◌then◌else◌,
}
use eth_transfer.Ethernet.{EthPacket, be16_at, be32_at}

-- `ip_packet`, with the fields of `ip_header` that the code reads; `ping_header` and `tcp_header`
-- point to `transport`.
pub record IpPacket : Type 0 where
  pub eth_packet : EthPacket
  pub version_ihl : ℕ
  pub total_length : ℕ
  pub protocol : ℕ
  pub source_ip : ℕ
  pub dest_ip : ℕ
  pub transport : ℕ
  pub length : ℕ

-- `valid` of `new_ip_packet`. The comparisons with the length of the packet are unsigned, since
-- `sizeof` is.
unfoldable pub is_valid_ip : EthPacket → Bool
is_valid_ip eth =
    let b = eth.buffer in
    leb 20 (be16_at b 16)
    && leb (14 + be16_at b 16) eth.length
    && leb (14 + bit_and (get_or b 14 0) 0x0F * 4) eth.length
    && (get_or b 23 0 == 6 || get_or b 23 0 == 1)

unfoldable pub new_ip_packet : EthPacket → IpPacket
new_ip_packet eth =
    let b = eth.buffer in
    record {
      eth_packet = eth;
      version_ihl = get_or b 14 0;
      total_length = be16_at b 16;
      protocol = get_or b 23 0;
      source_ip = be32_at b 26;
      dest_ip = be32_at b 30;
      transport = 14 + bit_and (get_or b 14 0) 0x0F * 4;
      length = if is_valid_ip eth then be16_at b 16 else minus_one;
    }
