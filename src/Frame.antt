-- ===== src/Frame.antt =====
-- The packets that src/ip_stack.c builds, as the bytes that reach `send_packet`: the header fields
-- of `new_ip_packet`, the `hton` functions and the checksums. Each field that is stored with
-- `htons` or `htonl` on the little-endian host is its big-endian bytes.
pub mod Verify
use eth_transfer.Base.{
  ℕ, ◌+◌, ◌/◌, ◌%◌, ◌^◌, List, [], ◌∷◌, ◌++◌, length, slice, u8, u16, u32, ◌>>>◌,
}
use eth_transfer.Checksum.{ip_checksum_init, ip_checksum_add, ip_checksum_final, ip_checksum}
use eth_transfer.Checksum.Verify.{store_checksum}

abbrev pub be16 : ℕ → List ℕ
be16 n = (n / 2 ^ 8 % 2 ^ 8) ∷ (n % 2 ^ 8) ∷ []

abbrev pub be32 : ℕ → List ℕ
be32 n = be16 (n / 2 ^ 16) ++ be16 (n % 2 ^ 16)

-- `eth_header`, behind the `hton_eth` of `send_packet`.
abbrev pub eth_bytes : List ℕ → List ℕ → ℕ → List ℕ
eth_bytes dest source ether_type = dest ++ (source ++ be16 ether_type)

-- The fields of `ip_header` that vary; `new_ip_packet` sets the rest.
pub record IpFields : Type 0 where
  pub total_length : ℕ
  pub identification : ℕ
  pub protocol : ℕ
  pub source_ip : ℕ
  pub dest_ip : ℕ

-- The header with a zero checksum, behind `hton_ip`.
unfoldable pub ip_bytes : IpFields → List ℕ
ip_bytes f =
    0x45
    ∷ 0
    ∷ (be16 f.total_length
        ++ (be16 f.identification
            ++ (be16 0x4000 ++ (128 ∷ f.protocol ∷ 0 ∷ 0 ∷ (be32 f.source_ip ++ be32 f.dest_ip)))))

-- `checksum = htons(ip_checksum(header, 20))`, with the field at bytes 10 and 11.
unfoldable pub ip_header_sent : IpFields → List ℕ
ip_header_sent f = store_checksum (ip_bytes f) 5 (ip_checksum (ip_bytes f) 20)

pub record TcpFields : Type 0 where
  pub source_port : ℕ
  pub dest_port : ℕ
  pub sequence : ℕ
  pub ack : ℕ
  pub offset_flags : ℕ
  pub window_size : ℕ

-- `tcp_header` with a zero checksum and urgent pointer, behind `hton_tcp`.
unfoldable pub tcp_bytes : TcpFields → List ℕ
tcp_bytes f =
    be16 f.source_port
    ++ (be16 f.dest_port
        ++ (be32 f.sequence
            ++ (be32 f.ack
                ++ (be16 f.offset_flags ++ (be16 f.window_size ++ (0 ∷ 0 ∷ 0 ∷ 0 ∷ []))))))

-- `temp_encode`, the end of the pseudo header.
abbrev pub temp_encode : ℕ → List ℕ
temp_encode tcp_length = 0 ∷ 6 ∷ u8 (tcp_length >>> 8) ∷ u8 tcp_length ∷ []

-- The checksum over the addresses in the IP header, `temp_encode` and the TCP header and data, whose
-- length is `data_offset + data_length`.
unfoldable pub tcp_checksum : List ℕ → List ℕ → ℕ
tcp_checksum ip tcp =
    let addresses = ip_checksum_add ip_checksum_init (slice ip 12 8) 8 in
    let pseudo = ip_checksum_add addresses (temp_encode (length tcp)) 4 in
    u16 (ip_checksum_final (ip_checksum_add pseudo tcp (length tcp)))

-- `checksum = htons(ip_checksum_final(tcp_checksum))`, with the field at bytes 16 and 17.
unfoldable pub tcp_sent : List ℕ → List ℕ → List ℕ
tcp_sent ip tcp = store_checksum tcp 8 (tcp_checksum ip tcp)
