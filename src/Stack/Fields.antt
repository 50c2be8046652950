-- ===== src/Stack/Fields.antt =====
-- The fields of a frame that the stack builds, as `new_ip_packet` and `ntoh_tcp` of src/ip_stack.c read
-- them.
use eth_transfer.Base.{
  ℕ, bit_and, ◌+◌, ◌^◌, ◌≤◌, ◌<◌, ◌≡◌, refl, ap, List, [], ◌∷◌, ◌++◌, length, get_or, drop, arith,
}
use eth_transfer.Frame.{
  IpFields, ip_bytes, ip_header_sent, TcpFields, tcp_bytes, tcp_sent, eth_bytes,
}
use eth_transfer.Ip.{IpPacket, new_ip_packet, is_valid_ip}
use eth_transfer.Tcp.Receive.{TcpPacket}
use eth_transfer.Wire.{ntoh_ip, ntoh_tcp, swap16, swap32, load16, load32, store16, store32}
use eth_transfer.Stack.Input.{read_tcp_packet}

-- The fields are the numbers of their C types.
abbrev pub IsIpFields : IpFields → Type 0
IsIpFields f =
    (f.total_length < 2 ^ 16)
    × (f.identification < 2 ^ 16)
    × (f.protocol < 256)
    × (f.source_ip < 2 ^ 32)
    × (f.dest_ip < 2 ^ 32)

abbrev pub frame : List ℕ → List ℕ → IpFields → List ℕ → List ℕ
frame dest source f rest = eth_bytes dest source 0x0800 ++ (ip_header_sent f ++ rest)

six : (xs : List ℕ) → length xs ≡ 6 → (a b c d e f : ℕ) × (xs ≡ a ∷ b ∷ c ∷ d ∷ e ∷ f ∷ [])
six [] h = absurd (omega arith)
six (a ∷ []) h = absurd (omega arith)
six (a ∷ b ∷ []) h = absurd (omega arith)
six (a ∷ b ∷ c ∷ []) h = absurd (omega arith)
six (a ∷ b ∷ c ∷ d ∷ []) h = absurd (omega arith)
six (a ∷ b ∷ c ∷ d ∷ e ∷ []) h = absurd (omega arith)
six (a ∷ b ∷ c ∷ d ∷ e ∷ f ∷ []) h = (a, b, c, d, e, f, refl)
six (a ∷ b ∷ c ∷ d ∷ e ∷ f ∷ g ∷ xs) h = absurd (omega arith)

-- The checksum field is not read: the fields are where they stand in `ip_bytes`.
frame-fields :
    (a b c d e g a' b' c' d' e' g' len : ℕ) (f : IpFields) (rest : List ℕ)
    → IsIpFields f
    → let p = new_ip_packet (record {
      buffer = frame (a ∷ b ∷ c ∷ d ∷ e ∷ g ∷ []) (a' ∷ b' ∷ c' ∷ d' ∷ e' ∷ g' ∷ []) f rest;
      length = len;
    }) in
      (p.version_ihl ≡ 0x45)
      × (p.transport ≡ 34)
      × (p.total_length ≡ f.total_length)
      × (p.protocol ≡ f.protocol)
      × (p.source_ip ≡ f.source_ip)
      × (p.dest_ip ≡ f.dest_ip)
unfolding new_ip_packet ip_header_sent ip_bytes
frame-fields a b c d e g a' b' c' d' e' g' len f rest h =
    (refl, refl, omega arith, refl, omega arith, omega arith)

abbrev pub IsTcpFields : TcpFields → Type 0
IsTcpFields t =
    (t.source_port < 2 ^ 16)
    × (t.dest_port < 2 ^ 16)
    × (t.sequence < 2 ^ 32)
    × (t.ack < 2 ^ 32)
    × (t.offset_flags < 2 ^ 16)
    × (t.window_size < 2 ^ 16)

-- The header that is read has the fields that were written, and its memory goes on with `more`.
abbrev pub HasFields : IpFields → TcpFields → List ℕ → TcpPacket → Type 0
HasFields f t more rx =
    (rx.version_ihl ≡ 0x45)
    × (rx.total_length ≡ f.total_length)
    × (rx.source_port ≡ t.source_port)
    × (rx.dest_port ≡ t.dest_port)
    × (rx.sequence ≡ t.sequence)
    × (rx.ack ≡ t.ack)
    × (rx.offset_flags ≡ t.offset_flags)
    × (rx.window_size ≡ t.window_size)
    × (drop 20 rx.memory ≡ more)

segment-fields :
    (a b c d e g a' b' c' d' e' g' len : ℕ) (f : IpFields) (t : TcpFields) (more : List ℕ)
    → f.total_length < 2 ^ 16
    → IsTcpFields t
    → HasFields f t more (
        read_tcp_packet (
          new_ip_packet (record {
            buffer =
                frame
                  (a ∷ b ∷ c ∷ d ∷ e ∷ g ∷ [])
                  (a' ∷ b' ∷ c' ∷ d' ∷ e' ∷ g' ∷ [])
                  f
                  (tcp_sent (ip_header_sent f) (tcp_bytes t ++ more));
            length = len;
          })))
unfolding new_ip_packet read_tcp_packet ip_header_sent ip_bytes tcp_sent tcp_bytes ntoh_ip ntoh_tcp
    swap16 swap32 load16 load32 store16 store32
segment-fields a b c d e g a' b' c' d' e' g' len f t more size h = (
  refl,
  omega arith,
  omega arith,
  omega arith,
  omega arith,
  omega arith,
  omega arith,
  omega arith,
  refl,
)

abbrev pub read_back : List ℕ → ℕ → IpPacket
read_back buffer len = new_ip_packet (record { buffer = buffer; length = len })

module _ (dest source : List ℕ) (dest_mac : length dest ≡ 6) (source_mac : length source ≡ 6)
    (f : IpFields) (len : ℕ) where
  pub ip_fields-read :
      (rest : List ℕ)
      → IsIpFields f
      → let p = read_back (frame dest source f rest) len in
        (p.version_ihl ≡ 0x45)
        × (p.transport ≡ 34)
        × (p.total_length ≡ f.total_length)
        × (p.protocol ≡ f.protocol)
        × (p.source_ip ≡ f.source_ip)
        × (p.dest_ip ≡ f.dest_ip)
  ip_fields-read rest h =
      let (a, b, c, d, e, g, same) = six dest dest_mac in
      let (a', b', c', d', e', g', same') = six source source_mac in
      rw same (rw same' (frame-fields a b c d e g a' b' c' d' e' g' len f rest h))

  pub tcp_fields-read :
      (t : TcpFields) (more : List ℕ)
      → f.total_length < 2 ^ 16
      → IsTcpFields t
      → HasFields f t more (
          read_tcp_packet (
            read_back
              (frame dest source f (tcp_sent (ip_header_sent f) (tcp_bytes t ++ more)))
              len))
  tcp_fields-read t more size h =
      let (a, b, c, d, e, g, same) = six dest dest_mac in
      let (a', b', c', d', e', g', same') = six source source_mac in
      rw same (rw same' (segment-fields a b c d e g a' b' c' d' e' g' len f t more size h))

pub new_ip_packet-valid :
    (buffer : List ℕ) (len : ℕ)
    → (read_back buffer len).version_ihl ≡ 0x45
    → 20 ≤ (read_back buffer len).total_length
    → 14 + (read_back buffer len).total_length ≤ len
    → (read_back buffer len).protocol ≡ 6
    → (read_back buffer len).length ≡ (read_back buffer len).total_length
unfolding new_ip_packet is_valid_ip
new_ip_packet-valid buffer len ihl low high tcp =
    let five : bit_and (get_or buffer 14 0) 0x0F ≡ 5 = ap (λ (n : ℕ). bit_and n 0x0F) ihl in
    ground arith
