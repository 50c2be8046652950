-- ===== src/Stack/Sent.antt =====
-- What the stack sends, read back by the functions that it receives with.
use eth_transfer.Base.{
  drop-drop, ℕ, ◌-◌, bit_and, ◌∙◌, ◌+◌, ◌*◌, ◌/◌, ◌^◌, ◌≤◌, ◌<◌, ◌≡◌, refl, sym, ap, List, ◌++◌,
  length, length-append, bit_or-fields, Bool-cases, inl, inr, drop, arith,
}
use mathlib.Core.Path.{subst}
use eth_transfer.Frame.{be16, ip_header_sent, tcp_bytes, tcp_sent}
use eth_transfer.Frame.Verify.{ip_header_sent-length}
use eth_transfer.Ethernet.{take_whole}
use eth_transfer.Ip.{new_ip_packet}
use eth_transfer.Tcp.Receive.{data_length, data_offset}
use eth_transfer.Tcp.{TcpConnection}
use eth_transfer.Tcp.Send.{
  Sender, packet_bytes, ip_fields, tcp_fields, length_of, offset_of, flags_of, total_length_of,
  tcp_length_of, sequence_of, ack_of, window_of, syn_options, is_syn,
}
use eth_transfer.Stack.Fields.{
  IsIpFields, IsTcpFields, frame, read_back, ip_fields-read, tcp_fields-read, new_ip_packet-valid,
}
use eth_transfer.Stack.Input.{read_tcp_packet}

-- The values are of their C types, and the payload is what the packet takes.
pub record IsSendable (s : Sender) (c : TcpConnection) (payload : List ℕ) : Type 0 where
  pub remote_mac : length c.remote_mac ≡ 6
  pub mac_address : length s.mac_address ≡ 6
  pub identification : s.identification_counter < 2 ^ 16
  pub ip_addr : s.ip_addr < 2 ^ 32
  pub remote_ip : c.remote_ip < 2 ^ 32
  pub local_port : c.local_port < 2 ^ 16
  pub remote_port : c.remote_port < 2 ^ 16
  pub taken : length payload ≡ length_of c
  pub short : length_of c ≤ 1400

abbrev pub IsReadBack : Sender → TcpConnection → List ℕ → List ℕ → Type 0
IsReadBack s c payload bytes =
    let p = new_ip_packet (record { buffer = bytes; length = 14 + total_length_of c }) in
    let rx = read_tcp_packet p in
    (p.length ≡ total_length_of c)
    × (p.source_ip ≡ s.ip_addr)
    × (p.dest_ip ≡ c.remote_ip)
    × (rx.source_port ≡ c.local_port)
    × (rx.dest_port ≡ c.remote_port)
    × (rx.sequence ≡ sequence_of c)
    × (rx.ack ≡ ack_of c)
    × (rx.window_size ≡ window_of c)
    × (data_length rx ≡ length_of c)
    × (drop (data_offset rx) rx.memory ≡ payload)

flags_of-lt : (c : TcpConnection) → flags_of c < 2 ^ 12
unfolding flags_of
flags_of-lt c = ground arith

offset_flags-eq :
    (c : TcpConnection) → (tcp_fields c).offset_flags ≡ offset_of c / 4 * 2 ^ 12 + flags_of c
offset_flags-eq c = elim (Bool-cases (is_syn c)) [
  | inl syn ↦ rw syn (bit_or-fields 12 7 (flags_of c) (flags_of-lt c))
  | inr no_syn ↦ rw no_syn (bit_or-fields 12 5 (flags_of c) (flags_of-lt c))
]

module _ (s : Sender) (c : TcpConnection) (payload : List ℕ) (h : IsSendable s c payload) where
  abbrev more : List ℕ
  more = syn_options c ++ payload

  more-length : length more + 20 ≡ offset_of c + length_of c
  more-length = elim (Bool-cases (is_syn c)) [
    | inl syn ↦ rw syn (omega (arith, h.taken))
    | inr no_syn ↦ rw no_syn (omega (arith, h.taken))
  ]

  tcp_sent-length :
      (ip : List ℕ)
      → length (tcp_sent ip (tcp_bytes (tcp_fields c) ++ more)) ≡ offset_of c + length_of c
  unfolding tcp_sent tcp_bytes
  tcp_sent-length ip = omega (arith, more-length)

  offset-lt : offset_of c ≤ 28
  offset-lt = ground arith

  whole_length : length (tcp_bytes (tcp_fields c) ++ more) ≡ tcp_length_of c
  unfolding tcp_bytes
  whole_length = omega (arith, more-length, h.short, offset-lt)

  packet_bytes-frame :
      packet_bytes s c payload
      ≡ frame c.remote_mac s.mac_address
          (ip_fields s c)
          (tcp_sent (ip_header_sent (ip_fields s c)) (tcp_bytes (tcp_fields c) ++ more))
  unfolding packet_bytes
  packet_bytes-frame =
      let ip = ip_header_sent (ip_fields s c) in
      let tcp = tcp_sent ip (tcp_bytes (tcp_fields c) ++ more) in
      let type = be16 0x0800 in
      rw (take_whole (tcp_length_of c) (tcp_bytes (tcp_fields c) ++ more) whole_length) (
        take_whole (14 + total_length_of c) _ (
          omega (
            arith,
            h.remote_mac,
            h.mac_address,
            h.short,
            offset-lt,
            tcp_sent-length ip,
            length-append (c.remote_mac ++ (s.mac_address ++ type)) (ip ++ tcp),
            length-append c.remote_mac (s.mac_address ++ type),
            length-append s.mac_address type,
            length-append ip tcp,
            ip_header_sent-length (ip_fields s c),
          )))

  ip_range : IsIpFields (ip_fields s c)
  ip_range = (omega arith, h.identification, omega arith, h.ip_addr, h.remote_ip)

  tcp_range : IsTcpFields (tcp_fields c)
  tcp_range = (
    h.local_port,
    h.remote_port,
    omega arith,
    omega arith,
    omega (arith, offset_flags-eq c, flags_of-lt c, offset-lt),
    omega arith,
  )

  abbrev sent_frame : List ℕ
  sent_frame =
      frame c.remote_mac s.mac_address (ip_fields s c)
        (tcp_sent (ip_header_sent (ip_fields s c)) (tcp_bytes (tcp_fields c) ++ more))

  options-drop : drop (offset_of c - 20) more ≡ payload
  options-drop = elim (Bool-cases (is_syn c)) [
    | inl syn ↦ rw syn refl
    | inr no_syn ↦ rw no_syn refl
  ]

  offset-eq : (tcp_fields c).offset_flags / 2 ^ 12 * 4 ≡ offset_of c
  offset-eq = elim (Bool-cases (is_syn c)) [
    | inl syn ↦
        let k : offset_of c ≡ 28 = rw syn refl in omega (arith, offset_flags-eq c, flags_of-lt c)
    | inr no_syn ↦
        let k : offset_of c ≡ 20 = rw no_syn refl in omega (arith, offset_flags-eq c, flags_of-lt c)
  ]

  offset-ge : 20 ≤ offset_of c
  offset-ge = ground arith

  sent_frame-IsReadBack : IsReadBack s c payload sent_frame
  sent_frame-IsReadBack =
      let len = 14 + total_length_of c in
      let p = read_back sent_frame len in
      let rx = read_tcp_packet p in
      let (ihl, at, total, protocol, source_ip, dest_ip) =
        ip_fields-read c.remote_mac s.mac_address h.remote_mac h.mac_address (ip_fields s c) len
          (tcp_sent (ip_header_sent (ip_fields s c)) (tcp_bytes (tcp_fields c) ++ more)) ip_range in
      let (version, size, source_port, dest_port, sequence, ack, offset_flags, window, rest) =
        tcp_fields-read c.remote_mac s.mac_address h.remote_mac h.mac_address (ip_fields s c) len
          (tcp_fields c) more ip_range.0 tcp_range in
      let valid =
        new_ip_packet-valid sent_frame len ihl (omega (arith, offset-ge, offset-lt, h.short))
          (omega arith) protocol in
      let offset : data_offset rx ≡ offset_of c = omega (arith, offset-eq) in
      let low : bit_and rx.version_ihl 0x0F ≡ 5 = ap (λ (n : ℕ). bit_and n 0x0F) version in
      (
        valid ∙ total,
        source_ip,
        dest_ip,
        source_port,
        dest_port,
        sequence,
        ack,
        window,
        omega (arith, low, size, offset, offset-ge, offset-lt, h.short),
        ap (λ (k : ℕ). drop k rx.memory) {y = 20 + (offset_of c - 20)}
              (omega (arith, offset, offset-ge))
            ∙ drop-drop 20 (offset_of c - 20) rx.memory
            ∙ ap (λ (xs : List ℕ). drop (offset_of c - 20) xs) rest
            ∙ options-drop,
      )

-- A packet that `send_tcp_packet` builds is valid for `new_ip_packet`, and its addresses, ports,
-- sequence numbers and payload are read back from its bytes: the receiving half of the stack takes
-- the packets of the sending half apart.
pub packet_bytes-IsReadBack :
    (s : Sender) (c : TcpConnection) (payload : List ℕ)
    → IsSendable s c payload
    → IsReadBack s c payload (packet_bytes s c payload)
packet_bytes-IsReadBack s c payload h =
    subst (IsReadBack s c payload) (sym (packet_bytes-frame s c payload h))
      (sent_frame-IsReadBack s c payload h)
