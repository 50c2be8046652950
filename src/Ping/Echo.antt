-- ===== src/Ping/Echo.antt =====
-- The answer to a ping: what is echoed, and when the copy of the payload leaves its buffer.
use eth_transfer.Base.{
  ℕ, zero, suc, ◌+◌, ◌-◌, ◌*◌, ◌≤◌, ◌<◌, ◌^◌, ◌≡◌, refl, ap, ap₂, ◌∙◌, List, [], ◌∷◌, ◌++◌, drop,
  take, slice, splice, get_or, length, length-append, length-slice, length-drop, IsBytes,
  IsBytes-slice, none, some, memcpy, memcpy-eq-some, memcpy-eq-none, u16, bit_and, arith,
}
use eth_transfer.Checksum.{ip_checksum}
use eth_transfer.Checksum.Verify.{store_checksum, ip_checksum-store_checksum}
use eth_transfer.Frame.{be16, eth_bytes, ip_header_sent}
use eth_transfer.Frame.Verify.{ip_header_sent-length}
use eth_transfer.Ethernet.{be16_at, be16-be16_at, take-append, take_whole, slice-append}
use eth_transfer.Ip.{IpPacket}
use eth_transfer.Ping.{
  payload_length, ping_fields, ping_bytes, ping_sent, echo_reply, handle_ping_packet,
}

-- An echo request in a buffer of a packet.
pub record IsEcho (rx : IpPacket) : Type 0 where
  pub echo : get_or rx.eth_packet.buffer rx.transport 0 ≡ 8
  pub no_code : get_or rx.eth_packet.buffer (rx.transport + 1) 0 ≡ 0
  pub after_header : rx.transport ≡ 14 + bit_and rx.version_ihl 0x0F * 4
  pub size : length rx.eth_packet.buffer ≡ 2048
  pub low_header : bit_and rx.version_ihl 0x0F < 16
  pub word : rx.total_length < 2 ^ 16

abbrev header_end : IpPacket → ℕ
header_end rx = bit_and rx.version_ihl 0x0F * 4 + 8

IsBytes-zeros : (xs : List ℕ) → IsBytes xs → IsBytes (0 ∷ 0 ∷ 0 ∷ 0 ∷ xs)
IsBytes-zeros xs h zero = omega arith
IsBytes-zeros xs h (suc zero) = omega arith
IsBytes-zeros xs h (suc (suc zero)) = omega arith
IsBytes-zeros xs h (suc (suc (suc zero))) = omega arith
IsBytes-zeros xs h (suc (suc (suc (suc i)))) = h i

-- An echo request whose total length ends inside the ping header makes the length of the payload
-- negative, and the copy leaves the buffers.
pub handle_ping_packet-fault :
    (ip_addr : ℕ) (mac_address stale : List ℕ) (identification : ℕ) (rx : IpPacket)
    → IsEcho rx
    → length stale ≡ 2048
    → rx.total_length < bit_and rx.version_ihl 0x0F * 4 + 8
    → handle_ping_packet ip_addr mac_address stale identification rx ≡ none
unfolding handle_ping_packet
handle_ping_packet-fault ip_addr mac_address stale identification rx h room short =
    let b = rx.eth_packet.buffer in
    let fault =
      memcpy-eq-none (drop 42 stale) 0 b (rx.transport + 8) (payload_length rx)
        (omega (arith, length-drop 42 stale, h.low_header, h.word)) in
    ground (arith, fault, h.echo, h.no_code)

module _ (ip_addr : ℕ) (mac_address stale : List ℕ) (identification : ℕ) (rx : IpPacket)
    (h : IsEcho rx) (room : length stale ≡ 2048) (header : 5 ≤ bit_and rx.version_ihl 0x0F)
    (long : bit_and rx.version_ihl 0x0F * 4 + 8 ≤ rx.total_length)
    (inside : rx.total_length ≤ 2034) where
  abbrev n : ℕ
  n = rx.total_length - (bit_and rx.version_ihl 0x0F * 4 + 8)

  length-eq : payload_length rx ≡ n
  length-eq = omega (arith, h.low_header)

  abbrev payload : List ℕ
  payload = slice rx.eth_packet.buffer (rx.transport + 8) n

  fits : rx.transport + 8 + n ≤ length rx.eth_packet.buffer
  fits = omega (arith, h.after_header, h.size)

  has_room : 0 + n ≤ length (drop 42 stale)
  has_room = omega (arith, length-drop 42 stale, h.low_header)

  copied :
      memcpy (drop 42 stale) 0 rx.eth_packet.buffer (rx.transport + 8) n
      ≡ some (splice (drop 42 stale) 0 rx.eth_packet.buffer (rx.transport + 8) n)
  copied = memcpy-eq-some (drop 42 stale) 0 rx.eth_packet.buffer (rx.transport + 8) n has_room fits

  payload-eq : take n (splice (drop 42 stale) 0 rx.eth_packet.buffer (rx.transport + 8) n) ≡ payload
  payload-eq =
      take-append n payload (drop (0 + n) (drop 42 stale))
        (length-slice rx.eth_packet.buffer (rx.transport + 8) n fits)

  handle_ping_packet-answer :
      handle_ping_packet ip_addr mac_address stale identification rx
      ≡ some
          (echo_reply ip_addr mac_address identification rx payload ∷ [], u16 (identification + 1))
  unfolding handle_ping_packet
  handle_ping_packet-answer =
      rw length-eq (rw copied (rw payload-eq (ground (arith, h.echo, h.no_code))))

  module _ (bytes : IsBytes rx.eth_packet.buffer) where
    abbrev body : List ℕ
    body = slice rx.eth_packet.buffer (rx.transport + 4) (n + 4)

    touching :
        (i k l : ℕ)
        → k ≡ rx.transport + i
        → k + l ≤ 2048
        → length (slice rx.eth_packet.buffer k l) ≡ l
    touching i k l e small = length-slice rx.eth_packet.buffer k l (omega (arith, h.size))

    body-eq : ping_bytes rx payload ≡ 0 ∷ 0 ∷ 0 ∷ 0 ∷ body
    unfolding ping_bytes
    body-eq =
        let b = rx.eth_packet.buffer in
        let t = rx.transport in
        ap (λ (zs : List ℕ). 0 ∷ 0 ∷ 0 ∷ 0 ∷ zs)
          (ap₂ (λ (xs ys : List ℕ). xs ++ ys) (be16-be16_at b (t + 4) bytes (omega (arith, fits)))
              (ap₂ (λ (xs ys : List ℕ). xs ++ ys)
                  (be16-be16_at b (t + 6) bytes (omega (arith, fits)))
                  (ap (λ (k : ℕ). slice b k n) (omega arith))
                ∙ slice-append b (t + 6) 2 n (omega (arith, fits))
                ∙ ap (λ (k : ℕ). slice b k (2 + n)) {y = t + 4 + 2} (omega arith))
            ∙ slice-append b (t + 4) 2 (2 + n) (omega (arith, fits))
            ∙ ap (slice b (t + 4)) (omega arith))

    ping_bytes-length : length (ping_bytes rx payload) ≡ n + 8
    ping_bytes-length = omega (
      arith,
      ap (λ (xs : List ℕ). length xs) body-eq,
      length-slice rx.eth_packet.buffer (rx.transport + 4) (n + 4) (omega (arith, fits)),
    )

    ping_bytes-IsBytes : IsBytes (ping_bytes rx payload)
    ping_bytes-IsBytes =
        rw body-eq
          (IsBytes-zeros body (IsBytes-slice rx.eth_packet.buffer (rx.transport + 4) (n + 4) bytes))

    ping_sent-eq :
        ping_sent rx payload
        ≡ store_checksum
            (0 ∷ 0 ∷ 0 ∷ 0 ∷ body)
            1
            (ip_checksum (0 ∷ 0 ∷ 0 ∷ 0 ∷ body) (length (0 ∷ 0 ∷ 0 ∷ 0 ∷ body)))
    unfolding ping_sent
    ping_sent-eq =
        ap₂ (λ (xs : List ℕ) (k : ℕ). store_checksum xs 1 (ip_checksum xs k)) body-eq
          (omega (arith, length-eq, ping_bytes-length, ap (λ (xs : List ℕ). length xs) body-eq))

    ping_sent-length : length (ping_sent rx payload) ≡ n + 8
    ping_sent-length =
        ap (λ (xs : List ℕ). length xs) ping_sent-eq
        ∙ omega (
          arith,
          length-slice rx.eth_packet.buffer (rx.transport + 4) (n + 4) (omega (arith, fits)),
        )

    ping_sent-checks : ip_checksum (ping_sent rx payload) (length (ping_sent rx payload)) ≡ 0
    ping_sent-checks =
        ap (λ (xs : List ℕ). ip_checksum xs (length xs)) ping_sent-eq
        ∙ ip_checksum-store_checksum (0 ∷ 0 ∷ 0 ∷ 0 ∷ body) 1
            (IsBytes-zeros body
              (IsBytes-slice rx.eth_packet.buffer (rx.transport + 4) (n + 4) bytes))
            (omega (
              arith,
              length-slice rx.eth_packet.buffer (rx.transport + 4) (n + 4) (omega (arith, fits)),
            ))
            (omega arith) refl refl

    echo_reply-frame :
        length mac_address ≡ 6
        → echo_reply ip_addr mac_address identification rx payload
          ≡ eth_bytes (slice rx.eth_packet.buffer 6 6) mac_address (be16_at rx.eth_packet.buffer 12)
            ++ (ip_header_sent (ping_fields ip_addr identification rx) ++ ping_sent rx payload)
    unfolding echo_reply
    echo_reply-frame mac =
        let b = rx.eth_packet.buffer in
        let ip = ip_header_sent (ping_fields ip_addr identification rx) in
        let source = slice b 6 6 in
        let type = be16 (be16_at b 12) in
        take_whole (14 + u16 (payload_length rx + 28)) _ (
          omega (
            arith,
            length-eq,
            ping_sent-length,
            length-append (source ++ (mac_address ++ type)) (ip ++ ping_sent rx payload),
            length-append source (mac_address ++ type),
            length-append mac_address type,
            length-append ip (ping_sent rx payload),
            ip_header_sent-length (ping_fields ip_addr identification rx),
            length-slice b 6 6 (omega (arith, h.size)),
          ))

-- An echo request for a valid packet is answered with one packet to its sender, whatever is left in
-- the memory of the packet: behind the Ethernet and IP headers stand a type and a code of 0 and a
-- checksum that checks, and then the identifier, the sequence number and the payload of the
-- request, byte by byte.
pub handle_ping_packet-echo :
    (ip_addr : ℕ) (mac_address stale : List ℕ) (identification : ℕ) (rx : IpPacket)
    → IsEcho rx
    → IsBytes rx.eth_packet.buffer
    → length mac_address ≡ 6
    → length stale ≡ 2048
    → 5 ≤ bit_and rx.version_ihl 0x0F
    → bit_and rx.version_ihl 0x0F * 4 + 8 ≤ rx.total_length
    → rx.total_length ≤ 2034
    → (ping : List ℕ) × (handle_ping_packet ip_addr mac_address stale identification rx
        ≡ some (
          (eth_bytes (slice rx.eth_packet.buffer 6 6) mac_address (be16_at rx.eth_packet.buffer 12)
                ++ (ip_header_sent (ping_fields ip_addr identification rx) ++ ping))
              ∷ [],
          u16 (identification + 1),
        ))
      × (take 2 ping ≡ 0 ∷ 0 ∷ [])
      × (ip_checksum ping (length ping) ≡ 0)
      × (drop 4 ping
          ≡ slice rx.eth_packet.buffer
              (rx.transport + 4)
              (rx.total_length - (bit_and rx.version_ihl 0x0F * 4 + 4)))
handle_ping_packet-echo ip_addr mac_address stale identification rx h bytes mac room header long
      inside =
    let eq =
      ping_sent-eq ip_addr mac_address stale identification rx h room header long inside bytes in
    (
      ping_sent rx (payload ip_addr mac_address stale identification rx h room header long inside),
      handle_ping_packet-answer ip_addr mac_address stale identification rx h room header long
            inside
          ∙ ap (λ (frame : List ℕ). some (frame ∷ [], u16 (identification + 1)))
              (echo_reply-frame ip_addr mac_address stale identification rx h room header long
                inside bytes mac),
      ap (λ (xs : List ℕ). take 2 xs) eq,
      ping_sent-checks ip_addr mac_address stale identification rx h room header long inside bytes,
      ap (λ (xs : List ℕ). drop 4 xs) eq
          ∙ ap (slice rx.eth_packet.buffer (rx.transport + 4)) (omega arith),
    )
