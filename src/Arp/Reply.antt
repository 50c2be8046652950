-- ===== src/Arp/Reply.antt =====
-- The ARP answer, from the bytes of the request to the bytes of the reply.
use eth_transfer.Base.{
  ℕ, ◌+◌, ◌*◌, ◌≤◌, ◌<◌, ◌^◌, ◌≡◌, refl, ap, ap₂, ◌∙◌, List, [], ◌∷◌, ◌++◌, drop, take, slice,
  get_or, length, length-append, length-slice, IsBytes, Bool, true, false, ◌&&◌, ◌||◌, ◌==◌, leb,
  sle, slt, minus_one, if◌then◌else◌, arith,
}
use eth_transfer.Frame.{be16, be32, eth_bytes}
use eth_transfer.Ethernet.{EthPacket, be16_at, be32_at, be32-be32_at, take-append}
use eth_transfer.Arp.{
  read_arp, arp_bytes, is_valid_arp, new_arp_packet, arp_answer, handle_arp_packet,
}

-- The bytes of an ARP request of an Ethernet host for an IPv4 address.
abbrev pub asks_for : ℕ → EthPacket → Bool
asks_for ip_addr eth =
    let b = eth.buffer in
    leb 42 eth.length
    && (get_or b 14 0 == 0 && get_or b 15 0 == 1)
    && (get_or b 16 0 == 8 && get_or b 17 0 == 0)
    && (get_or b 18 0 == 6 && get_or b 19 0 == 4)
    && (get_or b 20 0 == 0 && get_or b 21 0 == 1)
    && (be32_at b 38 == ip_addr)

-- The bytes of the answer.
abbrev pub arp_reply : ℕ → List ℕ → List ℕ → List ℕ
arp_reply ip_addr mac_address b =
    eth_bytes (slice b 6 6) mac_address 0x0806
    ++ (0
        ∷ 1
        ∷ 8
        ∷ 0
        ∷ 6
        ∷ 4
        ∷ 0
        ∷ 2
        ∷ (mac_address ++ (be32 ip_addr ++ (slice b 22 6 ++ slice b 28 4))))

-- A big-endian field is a number where its two bytes are the number's.
be16_at-test :
    (b : List ℕ) (i hi lo : ℕ)
    → IsBytes b
    → hi < 256
    → lo < 256
    → (be16_at b i == hi * 256 + lo) ≡ (get_or b i 0 == hi && get_or b (i + 1) 0 == lo)
be16_at-test b i hi lo bytes high low = let b0 = bytes i in let b1 = bytes (i + 1) in ground arith

-- The order in which the guards are tested.
guards :
    {A : Type 0} (v o t : Bool) (x : List A)
    → (if slt (if v then 28 else minus_one) 0 then [] else if o then (if t then x else []) else [])
      ≡ (if v && o && t then x else [])
guards false o t x = refl
guards true false t x = refl
guards true true false x = refl
guards true true true x = refl

regroup :
    (a b c d e o p t : Bool)
    → ((a && b && c && d && e && (o || p)) && o && t) ≡ (a && b && c && (d && e) && o && t)
regroup false b c d e o p t = refl
regroup true false c d e o p t = refl
regroup true true false d e o p t = refl
regroup true true true false e o p t = refl
regroup true true true true false o p t = refl
regroup true true true true true false false t = refl
regroup true true true true true false true t = refl
regroup true true true true true true p t = refl

arp_reply-length :
    (ip_addr : ℕ) (mac_address b : List ℕ)
    → length mac_address ≡ 6
    → 42 ≤ length b
    → length (arp_reply ip_addr mac_address b) ≡ 42
arp_reply-length ip_addr mac_address b mac size =
    let macs = slice b 22 6 in
    omega (
      arith,
      length-slice b 6 6 (omega arith),
      length-slice b 22 6 (omega arith),
      length-slice b 28 4 (omega arith),
      length-append (slice b 6 6) (mac_address ++ be16 0x0806),
      length-append mac_address (be16 0x0806),
      length-append (slice b 6 6 ++ (mac_address ++ be16 0x0806)) (
          0
          ∷ 1
          ∷ 8
          ∷ 0
          ∷ 6
          ∷ 4
          ∷ 0
          ∷ 2
          ∷ (mac_address ++ (be32 ip_addr ++ (slice b 22 6 ++ slice b 28 4)))),
      length-append mac_address (be32 ip_addr ++ (slice b 22 6 ++ slice b 28 4)),
      length-append (be32 ip_addr) (slice b 22 6 ++ slice b 28 4),
      length-append (slice b 22 6) (slice b 28 4),
    )

new_arp_packet-request :
    (ip_addr : ℕ) (mac_address stale : List ℕ) (eth : EthPacket)
    → IsBytes eth.buffer
    → eth.length < 2 ^ 31
    → handle_arp_packet ip_addr mac_address stale (new_arp_packet eth true) ≡ (
        if asks_for ip_addr eth
        then arp_answer ip_addr mac_address stale (new_arp_packet eth true) ∷ []
        else [])
unfolding handle_arp_packet new_arp_packet is_valid_arp read_arp
new_arp_packet-request ip_addr mac_address stale eth bytes int =
    let b = eth.buffer in
    guards (is_valid_arp eth (read_arp b)) (be16_at b 20 == 1) (be32_at b 38 == ip_addr)
      (arp_answer ip_addr mac_address stale (new_arp_packet eth true) ∷ [])
    ∙ ap
        (λ (x : Bool).
          if x then arp_answer ip_addr mac_address stale (new_arp_packet eth true) ∷ [] else [])
        (regroup (sle 42 eth.length) (be16_at b 14 == 1) (be16_at b 16 == 0x0800)
            (get_or b 18 0 == 6) (get_or b 19 0 == 4) (be16_at b 20 == 1) (be16_at b 20 == 2)
            (be32_at b 38 == ip_addr)
          ∙ ap₂ ◌&&◌
              (ap₂ ◌&&◌
                (ap₂ ◌&&◌
                  (ap₂ ◌&&◌
                    (ap₂ ◌&&◌ (ground arith)
                      (be16_at-test b 14 0 1 bytes (omega arith) (omega arith)))
                    (be16_at-test b 16 8 0 bytes (omega arith) (omega arith)))
                  refl)
                (be16_at-test b 20 0 1 bytes (omega arith) (omega arith)))
              refl)

arp_answer-bytes :
    (ip_addr : ℕ) (mac_address stale : List ℕ) (eth : EthPacket)
    → IsBytes eth.buffer
    → length mac_address ≡ 6
    → 42 ≤ length eth.buffer
    → be16_at eth.buffer 12 ≡ 0x0806
    → arp_answer ip_addr mac_address stale (new_arp_packet eth true)
      ≡ arp_reply ip_addr mac_address eth.buffer
unfolding arp_answer new_arp_packet read_arp arp_bytes
arp_answer-bytes ip_addr mac_address stale eth bytes mac size arp =
    let b = eth.buffer in
    ap₂
      (λ (t : ℕ) (zs : List ℕ). take 42 (
        (eth_bytes (slice b 6 6) mac_address t
          ++ (0
              ∷ 1
              ∷ 8
              ∷ 0
              ∷ 6
              ∷ 4
              ∷ 0
              ∷ 2
              ∷ (mac_address ++ (be32 ip_addr ++ (slice b 22 6 ++ zs)))))
        ++ drop 42 stale))
      arp (be32-be32_at b 28 bytes (omega arith))
    ∙ take-append 42 (arp_reply ip_addr mac_address b) (drop 42 stale)
        (arp_reply-length ip_addr mac_address b mac size)

-- `handle_arp_packet` sends one packet exactly where the bytes are a request for the address of the
-- stack, the answer with the sender's addresses copied byte by byte, and none otherwise, whatever
-- is left in the memory of the packet.
pub handle_arp_packet-reply :
    (ip_addr : ℕ) (mac_address stale : List ℕ) (eth : EthPacket)
    → IsBytes eth.buffer
    → eth.length < 2 ^ 31
    → length mac_address ≡ 6
    → 42 ≤ length eth.buffer
    → be16_at eth.buffer 12 ≡ 0x0806
    → handle_arp_packet ip_addr mac_address stale (new_arp_packet eth true)
      ≡ (if asks_for ip_addr eth then arp_reply ip_addr mac_address eth.buffer ∷ [] else [])
handle_arp_packet-reply ip_addr mac_address stale eth bytes int mac size arp =
    new_arp_packet-request ip_addr mac_address stale eth bytes int
    ∙ ap (λ (r : List ℕ). if asks_for ip_addr eth then r ∷ [] else [])
        (arp_answer-bytes ip_addr mac_address stale eth bytes mac size arp)
