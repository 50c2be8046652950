-- ===== src/Frame/Verify.antt =====
-- The checksums of the packets that are sent, as their receiver sees them.
use eth_transfer.Base.{
  ℕ, ◌+◌, ◌*◌, ◌%◌, ◌^◌, ◌≤◌, ◌<◌, ◌≡◌, refl, sym, ap, ◌∙◌, List, length, get_or, set, ◌-◌, slice,
  slice_whole, IsBytes, EachByte-IsBytes, IsBytes-slice, length-slice, length-set, ◌>>>◌, arith,
}
use eth_transfer.Checksum.{ip_checksum, ip_checksum_add, ip_checksum_init}
use eth_transfer.Checksum.Sum.{word_sum, ip_checksum_add-word_sum}
use eth_transfer.Checksum.Verify.{
  folded, ip_checksum-store_checksum, store_checksum, word_sum-set, word_sum-le,
  ip_checksum_final-eq, IsBytes-store_checksum,
}
use eth_transfer.Frame.{IpFields, ip_bytes, ip_header_sent, tcp_checksum, tcp_sent, temp_encode}

ip_bytes-IsBytes : (f : IpFields) → f.protocol < 256 → IsBytes (ip_bytes f)
unfolding ip_bytes
ip_bytes-IsBytes f p = EachByte-IsBytes (ip_bytes f) (omega arith)

pub ip_header_sent-length : (f : IpFields) → length (ip_header_sent f) ≡ 20
unfolding ip_header_sent ip_bytes
ip_header_sent-length f = refl

-- The IP header of every packet that the stack builds checks as 0.
pub ip_header_sent-checks :
    (f : IpFields) → f.protocol < 256 → ip_checksum (ip_header_sent f) 20 ≡ 0
unfolding ip_bytes ip_header_sent
ip_header_sent-checks f p =
    ip_checksum-store_checksum (ip_bytes f) 5 (ip_bytes-IsBytes f p) (omega arith) (omega arith)
      refl refl

temp_encode-IsBytes : (n : ℕ) → IsBytes (temp_encode n)
temp_encode-IsBytes n = EachByte-IsBytes (temp_encode n) (omega arith)

-- All the words that a TCP checksum adds.
abbrev pseudo_sum : List ℕ → List ℕ → ℕ
pseudo_sum ip tcp = word_sum (slice ip 12 8) + word_sum (temp_encode (length tcp)) + word_sum tcp

module _ (ip tcp : List ℕ) (ip_length : length ip ≡ 20) (short : length tcp ≤ 0xFF00)
    (ip_bytes' : IsBytes ip) (tcp_bytes' : IsBytes tcp) where
  addresses-le : word_sum (slice ip 12 8) ≤ 8 * 65535
  addresses-le = omega (
    arith,
    word_sum-le (slice ip 12 8) (IsBytes-slice ip 12 8 ip_bytes'),
    length-slice ip 12 8 (omega arith),
  )

  pseudo_sum-lt : pseudo_sum ip tcp + 65535 < 2 ^ 32
  pseudo_sum-lt = omega (arith, addresses-le, word_sum-le tcp tcp_bytes')

  tcp_checksum-eq : tcp_checksum ip tcp ≡ 65535 - folded (pseudo_sum ip tcp)
  unfolding tcp_checksum ip_checksum_init
  tcp_checksum-eq = omega (
    arith,
    pseudo_sum-lt,
    first,
    second,
    third,
    ip_checksum_final-eq all (omega (arith, third, pseudo_sum-lt)),
  )
    where
      addresses : ℕ
      addresses = ip_checksum_add 0 (slice ip 12 8) 8

      pseudo : ℕ
      pseudo = ip_checksum_add addresses (temp_encode (length tcp)) 4

      all : ℕ
      all = ip_checksum_add pseudo tcp (length tcp)

      eight : length (slice ip 12 8) ≡ 8
      eight = length-slice ip 12 8 (omega arith)

      first : addresses ≡ word_sum (slice ip 12 8)
      first =
          ip_checksum_add-word_sum (slice ip 12 8) 8 (omega (arith, eight))
            (IsBytes-slice ip 12 8 ip_bytes') 0 (omega arith)
          ∙ omega (
            arith,
            ap (λ (n : ℕ). word_sum (slice (slice ip 12 8) 0 n)) (sym eight),
            ap word_sum (slice_whole (slice ip 12 8)),
            addresses-le,
          )

      second : pseudo ≡ word_sum (slice ip 12 8) + word_sum (temp_encode (length tcp))
      second =
          ip_checksum_add-word_sum (temp_encode (length tcp)) 4 (omega arith)
            (temp_encode-IsBytes (length tcp)) addresses (omega (arith, first, addresses-le))
          ∙ omega (arith, first, addresses-le)

      third : all ≡ pseudo_sum ip tcp
      third =
          ip_checksum_add-word_sum tcp (length tcp) (omega arith) tcp_bytes' pseudo
            (omega (arith, second, addresses-le))
          ∙ omega (arith, second, pseudo_sum-lt, ap word_sum (slice_whole tcp))

zero_checks :
    (ip tcp : List ℕ)
    → length ip ≡ 20
    → length tcp ≤ 0xFF00
    → IsBytes ip
    → IsBytes tcp
    → tcp_checksum ip tcp ≡ 0
    → (word_sum (slice ip 12 8) + 6 + length tcp + word_sum tcp) % 65535 ≡ 0
zero_checks ip tcp l high b b' zero =
    omega (arith, zero, tcp_checksum-eq ip tcp l high b b', pseudo_sum-lt ip tcp l high b b')

tcp_sent-zero :
    (ip tcp : List ℕ)
    → length ip ≡ 20
    → 18 ≤ length tcp
    → length tcp ≤ 0xFF00
    → IsBytes ip
    → IsBytes tcp
    → get_or tcp 16 0 ≡ 0
    → get_or tcp 17 0 ≡ 0
    → tcp_checksum ip (tcp_sent ip tcp) ≡ 0
unfolding tcp_sent
tcp_sent-zero ip tcp l low high b b' hi lo = omega (
  arith,
  tcp_checksum-eq ip tcp l high b b',
  tcp_checksum-eq ip sent l (omega (arith, same_length)) b
      (IsBytes-store_checksum tcp 8 c (omega (arith, tcp_checksum-eq ip tcp l high b b')) b'),
  word_sum-set tcp 8 (c >>> 8) (c % 2 ^ 8) (omega arith),
  pseudo_sum-lt ip tcp l high b b',
  ap (λ (n : ℕ). word_sum (temp_encode n)) same_length,
)
  where
    c : ℕ
    c = tcp_checksum ip tcp

    sent : List ℕ
    sent = store_checksum tcp 8 c

    same_length : length sent ≡ length tcp
    same_length = length-set (set tcp 16 (c >>> 8)) 17 (c % 2 ^ 8) ∙ length-set tcp 16 (c >>> 8)

-- A TCP header and its data, with the checksum stored over a zero field, pass the test of a receiver
-- that follows the standard, for every IP header of 20 bytes: the words of the two addresses, the
-- protocol number 6, the length in bytes and the words of what was sent add up to a multiple of 65535,
-- the zero of the arithmetic in ones' complement, and the checksum of the stack over them is 0.
pub tcp_sent-checks :
    (ip tcp : List ℕ)
    → length ip ≡ 20
    → 18 ≤ length tcp
    → length tcp ≤ 0xFF00
    → IsBytes ip
    → IsBytes tcp
    → get_or tcp 16 0 ≡ 0
    → get_or tcp 17 0 ≡ 0
    → ((word_sum (slice ip 12 8) + 6 + length tcp + word_sum (tcp_sent ip tcp)) % 65535 ≡ 0)
      × (tcp_checksum ip (tcp_sent ip tcp) ≡ 0)
unfolding tcp_sent
tcp_sent-checks ip tcp l low high b b' hi lo =
    let zero = tcp_sent-zero ip tcp l low high b b' hi lo in
    let c = tcp_checksum ip tcp in
    let sent = store_checksum tcp 8 c in
    let same_length : length sent ≡ length tcp =
      length-set (set tcp 16 (c >>> 8)) 17 (c % 2 ^ 8) ∙ length-set tcp 16 (c >>> 8) in
    let checks =
      zero_checks ip sent l (omega (arith, same_length)) b
        (IsBytes-store_checksum tcp 8 c (omega (arith, tcp_checksum-eq ip tcp l high b b')) b')
        zero in
    (omega (arith, checks, same_length), zero)
