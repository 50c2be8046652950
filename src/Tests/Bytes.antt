-- ===== src/Tests/Bytes.antt =====
-- Checksums, circle buffers, options and the clock: runs and witnesses.
use eth_transfer.Base.{
  ℕ, ◌+◌, ◌≤◌, ◌≡◌, refl, ap, List, [], ◌∷◌, slice, take, arith, some, none, ◌⊎◌, IsBytes,
  EachByte-IsBytes, length, ◌%◌, true,
}
use eth_transfer.Ints.{pos_part}
use eth_transfer.Clock.{Clock, get_now}
use eth_transfer.Clock.Coarse.{get_now_steps}
use eth_transfer.Checksum.{ip_checksum, ip_checksum_add}
use eth_transfer.Checksum.Sum.{word_sum, ip_checksum_add-word_sum}
use eth_transfer.Checksum.Verify.{ip_checksum-store_checksum, store_checksum}
use eth_transfer.Frame.{IpFields, ip_header_sent, tcp_checksum, tcp_sent}
use eth_transfer.Frame.Verify.{ip_header_sent-checks, tcp_sent-checks}
use eth_transfer.Circle.{copy_to_circle_buffer, copy_from_circle_buffer}
use eth_transfer.Circle.Positions.{mask}
use eth_transfer.Circle.Reads.{copy_from-copy_to}
use eth_transfer.Options.{scan_options, byte_at}
use eth_transfer.Options.Formed.{StandsAt, encode_all, scan_options-lookup}
use eth_transfer.Options.Returns.{Reaches, IsStuck, scan_options-returns_or_hangs}
use eth_transfer.Tests.Data.{zeros, length-zeros, letters_sent, syn_offer}

letters-IsBytes : IsBytes letters_sent
letters-IsBytes = EachByte-IsBytes letters_sent (omega arith)

ip_checksum_add-word_sum_example :
    ip_checksum_add 5 letters_sent 3 ≡ 5 + word_sum (slice letters_sent 0 3)
ip_checksum_add-word_sum_example =
    ip_checksum_add-word_sum letters_sent 3 (omega arith) letters-IsBytes 5 (omega arith)

abbrev field : List ℕ
field = 65 ∷ 66 ∷ 0 ∷ 0 ∷ 67 ∷ []

ip_checksum-store_checksum_example :
    ip_checksum (store_checksum field 1 (ip_checksum field 5)) 5 ≡ 0
ip_checksum-store_checksum_example =
    ip_checksum-store_checksum field 1 (EachByte-IsBytes field (omega arith)) (omega arith)
      (omega arith) refl refl

abbrev some_fields : IpFields
some_fields = record {
  total_length = 40;
  identification = 7;
  protocol = 6;
  source_ip = 0xA9FE1234;
  dest_ip = 0xA9FE0001;
}

ip_header_sent-checks_example : ip_checksum (ip_header_sent some_fields) 20 ≡ 0
ip_header_sent-checks_example = ip_header_sent-checks some_fields (omega arith)

abbrev some_ip : List ℕ
some_ip =
    1 ∷ 2 ∷ 3 ∷ 4 ∷ 5 ∷ 6 ∷ 7 ∷ 8 ∷ 9 ∷ 10 ∷ 11 ∷ 12 ∷ 13 ∷ 14 ∷ 15 ∷ 16 ∷ 17 ∷ 18 ∷ 19 ∷ 20 ∷ []

abbrev some_tcp : List ℕ
some_tcp =
    1 ∷ 2 ∷ 3 ∷ 4 ∷ 5 ∷ 6 ∷ 7 ∷ 8 ∷ 9 ∷ 10 ∷ 11 ∷ 12 ∷ 13 ∷ 14 ∷ 15 ∷ 16 ∷ 0 ∷ 0 ∷ 0 ∷ 0 ∷ 21 ∷ []

tcp_sent-checks_example :
    ((word_sum (slice some_ip 12 8) + 6 + length some_tcp + word_sum (tcp_sent some_ip some_tcp))
        % 65535
      ≡ 0)
    × (tcp_checksum some_ip (tcp_sent some_ip some_tcp) ≡ 0)
tcp_sent-checks_example =
    tcp_sent-checks some_ip some_tcp refl (omega arith) (omega arith)
      (EachByte-IsBytes some_ip (omega arith)) (EachByte-IsBytes some_tcp (omega arith)) refl refl

copy_from-copy_to_example :
    (stored out : List ℕ) × (copy_to_circle_buffer zeros mask 8191 letters_sent 3 3 ≡ some stored)
    × (copy_from_circle_buffer (0 ∷ 0 ∷ 0 ∷ 0 ∷ []) 3 stored mask 8191 3 ≡ some out)
    × (take 3 out ≡ take 3 letters_sent)
copy_from-copy_to_example =
    copy_from-copy_to zeros 8191 letters_sent 3 (0 ∷ 0 ∷ 0 ∷ 0 ∷ []) length-zeros (omega arith)
      (omega arith) (omega arith) (omega arith)

offer-StandsAt_start : StandsAt (encode_all syn_offer) 0 (encode_all syn_offer)
offer-StandsAt_start n h = ap (byte_at (encode_all syn_offer)) (omega arith)

scan_options-lookup_example : scan_options 4 (encode_all syn_offer) 8 2 ≡ some 1460
scan_options-lookup_example =
    scan_options-lookup syn_offer 4 (encode_all syn_offer) 2
      (
        omega arith,
        omega arith,
        EachByte-IsBytes (5 ∷ 0xB4 ∷ []) (omega arith),
        (omega arith, omega arith, EachByte-IsBytes (7 ∷ []) (omega arith), tt),
      )
      (omega arith) (omega arith) (omega arith) offer-StandsAt_start

abbrev bad_options : List ℕ
bad_options = 1 ∷ 5 ∷ 0 ∷ 0 ∷ []

scan_options-returns_or_hangs_example :
    ((v : ℕ) × (scan_options 5 bad_options 4 2 ≡ some v))
    ⊎ (((j : ℕ) × Reaches bad_options 4 2 0 j × IsStuck bad_options 4 2 j)
        × ((fuel : ℕ) → scan_options fuel bad_options 4 2 ≡ none))
scan_options-returns_or_hangs_example =
    scan_options-returns_or_hangs bad_options 4 2 5 (omega arith) (omega arith)
      (EachByte-IsBytes bad_options (omega arith))

abbrev started : Clock
started = record { base_time = 1000; base_time_set = true }

get_now_steps_example :
    ((get_now (record { tv_sec = 3; tv_nsec = 1 }) started).0
      ≡ (get_now (record { tv_sec = 3; tv_nsec = 999999999 }) started).0)
    × (pos_part (get_now (record { tv_sec = 3; tv_nsec = 1 }) started).0 + 1000
        ≤ pos_part (get_now (record { tv_sec = 4; tv_nsec = 0 }) started).0)
get_now_steps_example = get_now_steps started 3 1 999999999 0 refl (omega arith) (omega arith)
