-- ===== src/Tests/Connection.antt =====
-- The TCP connection: runs and witnesses.
use eth_transfer.Base.{
  ℕ, zero, suc, ◌≤◌, ◌≡◌, refl, [], ◌∷◌, replicate, arith, some, none, false, EachByte-IsBytes,
}
use eth_transfer.Options.Formed.{StandsAt, encode_all}
use eth_transfer.Options.Returns.{here, IsStuck}
use eth_transfer.Options.{scan_options}
use eth_transfer.Tcp.{TcpConnection}
use eth_transfer.Tcp.Segments.{add_segment}
use eth_transfer.Tcp.Segments.Progress.{covered}
use eth_transfer.Tcp.Segments.Delivery.{Holds}
use eth_transfer.Tcp.Segments.Outcome.{Delivered, add_segment-Holds, add_segment-advances}
use eth_transfer.Tcp.Segments.FullList.{add_segment-full_list}
use eth_transfer.Tcp.Receive.{Endpoint, handle_tcp_packet, handle_segment, options, admits}
use eth_transfer.Tcp.Receive.Stream.{handle_segment-Holds}
use eth_transfer.Tcp.Receive.Opened.{IsOpened}
use eth_transfer.Tcp.Receive.Syn.{Opens, handle_tcp_packet-SynResult, handle_tcp_packet-hangs}
use eth_transfer.Tests.Data.{
  length-zeros, letters, letters_sent, open_conn, open_conn-Holds, letters-Sends, syn_offer,
  syn_packet, bad_syn_packet, data_packet, listening,
}

add_segment-Holds_example :
    (out : ℕ × TcpConnection) × (add_segment letters_sent 3 1 open_conn ≡ some out)
    × Delivered letters open_conn out
add_segment-Holds_example =
    add_segment-Holds letters open_conn letters_sent 3 1 open_conn-Holds letters-Sends

add_segment-advances_example :
    (out : ℕ × TcpConnection) × (add_segment letters_sent 3 1 open_conn ≡ some out)
    × (4 ≤ out.1.rx_write)
    × (covered out.1.rx_segments out.1.rx_write ≡ false)
add_segment-advances_example =
    add_segment-advances letters open_conn letters_sent 3 1 open_conn-Holds letters-Sends refl
      (omega arith) (omega arith) (omega arith)

-- 31 one-byte entries, all at position 100.
abbrev full_conn : TcpConnection
full_conn = record open_conn { rx_segments = replicate 31 (record { position = 100; length = 1 }) }

add_segment-full_list_example :
    (out : ℕ × TcpConnection) × (add_segment letters_sent 3 1 full_conn ≡ some out)
    × (out.0 ≡ 0)
    × (out.1.rx_write ≡ 1)
    × (out.1.rx_segments ≡ full_conn.rx_segments)
add_segment-full_list_example =
    add_segment-full_list full_conn letters_sent 3 1 refl length-zeros (omega arith) (omega arith)
      (omega arith)

handle_segment-Holds_example :
    (c' : TcpConnection) × (handle_segment data_packet open_conn ≡ some c')
    × Holds letters c'
    × (1 ≤ c'.rx_write)
    × (c'.rx_read ≡ 1)
unfolding admits
handle_segment-Holds_example =
    handle_segment-Holds letters data_packet open_conn open_conn-Holds refl letters-Sends

syn-Opens : Opens syn_packet listening
syn-Opens = record {
  to_server = refl;
  listening = refl;
  no_reset = refl;
  synchronise = refl;
  no_ack = refl;
}

offer-StandsAt : StandsAt (options syn_packet) 0 (encode_all syn_offer)
offer-StandsAt zero h = refl
offer-StandsAt (suc zero) h = refl
offer-StandsAt (suc (suc zero)) h = refl
offer-StandsAt (suc (suc (suc zero))) h = refl
offer-StandsAt (suc (suc (suc (suc zero)))) h = refl
offer-StandsAt (suc (suc (suc (suc (suc zero))))) h = refl
offer-StandsAt (suc (suc (suc (suc (suc (suc zero)))))) h = refl
offer-StandsAt (suc (suc (suc (suc (suc (suc (suc zero))))))) h = refl
offer-StandsAt (suc (suc (suc (suc (suc (suc (suc (suc n)))))))) h = absurd (omega arith)

handle_tcp_packet-SynResult_example :
    (d : Endpoint) × (handle_tcp_packet 7 9 syn_packet listening ≡ some d)
    × IsOpened 7 9 syn_packet listening 1400 7 d
handle_tcp_packet-SynResult_example =
    handle_tcp_packet-SynResult 7 9 syn_packet listening syn_offer syn-Opens
      (
        omega arith,
        omega arith,
        EachByte-IsBytes (5 ∷ 0xB4 ∷ []) (omega arith),
        (omega arith, omega arith, EachByte-IsBytes (7 ∷ []) (omega arith), tt),
      )
      offer-StandsAt (omega arith) refl

bad_syn-Opens : Opens bad_syn_packet listening
bad_syn-Opens = record {
  to_server = refl;
  listening = refl;
  no_reset = refl;
  synchronise = refl;
  no_ack = refl;
}

bad_syn-IsStuck : IsStuck (options bad_syn_packet) 8 2 0
bad_syn-IsStuck = record {
  inside = omega arith;
  not_end = omega arith;
  not_nop = omega arith;
  other_kind = omega arith;
  no_size = refl;
}

handle_tcp_packet-hangs_example :
    (handle_tcp_packet 7 9 bad_syn_packet listening ≡ none)
    × ((fuel : ℕ) → scan_options fuel (options bad_syn_packet) 8 2 ≡ none)
handle_tcp_packet-hangs_example =
    handle_tcp_packet-hangs 7 9 bad_syn_packet listening 8 0 bad_syn-Opens refl (omega arith)
      (EachByte-IsBytes (options bad_syn_packet) (omega arith)) (here 0) bad_syn-IsStuck
