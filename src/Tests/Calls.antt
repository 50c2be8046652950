-- ===== src/Tests/Calls.antt =====
-- The calls of the web server and the packets that are sent: runs and witnesses.
use eth_transfer.Base.{
  ℕ, zero, suc, ◌+◌, ◌-◌, ◌≤◌, ◌<◌, ◌≡◌, ◌≢◌, refl, [], ◌∷◌, ◌%◌, ap, length-replicate, get_or,
  arith, some, true, min, sub32,
}
use eth_transfer.Clock.{Clock, check_timeout, get_now}
use eth_transfer.Ints.{negsuc}
use eth_transfer.Circle.{copy_from_circle_buffer}
use eth_transfer.Tcp.{TcpConnection, syn_ack_sent, send_rst, rx_closed, tx_closed, both_closed}
use eth_transfer.Tcp.Segments.Delivery.{Holds}
use eth_transfer.Tcp.Send.{
  after_send, after_both, after_fins, after_reset, after_syn, length_of, Surroundings, Sender, Sent,
  send_tcp_packet, decide_send, sequence_of, transmit, sent_of,
}
use eth_transfer.Tcp.Send.Handshake.{syn_sent_again}
use eth_transfer.Tcp.Api.{Read, read_tcp, close_tcp, shutdown_tcp}
use eth_transfer.Tcp.Api.Reading.{read_tcp-stream}
use eth_transfer.Tcp.Lifecycle.{Reach, send, here as stay, next, close, shutdown}
use eth_transfer.Tcp.Lifecycle.Closing.{closing_states_unreachable}
use eth_transfer.Tests.Data.{letters, open_conn, filled_conn}

filled_conn-Holds : Holds letters filled_conn
filled_conn-Holds = record {
  no_wrap = omega arith;
  size = ap (λ (n : ℕ). 4 + n) (length-replicate {A = ℕ} 8188 0);
  in_order = omega arith;
  window = omega arith;
  pending = λ p e. cc;
  received = at;
  waiting = λ p from e. cc;
}
  where
    at : (p : ℕ) → 1 ≤ p → p < 4 → get_or filled_conn.rx_buffer (p % 8192) 0 ≡ letters p
    at zero from to = absurd (omega arith)
    at (suc zero) from to = refl
    at (suc (suc zero)) from to = refl
    at (suc (suc (suc zero))) from to = refl
    at (suc (suc (suc (suc p)))) from to = absurd (omega arith)

read_tcp-stream_example :
    (r : Read) × (read_tcp 1 (0 ∷ 0 ∷ 0 ∷ []) 0 2 filled_conn ≡ some r)
    × (r.result ≡ min 2 (4 - 1))
    × ((i : ℕ) → i < r.result → get_or r.buffer i 0 ≡ letters (1 + i))
    × (r.conn.rx_read ≡ 1 + r.result)
    × Holds letters r.conn
read_tcp-stream_example =
    read_tcp-stream letters 1 0 2 (0 ∷ 0 ∷ 0 ∷ []) filled_conn filled_conn-Holds
      (record {
        offset = omega arith;
        present = refl;
        not_drained = refl;
        not_finished = omega arith;
        int = omega arith;
        fits = omega arith;
      })
      (omega arith)

abbrev two_read : Read
two_read = record {
  result = 2;
  conn = record filled_conn { rx_read = 3; ack_timeout = negsuc 0 };
  buffer = 65 ∷ 66 ∷ 0 ∷ [];
}

abbrev reset_conn : TcpConnection
reset_conn = record open_conn { state = send_rst; tx_acked = 0 }

abbrev surroundings : Surroundings
surroundings = record {
  at_test = record { tv_sec = 50; tv_nsec = 0 };
  at_end = record { tv_sec = 51; tv_nsec = 0 };
  stale = [];
}

abbrev stopped_clock : Clock
stopped_clock = record { base_time = 50000; base_time_set = true }

abbrev reset_sender : Sender
reset_sender = record {
  clock = stopped_clock;
  ip_addr = 0xA9FE1234;
  mac_address = 2 ∷ 0 ∷ 0 ∷ 0 ∷ 0 ∷ 1 ∷ [];
  identification_counter = 7;
  conn = reset_conn;
}

abbrev after_reset_sent : Sent
after_reset_sent = sent_of surroundings reset_sender reset_conn []

reset_sent : send_tcp_packet surroundings reset_sender ≡ some after_reset_sent
unfolding send_tcp_packet decide_send transmit copy_from_circle_buffer check_timeout get_now
    length_of
reset_sent = refl

-- The reset is answered, the client shuts its side down, and closes another connection.
reset_Reach : Reach reset_conn (record (after_reset_sent.sender.conn) { tx_fin = 1 })
unfolding shutdown_tcp close_tcp sent_of after_send after_both after_fins after_reset after_syn
reset_Reach =
    next
      (next (next stay (send surroundings reset_sender after_reset_sent refl refl reset_sent))
        (shutdown 1 refl))
      (close 2 refl)

closing_states_unreachable_example :
    (after_reset_sent.sender.conn.state ≢ rx_closed)
    × (after_reset_sent.sender.conn.state ≢ tx_closed)
    × (after_reset_sent.sender.conn.state ≢ both_closed)
closing_states_unreachable_example =
    closing_states_unreachable {c = reset_conn}
      {c' = record (after_reset_sent.sender.conn) { tx_fin = 1 }} refl reset_Reach

abbrev syn_conn : TcpConnection
syn_conn = record open_conn { state = syn_ack_sent; tx_acked = 0 }

syn_sent_again_example :
    (sequence_of syn_conn ≡ 5000)
    × ((decide_send surroundings.at_end stopped_clock syn_conn).0 ≡ true)
    × (sequence_of (decide_send surroundings.at_end stopped_clock syn_conn).2 ≡ sub32 5000 1)
unfolding check_timeout get_now
syn_sent_again_example =
    syn_sent_again surroundings.at_end stopped_clock syn_conn refl refl refl refl (λ e. cc)
      (omega arith) refl
