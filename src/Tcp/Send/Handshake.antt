-- ===== src/Tcp/Send/Handshake.antt =====
-- `send_tcp_packet` around the handshake: what a reset leads to, and the sequence numbers of the
-- SYN packets.
use eth_transfer.Base.{◌^◌, ◌<◌, ◌≡◌, ◌≢◌, true, sub32, arith}
use eth_transfer.Ints.{negsuc}
use eth_transfer.Clock.{Timespec, Clock, check_timeout}
use eth_transfer.Tcp.{TcpConnection, syn_ack_sent}
use eth_transfer.Tcp.Send.{decide_send, sequence_of}

-- The SYN goes out with the initial sequence number; when it is sent again on a timeout, the
-- sequence number is one less, since the position went back from 1 to 0.
pub syn_sent_again :
    (t : Timespec) (k : Clock) (c : TcpConnection)
    → c.tx_acked ≡ 0
    → c.tx_sent ≡ 1
    → c.tx_write ≡ 1
    → c.state ≡ syn_ack_sent
    → c.ack_timeout ≢ negsuc 0
    → c.local_sequence < 2 ^ 32
    → (check_timeout c.ack_timeout t k).0 ≡ true
    → (sequence_of c ≡ c.local_sequence)
      × ((decide_send t k c).0 ≡ true)
      × (sequence_of (decide_send t k c).2 ≡ sub32 c.local_sequence 1)
unfolding decide_send
syn_sent_again t k c acked sent write st timer range expired =
    (ground arith, ground arith, ground arith)
