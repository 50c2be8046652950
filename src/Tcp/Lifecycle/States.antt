-- ===== src/Tcp/Lifecycle/States.antt =====
-- What each call of src/ip_stack.c does to the state of the connection.
use mathlib.Core.Path.{subst}
use eth_transfer.Base.{
  >>=-some-eq-some, some_inj, drop, sub32, ℕ, ◌≡◌, sym, ◌∙◌, List, some, Bool, true, false, arith,
  Bool-cases, inl, inr,
}
use eth_transfer.Clock.{Timespec, Clock}
use eth_transfer.Base.{◌>>=◌}
use eth_transfer.Tcp.{TcpConnection}
use eth_transfer.Tcp.Segments.{add_segment, insert_segment}
use eth_transfer.Tcp.Receive.{
  admits, data_offset, data_length, TcpPacket, Endpoint, handle_tcp_packet, handle_segment,
  handle_syn, after_data, take_ack, take_window, take_fin, accept_connection,
}
use eth_transfer.Tcp.Send.{
  sent_of, after_syn, after_reset, after_fins, after_both, Surroundings, Sender, Sent,
  send_tcp_packet, transmit, decide_send, after_send, is_syn, flags_of,
}
use eth_transfer.Tcp.Api.{Read, read_tcp, read_bytes, write_round, close_tcp, shutdown_tcp}
use eth_transfer.Tcp.Lifecycle.{not_closing}

add_segment-state :
    (bytes : List ℕ) (n dest : ℕ) (c : TcpConnection) (out : ℕ × TcpConnection)
    → add_segment bytes n dest c ≡ some out
    → out.1.state ≡ c.state
unfolding add_segment insert_segment
add_segment-state bytes n dest c out e = ground arith

after_data-state :
    (rx : TcpPacket) (base : ℕ) (c : TcpConnection)
    → not_closing c.state ≡ true
    → not_closing (after_data rx base c).state ≡ true
unfolding after_data take_ack take_window take_fin
after_data-state rx base c h = ground arith

-- Negation gives 0 or 1, and the state is compared with 8.
after_fins-idle : (flags : ℕ) (c : TcpConnection) → after_fins flags c ≡ c
unfolding after_fins
after_fins-idle flags c = ground arith

after_syn-state :
    (syn : Bool) (c : TcpConnection)
    → not_closing c.state ≡ true
    → not_closing (after_syn syn c).state ≡ true
unfolding after_syn
after_syn-state syn c h = ground arith

after_reset-state :
    (c : TcpConnection) → not_closing c.state ≡ true → not_closing (after_reset c).state ≡ true
unfolding after_reset
after_reset-state c h = ground arith

after_both-state :
    (c : TcpConnection) → not_closing c.state ≡ true → not_closing (after_both c).state ≡ true
unfolding after_both
after_both-state c h = ground arith

after_send-state :
    (syn : Bool) (flags : ℕ) (c : TcpConnection)
    → not_closing c.state ≡ true
    → not_closing (after_send syn flags c).state ≡ true
unfolding after_send
after_send-state syn flags c h =
    after_both-state (after_fins flags (after_reset (after_syn syn c)))
      (rw after_fins-idle (after_reset-state (after_syn syn c) (after_syn-state syn c h)))

decide_send-state :
    (t : Timespec) (k : Clock) (c : TcpConnection) → (decide_send t k c).2.state ≡ c.state
unfolding decide_send
decide_send-state t k c = ground arith

sent_of-state :
    (w : Surroundings) (s : Sender) (c : TcpConnection) (memory : List ℕ)
    → not_closing c.state ≡ true
    → not_closing (sent_of w s c memory).sender.conn.state ≡ true
unfolding sent_of
sent_of-state w s c memory h = after_send-state (is_syn c) (flags_of c) _ h

transmit-state :
    (w : Surroundings) (s : Sender) (c : TcpConnection) (r : Sent)
    → not_closing c.state ≡ true
    → transmit w s c ≡ some r
    → not_closing r.sender.conn.state ≡ true
unfolding transmit
transmit-state w s c r h e =
    let (memory, _, same) = >>=-some-eq-some _ (sent_of w s c) e in
    subst (λ (x : Sent). not_closing x.sender.conn.state ≡ true) same (sent_of-state w s c memory h)

pub send_tcp_packet-state :
    (w : Surroundings) (s : Sender) (r : Sent)
    → not_closing s.conn.state ≡ true
    → send_tcp_packet w s ≡ some r
    → not_closing r.sender.conn.state ≡ true
unfolding send_tcp_packet
send_tcp_packet-state w s r h e =
    let d = decide_send w.at_test s.clock s.conn in
    ground (
      arith,
      decide_send-state w.at_test s.clock s.conn,
      transmit-state w (record s { clock = d.1; conn = d.2 }) d.2 r,
    )

pub read_tcp-state :
    (connection_id : ℕ) (buffer : List ℕ) (off len : ℕ) (c : TcpConnection) (r : Read)
    → not_closing c.state ≡ true
    → read_tcp connection_id buffer off len c ≡ some r
    → not_closing r.conn.state ≡ true
unfolding read_tcp read_bytes
read_tcp-state connection_id buffer off len c r h e = ground arith

pub write_round-state :
    (bytes : List ℕ) (n : ℕ) (c c' : TcpConnection)
    → not_closing c.state ≡ true
    → write_round bytes n c ≡ some c'
    → not_closing c'.state ≡ true
unfolding write_round
write_round-state bytes n c c' h e = ground arith

pub shutdown_tcp-state :
    (connection_id : ℕ) (c : TcpConnection)
    → not_closing c.state ≡ true
    → not_closing (shutdown_tcp connection_id c).1.state ≡ true
unfolding shutdown_tcp
shutdown_tcp-state connection_id c h = ground arith

pub close_tcp-state :
    (connection_id : ℕ) (c : TcpConnection)
    → not_closing c.state ≡ true
    → not_closing (close_tcp connection_id c).state ≡ true
unfolding close_tcp
close_tcp-state connection_id c h = ground arith

handle_segment-refused :
    (rx : TcpPacket) (c : TcpConnection) → admits rx c ≡ false → handle_segment rx c ≡ some c
unfolding handle_segment
handle_segment-refused rx c no_entry = rw no_entry

handle_segment-entered :
    (rx : TcpPacket) (c : TcpConnection)
    → admits rx c ≡ true
    → handle_segment rx c ≡ (
        add_segment
          (drop (data_offset rx) rx.memory)
          (data_length rx)
          (sub32 rx.sequence c.remote_sequence)
          c
        >>= (λ r. some (after_data rx (sub32 rx.sequence c.remote_sequence) r.1)))
unfolding handle_segment
handle_segment-entered rx c entry = rw entry

handle_segment-state :
    (rx : TcpPacket) (c c' : TcpConnection)
    → not_closing c.state ≡ true
    → handle_segment rx c ≡ some c'
    → not_closing c'.state ≡ true
handle_segment-state rx c c' h e = elim (Bool-cases (admits rx c)) [
  | inr no_entry ↦
      subst (λ (x : TcpConnection). not_closing x.state ≡ true)
        (some_inj (sym (handle_segment-refused rx c no_entry) ∙ e)) h
  | inl entry ↦
      let base = sub32 rx.sequence c.remote_sequence in
      let (out, k, same) =
        >>=-some-eq-some (add_segment (drop (data_offset rx) rx.memory) (data_length rx) base c)
          (λ r. after_data rx base r.1) (sym (handle_segment-entered rx c entry) ∙ e) in
      subst (λ (x : TcpConnection). not_closing x.state ≡ true) same
        (after_data-state rx base out.1 (
          rw (add_segment-state (drop (data_offset rx) rx.memory) (data_length rx) base c out k) h))
]

handle_syn-state :
    (random1 random2 : ℕ) (rx : TcpPacket) (e e' : Endpoint)
    → not_closing e.conn.state ≡ true
    → handle_syn random1 random2 rx e ≡ some e'
    → not_closing e'.conn.state ≡ true
unfolding handle_syn accept_connection
handle_syn-state random1 random2 rx e e' h k = ground arith

pub handle_tcp_packet-state :
    (random1 random2 : ℕ) (rx : TcpPacket) (e e' : Endpoint)
    → not_closing e.conn.state ≡ true
    → handle_tcp_packet random1 random2 rx e ≡ some e'
    → not_closing e'.conn.state ≡ true
unfolding handle_tcp_packet
handle_tcp_packet-state random1 random2 rx e e' h k =
    ground (arith, handle_syn-state random1 random2 rx e e', handle_segment-state rx e.conn e'.conn)
