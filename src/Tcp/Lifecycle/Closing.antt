-- ===== src/Tcp/Lifecycle/Closing.antt =====
-- No sequence of calls closes a connection.
use eth_transfer.Base.{◌≡◌, ◌≢◌, refl, true, false}
use eth_transfer.Tcp.{TcpConnection, TcpState, rx_closed, tx_closed, both_closed}
use eth_transfer.Tcp.Lifecycle.{
  not_closing, Step, Reach, receive, send, read, write, shutdown, close, here, next,
}
use eth_transfer.Tcp.Lifecycle.States.{
  handle_tcp_packet-state, send_tcp_packet-state, read_tcp-state, write_round-state,
  shutdown_tcp-state, close_tcp-state,
}

Step-not_closing :
    {c c' : TcpConnection} → Step c c' → not_closing c.state ≡ true → not_closing c'.state ≡ true
Step-not_closing (receive random1 random2 rx e e' from to k) h =
    rw (← to) (handle_tcp_packet-state random1 random2 rx e e' (rw from h) k)
Step-not_closing (send w s r from to k) h = rw (← to) (send_tcp_packet-state w s r (rw from h) k)
Step-not_closing {c} (read connection_id buffer off len r to k) h =
    rw (← to) (read_tcp-state connection_id buffer off len c r h k)
Step-not_closing {c} {c'} (write bytes n k) h = write_round-state bytes n c c' h k
Step-not_closing {c} (shutdown connection_id to) h =
    rw (← to) (shutdown_tcp-state connection_id c h)
Step-not_closing {c} (close connection_id to) h = rw (← to) (close_tcp-state connection_id c h)

Reach-not_closing :
    {c c' : TcpConnection} → not_closing c.state ≡ true → Reach c c' → not_closing c'.state ≡ true
Reach-not_closing h here = h
Reach-not_closing h (next r step) = Step-not_closing step (Reach-not_closing h r)

-- From a connection in any state but the three closing ones, no sequence of calls reaches
-- RX_CLOSED, TX_CLOSED or BOTH_CLOSED: the code that enters them is never run.
pub closing_states_unreachable :
    {c c' : TcpConnection}
    → not_closing c.state ≡ true
    → Reach c c'
    → (c'.state ≢ rx_closed) × (c'.state ≢ tx_closed) × (c'.state ≢ both_closed)
closing_states_unreachable {c} {c'} h r =
    let safe = Reach-not_closing h r in
    (λ e. differs safe e refl, λ e. differs safe e refl, λ e. differs safe e refl)
  where
    differs : {a b : TcpState} → not_closing a ≡ true → a ≡ b → not_closing b ≡ false → ⊥
    differs p e q = cc
