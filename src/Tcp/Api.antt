-- ===== src/Tcp/Api.antt =====
-- The calls that src/web_server.c makes: `open_tcp`, `read_tcp`, `write_tcp`, `shutdown_tcp` and
-- `close_tcp` of src/ip_stack.c. A result is an `int` pattern; `none` is a copy out of range or a
-- loop whose fuel ran out.
pub mod Reading
pub mod Sizes
use eth_transfer.Base.{
  ℕ, zero, suc, ◌+◌, ◌*◌, ◌-◌, ◌%◌, ◌^◌, List, [], ◌∷◌, ◌++◌, Bool, true, false, not, ◌&&◌, ◌||◌,
  Option, none, some, ◌==◌, ltb, leb, take, drop, length, if◌then◌else◌, add32, sub32, slt, sle,
  minus_one,
}
use eth_transfer.Ints.{ℤ, negsuc}
use eth_transfer.Base.{◌>>=◌}
use eth_transfer.Circle.{copy_from_circle_buffer, copy_to_circle_buffer}
use eth_transfer.Tcp.{
  TcpConnection, TcpState, listen, data_to_read, is_in, rx_mask, tx_mask, buffer_size,
}

unfoldable pub open_tcp : TcpConnection → ℕ
open_tcp c = if is_in c.state listen then minus_one else c.connection_id

-- The guards of `read_tcp` and `write_tcp`: the connection is gone, or it is another one.
abbrev pub is_gone : ℕ → TcpConnection → Bool
is_gone connection_id c = is_in c.state listen || not (c.connection_id == connection_id)

-- Nothing is left, behind the reset of the peer.
abbrev pub is_drained : TcpConnection → Bool
is_drained c = leb c.rx_write c.rx_read || leb c.rx_fin c.rx_read

pub record Read : Type 0 where
  pub result : ℕ
  pub conn : TcpConnection
  pub buffer : List ℕ

-- `(len < available) ? len : available`, signed
abbrev pub read_length : ℕ → TcpConnection → ℕ
read_length len c =
    let available = sub32 c.rx_write c.rx_read in if slt len available then len else available

-- The last part of `read_tcp`: the copy, and the read position.
unfoldable pub read_bytes : List ℕ → ℕ → TcpConnection → Option Read
read_bytes buffer len c =
    let n = read_length len c in
    let copied = copy_from_circle_buffer buffer len c.rx_buffer rx_mask c.rx_read n in
    if slt n 0
    then some (record { result = minus_one; conn = c; buffer = buffer })
    else copied >>= (λ out. some (record {
      result = n;
      conn = record c {
        rx_read = add32 c.rx_read n;
        ack_timeout = if slt 0 n then negsuc 0 else c.ack_timeout;
      };
      buffer = out;
    }))

-- The buffer is the memory from `buffer + off` on.
unfoldable pub read_tcp : ℕ → List ℕ → ℕ → ℕ → TcpConnection → Option Read
read_tcp connection_id buffer off len c =
    if slt off 0
    then some (record { result = minus_one; conn = c; buffer = buffer })
    else if is_gone connection_id c
    then some (record { result = minus_one; conn = c; buffer = buffer })
    else if is_in c.state data_to_read && is_drained c
    then some (record { result = minus_one; conn = record c { state = listen }; buffer = buffer })
    else if leb c.rx_fin c.rx_read
    then some (record { result = minus_one; conn = c; buffer = buffer })
    else read_bytes buffer len c

-- How much `write_tcp` puts into the buffer in one round.
unfoldable pub write_length : ℕ → TcpConnection → ℕ
write_length len c =
    let window_available = sub32 (add32 c.tx_acked c.remote_window) c.tx_write in
    let buffer_available = sub32 buffer_size (sub32 c.tx_write c.tx_acked) in
    let available =
      if slt buffer_available window_available then buffer_available else window_available in
    if slt len available then len else available

unfoldable pub write_round : List ℕ → ℕ → TcpConnection → Option TcpConnection
write_round bytes n c = do
  tx_buffer ← copy_to_circle_buffer c.tx_buffer tx_mask c.tx_write bytes n n
  some (record c { tx_buffer = tx_buffer; tx_write = add32 c.tx_write n })

-- The loop of `write_tcp`, over whatever `ip_stack_poll` does to a state `W` that holds the
-- connection. The result is `written`.
module _ {W : Type 0} (get_conn : W → TcpConnection) (put_conn : TcpConnection → W → W)
    (ip_stack_poll : W → Option W) where
  unfoldable pub write_loop : ℕ → List ℕ → ℕ → ℕ → W → Option (ℕ × W)
  write_loop zero bytes len written w = none
  write_loop (suc fuel) bytes len written w =
      let n = write_length len (get_conn w) in
      let idle_round = ip_stack_poll w >>= write_loop fuel bytes len written in
      let full_round =
        write_round bytes n (get_conn w)
        >>= (λ c. ip_stack_poll (put_conn c w))
        >>= write_loop fuel (drop n bytes) (sub32 len n) (add32 written n) in
      if not (slt 0 len) then some (written, w) else if slt 0 n then full_round else idle_round

  unfoldable pub write_tcp : ℕ → ℕ → List ℕ → ℕ → W → Option (ℕ × W)
  write_tcp fuel connection_id bytes len w =
      let run = write_loop fuel bytes len 0 w in
      if is_gone connection_id (get_conn w) then some (minus_one, w) else run

unfoldable pub close_tcp : ℕ → TcpConnection → TcpConnection
close_tcp connection_id c =
    if not (c.connection_id == connection_id) then c else record c { state = listen }

-- On success the function reaches its end with no value, and its one caller uses none.
unfoldable pub shutdown_tcp : ℕ → TcpConnection → Option ℕ × TcpConnection
shutdown_tcp connection_id c =
    if is_gone connection_id c
    then (some minus_one, c)
    else (none, record c { tx_fin = c.tx_write })
