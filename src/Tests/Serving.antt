-- ===== src/Tests/Serving.antt =====
-- The loop of the web server: runs and witnesses.
use eth_transfer.Base.{
  minus_one, codes, ◌≡◌, refl, [], ◌∷◌, replicate, none, some, true, arith, memcpy,
}
use eth_transfer.Ints.{negsuc}
use eth_transfer.Circle.{copy_from_circle_buffer}
use eth_transfer.Tcp.{TcpConnection}
use eth_transfer.Tcp.Api.{open_tcp, read_tcp, read_bytes}
use eth_transfer.Web.{header_scan, header_scan_loop}
use eth_transfer.Web.Request.{neither}
use eth_transfer.Web.Server.{
  Server, Host, first_server, open_server, serve_round, take_read, scan_request, answer,
}
use eth_transfer.Web.Server.Inside.{InBuffer}
use eth_transfer.Web.Server.Settled.{Settled}
use eth_transfer.Web.Server.Rounds.{before_loop, round, Rounds-InBuffer}
use eth_transfer.Stack.Address.{address_text, unpack_ip_addr}
use eth_transfer.Web.Arguments.{scan_address}
use eth_transfer.Web.Arguments.Address.{scan_address-address_text}
use eth_transfer.Tests.Data.{filled_conn}

-- A host with 16 bytes, where nothing is confirmed.
abbrev small_host : Host
small_host = record {
  max_size = 16;
  filename = none;
  served = none;
  answers = [];
  writable = λ name. true;
}

abbrev opened_server : Server
opened_server = open_server 1 (first_server (replicate 16 0))

opens :
    serve_round
      (λ c. c)
      (λ c w. c)
      (λ w. some w)
      (λ s w. w)
      4
      []
      small_host
      (first_server (replicate 16 0))
      filled_conn
    ≡ some (opened_server, filled_conn)
unfolding serve_round open_tcp
opens = refl

-- Three bytes come in, with no header in them yet.
abbrev read_server : Server
read_server = record opened_server { read_buffer = 65 ∷ 66 ∷ 67 ∷ replicate 13 0; read_count = 3 }

abbrev read_conn : TcpConnection
read_conn = record filled_conn { rx_read = 4; ack_timeout = negsuc 0 }

reads :
    serve_round
      (λ c. c)
      (λ c w. c)
      (λ w. some w)
      (λ s w. w)
      4
      []
      small_host
      opened_server
      filled_conn
    ≡ some (read_server, read_conn)
unfolding serve_round take_read scan_request header_scan header_scan_loop read_tcp read_bytes
    copy_from_circle_buffer memcpy
reads = refl

Rounds-InBuffer_example :
    InBuffer 16 read_server
    × Settled 16 read_server
    × (answer
          (λ c. c)
          (λ c w. c)
          (λ w. some w)
          (λ s w. w)
          4
          []
          small_host
          neither
          (record read_server { required_length = minus_one })
          read_conn
        ≡ none)
Rounds-InBuffer_example =
    Rounds-InBuffer (λ c. c) (λ c w. c) (λ w. some w) (λ s w. w) 4 [] small_host (replicate 16 0)
      filled_conn (omega arith) refl
      (round (read_server, read_conn) (round (opened_server, filled_conn) before_loop opens) reads)

address_printed : address_text 0xA9FE1234 ≡ codes "169.254.18.52"
unfolding unpack_ip_addr
address_printed = refl

scan_address-address_text_example : scan_address (address_text 0xA9FE1234) ≡ some 0xA9FE1234
scan_address-address_text_example = scan_address-address_text 0xA9FE1234 (omega arith)
