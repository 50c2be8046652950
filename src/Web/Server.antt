-- ===== src/Web/Server.antt =====
-- The loop of `main` of src/web_server.c: it opens the connection, reads, answers a request, and
-- ends behind a transfer. `none` is an exit, a call that does not return within the fuel, a copy or a
-- store out of range, or a string read at NULL.
pub mod Inside
pub mod Settled
pub mod Steps
pub mod Rounds
use eth_transfer.Base.{
  ℕ, zero, suc, List, ◌++◌, take, drop, set, Bool, true, false, ◌==◌, ltb, length, sle, sub32,
  add32, minus_one, codes, Option, none, some, if◌then◌else◌, ◌>>=◌,
}
use eth_transfer.Tcp.{TcpConnection}
use eth_transfer.Tcp.Api.{Read, open_tcp, read_tcp}
use eth_transfer.Web.{header_scan}
use eth_transfer.Web.Upload.{Parse, refused, done, Saved, parse_http_content}
use eth_transfer.Web.Request.{
  Request, form, link, file, message, upload, neither, name_of, split_request, request_of,
}
use eth_transfer.Web.Session.{
  send_http_message, send_http_upload_form, send_http_download_link, send_http_file,
}

-- The variables of the loop. `boundary` is the string, `none` for NULL.
pub record Server : Type 0 where
  pub read_buffer : List ℕ
  pub read_count : ℕ
  pub http_header : ℕ
  pub required_length : ℕ
  pub connection_id : ℕ
  pub complete : Bool
  pub boundary : Option (List ℕ)

-- What is outside: the arguments, the file that is served, the answers at the terminal, and which
-- files can be written.
pub record Host : Type 0 where
  pub max_size : ℕ
  pub filename : Option (List ℕ)
  pub served : Option (List ℕ)
  pub answers : List (List ℕ)
  pub writable : List ℕ → Bool

-- The variables before the loop.
abbrev pub first_server : List ℕ → Server
first_server read_buffer = record {
  read_buffer = read_buffer;
  read_count = 0;
  http_header = minus_one;
  required_length = minus_one;
  connection_id = minus_one;
  complete = false;
  boundary = none;
}

-- A new connection.
abbrev pub open_server : ℕ → Server → Server
open_server opened s = record s {
  http_header = minus_one;
  read_count = 0;
  required_length = minus_one;
  connection_id = opened;
}

-- `connection_id = -1; continue;`, with `complete` where a transfer is over.
abbrev pub answered : Bool → Server → Server
answered complete s = record s { connection_id = minus_one; complete = complete }

-- `read_buffer[required_length] = 0`: `none` where that is outside the buffer, as at -1.
abbrev pub store_end : List ℕ → ℕ → Option (List ℕ)
store_end read_buffer required_length =
    if ltb required_length (length read_buffer)
    then some (set read_buffer required_length 0)
    else none

module _ {W : Type 0} (get_conn : W → TcpConnection) (put_conn : TcpConnection → W → W)
    (ip_stack_poll : W → Option W) (save : Saved → W → W) (fuel : ℕ) (null_buf : List ℕ)
    (host : Host) where
  abbrev pub send_message : List ℕ → Server → W → Option W
  send_message text s w =
      send_http_message get_conn put_conn ip_stack_poll fuel s.connection_id null_buf text w

  -- The end of an upload.
  unfoldable pub finish_upload : Parse Saved → Server → W → Option (Server × W)
  finish_upload (refused text) s w = send_message text s w >>= (λ v. some (answered false s, v))
  finish_upload (done saved) s w =
      send_message (codes "Upload complete") s (save saved w) >>= (λ v. some (answered true s, v))

  -- `strlen` of a boundary that is NULL does not return.
  unfoldable pub parse_stored : Option (List ℕ) → Server → W → Option (Server × W)
  parse_stored none s w = none
  parse_stored (some boundary) s w =
      finish_upload
        (parse_http_content host.writable host.answers s.read_buffer s.http_header
          (sub32 s.required_length s.http_header) boundary)
        s w

  unfoldable pub parse_upload : Server → W → Option (Server × W)
  parse_upload s w =
      store_end s.read_buffer s.required_length
      >>= (λ stored. parse_stored s.boundary (record s { read_buffer = stored }) w)

  -- `if (read_count >= required_length)`
  unfoldable pub check_content : Server → W → Option (Server × W)
  check_content s w =
      let upload_done = parse_upload s w in
      if sle s.required_length s.read_count then upload_done else some (s, w)

  unfoldable pub answer : Request → Server → W → Option (Server × W)
  answer form s w =
      send_http_upload_form get_conn put_conn ip_stack_poll fuel s.connection_id null_buf w
      >>= (λ v. some (answered false s, v))
  answer link s w =
      send_http_download_link get_conn put_conn ip_stack_poll fuel s.connection_id null_buf
        (name_of host.filename) w
      >>= (λ v. some (answered false s, v))
  answer file s w =
      send_http_file get_conn put_conn ip_stack_poll fuel s.connection_id null_buf
        (name_of host.filename) host.served w
      >>= (λ v. some (answered true s, v))
  answer (message text) s w = send_message text s w >>= (λ v. some (answered false s, v))
  answer (upload required boundary) s w =
      check_content (record s { required_length = required; boundary = some boundary }) w
  answer neither s w = check_content s w

  unfoldable pub scan_request : Server → W → Option (Server × W)
  scan_request s w =
      let header = header_scan s.read_buffer s.read_count in
      let split = split_request s.read_buffer header in
      let start = record s { boundary = none; http_header = header } in
      let run =
        answer (request_of host.filename host.max_size split header)
          (record start { read_buffer = split }) w in
      if header == minus_one then some (start, w) else run

  -- Behind `read_tcp`, whose result may be -1.
  unfoldable pub take_read : Read → Server → W → Option (Server × W)
  take_read r s w =
      let count = if sle 0 r.result then add32 s.read_count r.result else s.read_count in
      let t = record s {
        read_count = count;
        read_buffer = take s.read_count s.read_buffer ++ r.buffer;
      } in
      let v = put_conn r.conn w in
      if s.http_header == minus_one then scan_request t v else check_content t v

  -- One round of the loop.
  unfoldable pub serve_round : Server → W → Option (Server × W)
  serve_round s w = ip_stack_poll w >>= (λ polled.
      let max_data = sub32 host.max_size s.read_count in
      let reading =
        read_tcp s.connection_id (drop s.read_count s.read_buffer) s.read_count max_data
          (get_conn polled)
        >>= (λ r. take_read r s polled) in
      if s.connection_id == minus_one
      then some (open_server (open_tcp (get_conn polled)) s, polled)
      else if sle max_data 0
      then none
      else reading)

  unfoldable pub serve : ℕ → Server → W → Option (Server × W)
  serve zero s w = none
  serve (suc rounds) s w =
      let next = serve_round s w >>= (λ r. serve rounds r.0 r.1) in
      if s.complete then some (s, w) else next
