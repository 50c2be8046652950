-- ===== src/Web/Session.antt =====
-- The answers of src/web_server.c: `send_response`, the `send_http` functions and `shutdown_close`,
-- over the calls of the stack. `none` is a call that does not return within the fuel.
use eth_transfer.Base.{
  ℕ, zero, suc, ◌-◌, ◌*◌, List, [], ◌∷◌, ◌++◌, take, drop, length, Option, none, some, codes,
  decimal, slt, ltb, if◌then◌else◌, ◌>>=◌,
}
use eth_transfer.Tcp.{TcpConnection}
use eth_transfer.Tcp.Api.{read_tcp, write_tcp, shutdown_tcp, close_tcp}

-- The page around a message.
abbrev pub message_page : List ℕ → List ℕ
message_page message =
    codes "<html><head></head><body>"
    ++ codes "\n"
    ++ message
    ++ codes "\n"
    ++ codes "</body></html>"
    ++ codes "\n"

abbrev pub form_page : List ℕ
form_page =
    codes "<html><head></head><body>\n"
    ++ codes "<form enctype=\"multipart/form-data\" action=\"upload.html\" method=\"POST\">\n"
    ++ codes "Select file to upload<br>\n"
    ++ codes "<input type=\"submit\" value=\"Upload\" />\n"
    ++ codes "<input name=\"uploadfile\" type=\"file\"/><br/>\n"
    ++ codes "</form>\n"
    ++ codes "</body></html>\n"

-- The header that goes in front of a page.
abbrev pub page_header : ℕ → List ℕ
page_header length =
    codes "HTTP/1.1 200 OK\r\nContent-Length: "
    ++ decimal length
    ++ codes "\r\nContent-Type: text/html\r\nConnection: closed\r\n\r\n"

unfoldable pub message_response : List ℕ → List ℕ
message_response message =
    let content = message_page message in page_header (length content - 1) ++ content

unfoldable pub form_response : List ℕ
form_response = page_header (length form_page) ++ form_page

unfoldable pub link_message : List ℕ → List ℕ
link_message filename = codes "<a href=\"" ++ filename ++ codes "\">" ++ filename ++ codes "</a>"

abbrev pub file_header : ℕ → List ℕ → List ℕ
file_header length filename =
    codes "HTTP/1.1 200 OK\r\nContent-Length: "
    ++ decimal length
    ++ codes "\r\nContent-Type: application/octet-stream\r\n"
    ++ codes "Content-Disposition: attachment; filename=\""
    ++ filename
    ++ codes "\"\r\nConnection: closed\r\n\r\n"

-- Over whatever `ip_stack_poll` does to a state `W` that holds the connection.
module _ {W : Type 0} (get_conn : W → TcpConnection) (put_conn : TcpConnection → W → W)
    (ip_stack_poll : W → Option W) (fuel connection_id : ℕ) where
  abbrev pub write : List ℕ → W → Option W
  write bytes w =
      write_tcp get_conn put_conn ip_stack_poll fuel connection_id bytes (length bytes) w
      >>= (λ r. some r.1)

  -- `do { read = read_tcp(...); } while (read > 0)`: the last result.
  unfoldable pub drain_reads : ℕ → List ℕ → W → Option (ℕ × W)
  drain_reads zero null_buf w = none
  drain_reads (suc rounds) null_buf w =
      read_tcp connection_id null_buf 0 4096 (get_conn w) >>= (λ r.
        let rest = drain_reads rounds r.buffer (put_conn r.conn w) in
        if slt 0 r.result then rest else some (r.result, put_conn r.conn w))

  -- `while (!eof)`
  unfoldable pub eof_loop : ℕ → List ℕ → W → Option W
  eof_loop zero null_buf w = none
  eof_loop (suc rounds) null_buf w = drain_reads fuel null_buf w >>= (λ r.
      ip_stack_poll r.1 >>= (λ polled.
        let rest = eof_loop rounds null_buf polled in if slt r.0 0 then some polled else rest))

  unfoldable pub shutdown_close : List ℕ → W → Option W
  shutdown_close null_buf w =
      let shut = shutdown_tcp connection_id (get_conn w) in
      eof_loop fuel null_buf (put_conn shut.1 w)
      >>= (λ drained. some (put_conn (close_tcp connection_id (get_conn drained)) drained))

  unfoldable pub send_response : List ℕ → List ℕ → W → Option W
  send_response null_buf response w = write response w >>= shutdown_close null_buf

  unfoldable pub send_http_message : List ℕ → List ℕ → W → Option W
  send_http_message null_buf message w = send_response null_buf (message_response message) w

  unfoldable pub send_http_upload_form : List ℕ → W → Option W
  send_http_upload_form null_buf w = send_response null_buf form_response w

  unfoldable pub send_http_download_link : List ℕ → List ℕ → W → Option W
  send_http_download_link null_buf filename w = send_http_message null_buf (link_message filename) w

  -- `while (read >= 0 && count < length)`, with the bytes of the file from `count` on; `fread` takes
  -- up to 4095 of them.
  unfoldable pub file_loop : ℕ → List ℕ → W → Option W
  file_loop zero bytes w = none
  file_loop (suc rounds) [] w = some w
  file_loop (suc rounds) (b ∷ bytes) w =
      let buf = take 4095 (b ∷ bytes) in
      write buf w >>= ip_stack_poll >>= file_loop rounds (drop 4095 (b ∷ bytes))

  -- The file is `none` where `fopen` gives NULL.
  unfoldable pub send_http_file : List ℕ → List ℕ → Option (List ℕ) → W → Option W
  send_http_file null_buf filename none w =
      send_http_message null_buf (codes "Unable to find file") w
  send_http_file null_buf filename (some bytes) w =
      let refuse = send_http_message null_buf (codes "File is more than 512MB\n") w in
      let serve =
        write (file_header (length bytes) filename) w
        >>= file_loop fuel bytes
        >>= shutdown_close null_buf in
      if ltb (512 * 1024 * 1024) (length bytes) then refuse else serve
