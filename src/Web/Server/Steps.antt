-- ===== src/Web/Server/Steps.antt =====
-- A round of the loop of src/web_server.c and its read buffer.
use eth_transfer.Base.{
  ℕ, ◌-◌, ◌^◌, ◌≤◌, ◌<◌, ◌≡◌, refl, ◌∙◌, List, ◌++◌, take, drop, set, length, length-append,
  length-take, length-drop, length-set, Bool, true, false, ◌==◌, sle, sub32, add32, minus_one,
  Option, none, some, some_inj, if◌then◌else◌, >>=-eq-some, Bool-cases, inl, inr, arith,
}
use mathlib.Core.Path.{subst}
use eth_transfer.Tcp.{TcpConnection}
use eth_transfer.Tcp.Api.{Read, open_tcp, read_tcp}
use eth_transfer.Tcp.Api.Sizes.{IsRead, read_tcp-IsRead}
use eth_transfer.Web.{header_scan}
use eth_transfer.Web.Upload.{Saved}
use eth_transfer.Web.Request.{split_request, request_of}
use eth_transfer.Web.Limits.{request_of-FitsBuffer}
use eth_transfer.Web.Server.{
  Server, Host, open_server, check_content, answer, scan_request, take_read, serve_round,
}
use eth_transfer.Web.Server.Inside.{
  InBuffer, none_required, count_le, length-split_header, header_scan-le, round_cases,
  check_content-InBuffer, answer-InBuffer,
}

module _ {W : Type 0} (get_conn : W → TcpConnection) (put_conn : TcpConnection → W → W)
    (ip_stack_poll : W → Option W) (save : Saved → W → W) (fuel : ℕ) (null_buf : List ℕ)
    (host : Host) (small : host.max_size < 2 ^ 30) where
  scan_request-InBuffer :
      (s : Server) (w : W) (r : Server × W)
      → InBuffer host.max_size s
      → s.http_header ≡ minus_one
      → scan_request get_conn put_conn ip_stack_poll save fuel null_buf host s w ≡ some r
      → InBuffer host.max_size r.0
  unfolding scan_request
  scan_request-InBuffer s w r h unparsed e = at (header == minus_one) refl e
    where
      header : ℕ
      header = header_scan s.read_buffer s.read_count

      split : List ℕ
      split = split_request s.read_buffer (header_scan s.read_buffer s.read_count)

      start : Server
      start = record s { boundary = none; http_header = header_scan s.read_buffer s.read_count }

      at :
          (test : Bool)
          → (header_scan s.read_buffer s.read_count == minus_one) ≡ test
          → (if test
              then some (start, w)
              else answer get_conn put_conn ip_stack_poll save fuel null_buf host
                  (request_of host.filename host.max_size split
                    (header_scan s.read_buffer s.read_count))
                  (record start { read_buffer = split })
                  w)
            ≡ some r
          → InBuffer host.max_size r.0
      at true t k =
          subst (λ (q : Server × W). InBuffer host.max_size q.0) (some_inj k)
            (record {
              count = h.count;
              room = h.room;
              parsed =
                  inl (
                    (ground arith),
                    none_required host.max_size s h (omega (arith, small)) unparsed,
                  );
            })
      at false t k =
          answer-InBuffer get_conn put_conn ip_stack_poll save fuel null_buf host small
            (request_of host.filename host.max_size split (header_scan s.read_buffer s.read_count))
            (record start { read_buffer = split }) w r
            (record {
              count = h.count;
              room =
                  length-split_header
                    (set s.read_buffer (header_scan s.read_buffer s.read_count - 1) 0)
                    (header_scan s.read_buffer s.read_count)
                  ∙ length-set s.read_buffer (header_scan s.read_buffer s.read_count - 1) 0
                  ∙ h.room;
              parsed = inr (
                header_scan-le s.read_buffer s.read_count (omega (arith, h.count)) t,
                inl (none_required host.max_size s h (omega (arith, small)) unparsed),
              );
            })
            (header_scan-le s.read_buffer s.read_count (omega (arith, h.count)) t)
            (request_of-FitsBuffer host.filename host.max_size split
              (header_scan s.read_buffer s.read_count) small
              (omega (
                arith,
                h.count,
                header_scan-le s.read_buffer s.read_count (omega (arith, h.count)) t,
              )))
            k

  take_read-InBuffer :
      (got : Read) (s : Server) (w : W) (r : Server × W)
      → InBuffer host.max_size s
      → IsRead (length (drop s.read_count s.read_buffer)) (sub32 host.max_size s.read_count) got
      → take_read get_conn put_conn ip_stack_poll save fuel null_buf host got s w ≡ some r
      → InBuffer host.max_size r.0
  unfolding take_read
  take_read-InBuffer got s w r h is_read = at (s.http_header == minus_one) refl
    where
      count : ℕ
      count = if sle 0 got.result then add32 s.read_count got.result else s.read_count

      t : Server
      t = record s {
        read_count = count;
        read_buffer = take s.read_count s.read_buffer ++ got.buffer;
      }

      grows : s.read_count ≤ count
      grows = elim is_read.1 [
        | inl failed ↦ rw failed (omega arith)
        | inr few ↦ elim (Bool-cases (sle 0 got.result)) [
          | inl good ↦ rw good (omega (arith, few, h.count))
          | inr failed ↦ rw failed (omega arith)
        ]
      ]

      t-InBuffer : InBuffer host.max_size t
      t-InBuffer = record {
        count = count_le host.max_size s got h (omega (arith, small)) is_read;
        room = omega (
          arith,
          length-append (take s.read_count s.read_buffer) got.buffer,
          length-take s.read_count s.read_buffer,
          length-drop s.read_count s.read_buffer,
          is_read.0,
          h.room,
          h.count,
        );
        parsed = elim h.parsed [
          | inl unparsed ↦ inl unparsed
          | inr found ↦ inr (omega (arith, found.0, grows), found.1)
        ];
      }

      at :
          (test : Bool)
          → (s.http_header == minus_one) ≡ test
          → (if test
              then scan_request get_conn put_conn ip_stack_poll save fuel null_buf host t
                  (put_conn got.conn w)
              else check_content get_conn put_conn ip_stack_poll save fuel null_buf host t
                  (put_conn got.conn w))
            ≡ some r
          → InBuffer host.max_size r.0
      at true unparsed k =
          scan_request-InBuffer t (put_conn got.conn w) r t-InBuffer (ground arith) k
      at false found k =
          check_content-InBuffer get_conn put_conn ip_stack_poll save fuel null_buf host small t
            (put_conn got.conn w) r t-InBuffer k

  pub serve_round-InBuffer :
      (s : Server) (w : W) (r : Server × W)
      → InBuffer host.max_size s
      → serve_round get_conn put_conn ip_stack_poll save fuel null_buf host s w ≡ some r
      → InBuffer host.max_size r.0
  unfolding serve_round
  serve_round-InBuffer s w r h e =
      let (polled, _, after_poll) = >>=-eq-some (ip_stack_poll w) _ e in
      elim (round_cases (s.connection_id == minus_one) (sle (sub32 host.max_size s.read_count) 0)
        (open_server (open_tcp (get_conn polled)) s, polled) _ r after_poll) [
          | inl same ↦
              subst (λ (q : Server × W). InBuffer host.max_size q.0) same
                (record { count = omega arith; room = h.room; parsed = inl (refl, refl) })
          | inr (room, reading) ↦
              let (got, copied, taken) =
                >>=-eq-some
                  (read_tcp s.connection_id (drop s.read_count s.read_buffer) s.read_count
                    (sub32 host.max_size s.read_count) (get_conn polled))
                  _ reading in
              take_read-InBuffer got s polled r h
                (read_tcp-IsRead s.connection_id (drop s.read_count s.read_buffer) s.read_count
                  (sub32 host.max_size s.read_count) (get_conn polled) got (omega (arith, h.count))
                  copied)
                taken
        ]
