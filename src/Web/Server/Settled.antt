-- ===== src/Web/Server/Settled.antt =====
-- Where the loop of src/web_server.c stores the 0 behind an upload: what holds between two rounds.
use eth_transfer.Base.{
  ℕ, ltb, ◌^◌, ◌≤◌, ◌==◌, ◌>>=◌, ◌++◌, length, take, drop, sub32, add32, ◌<◌, ◌≡◌, ◌≢◌, refl, sym,
  ap, List, Bool, true, false, sle, minus_one, Option, none, some, some_inj, if◌then◌else◌,
  >>=-eq-some, ◌⊎◌, inl, inr, arith,
}
use mathlib.Core.Path.{subst}
use eth_transfer.Tcp.{TcpConnection}
use eth_transfer.Tcp.Api.{Read}
use eth_transfer.Tcp.Api.Sizes.{IsRead}
use eth_transfer.Web.{header_scan}
use eth_transfer.Web.Upload.{Parse, refused, done, Saved}
use eth_transfer.Web.Request.{
  Request, form, link, file, message, upload, neither, split_request, request_of,
}
use eth_transfer.Web.Limits.{FitsBuffer, request_of-FitsBuffer}
use eth_transfer.Web.Server.{
  Server, Host, answered, finish_upload, store_end, parse_stored, parse_upload, check_content,
  answer, scan_request, take_read,
}
use eth_transfer.Web.Server.Inside.{InBuffer, chain_end, none_required, count_le, header_scan-le}

-- The place of the 0 is in the buffer, and there is a boundary.
abbrev pub IsUpload : ℕ → Server → Type 0
IsUpload max_size s = (s.required_length < max_size) × (s.boundary ≢ none)

-- No connection is open, or no header was found, or an upload is read.
abbrev pub Settled : ℕ → Server → Type 0
Settled max_size s =
    (s.connection_id ≡ minus_one) ⊎ ((s.http_header ≡ minus_one) ⊎ IsUpload max_size s)

module _ {W : Type 0} (get_conn : W → TcpConnection) (put_conn : TcpConnection → W → W)
    (ip_stack_poll : W → Option W) (save : Saved → W → W) (fuel : ℕ) (null_buf : List ℕ)
    (host : Host) where
  closed_by :
      (complete : Bool) (s : Server) (m : Option W) (r : Server × W)
      → m >>= (λ v. some (answered complete s, v)) ≡ some r
      → r.0.connection_id ≡ minus_one
  closed_by complete s m r e =
      ap (λ (t : Server). t.connection_id) (sym (chain_end m (answered complete s) r e))

  parse_stored-closes :
      (boundary : Option (List ℕ)) (s : Server) (w : W) (r : Server × W)
      → parse_stored get_conn put_conn ip_stack_poll save fuel null_buf host boundary s w ≡ some r
      → r.0.connection_id ≡ minus_one
  unfolding parse_stored finish_upload
  parse_stored-closes none s w r e = cc
  parse_stored-closes (some boundary) s w r e = at _ e
    where
      at :
          (p : Parse Saved)
          → finish_upload get_conn put_conn ip_stack_poll save fuel null_buf host p s w ≡ some r
          → r.0.connection_id ≡ minus_one
      at (refused text) k = closed_by false s _ r k
      at (done saved) k = closed_by true s _ r k

  -- A check of the content ends the connection, or waits for more of an upload.
  pub check_content-cases :
      (s : Server) (w : W) (r : Server × W)
      → check_content get_conn put_conn ip_stack_poll save fuel null_buf host s w ≡ some r
      → (r.0.connection_id ≡ minus_one) ⊎ ((sle s.required_length s.read_count ≡ false) × (s ≡ r.0))
  unfolding check_content parse_upload
  check_content-cases s w r = at (sle s.required_length s.read_count) refl
    where
      at :
          (test : Bool)
          → sle s.required_length s.read_count ≡ test
          → (if test
              then parse_upload get_conn put_conn ip_stack_poll save fuel null_buf host s w
              else some (s, w))
            ≡ some r
          → (r.0.connection_id ≡ minus_one)
            ⊎ ((sle s.required_length s.read_count ≡ false) × (s ≡ r.0))
      at true t k =
          let (stored, _, rest) = >>=-eq-some (store_end s.read_buffer s.required_length) _ k in
          inl (parse_stored-closes s.boundary (record s { read_buffer = stored }) w r rest)
      at false t k = inr (t, ap (λ (q : Server × W). q.0) (some_inj k))

  pub check_content-Settled :
      (s : Server) (w : W) (r : Server × W)
      → IsUpload host.max_size s
      → check_content get_conn put_conn ip_stack_poll save fuel null_buf host s w ≡ some r
      → Settled host.max_size r.0
  check_content-Settled s w r h e = elim (check_content-cases s w r e) [
    | inl closed ↦ inl closed
    | inr (_, same) ↦ subst (Settled host.max_size) same (inr (inr h))
  ]

  -- Without a required length the place of the 0 is in front of the buffer.
  pub answer-neither :
      (s : Server) (w : W)
      → s.required_length ≡ minus_one
      → s.read_count < 2 ^ 30
      → length s.read_buffer < 2 ^ 30
      → answer get_conn put_conn ip_stack_poll save fuel null_buf host neither s w ≡ none
  unfolding answer check_content parse_upload
  answer-neither s w unknown small short =
      let due : sle s.required_length s.read_count ≡ true = ground arith in
      let outside : ltb s.required_length (length s.read_buffer) ≡ false = ground arith in
      rw due (rw outside refl)

  -- Without a required length the check does not go on.
  pub answer-Settled :
      (q : Request) (s : Server) (w : W) (r : Server × W)
      → s.required_length ≡ minus_one
      → s.read_count < 2 ^ 30
      → FitsBuffer host.max_size s.http_header q
      → answer get_conn put_conn ip_stack_poll save fuel null_buf host q s w ≡ some r
      → Settled host.max_size r.0
  unfolding answer
  answer-Settled form s w r unknown small fits e = inl (closed_by false s _ r e)
  answer-Settled link s w r unknown small fits e = inl (closed_by false s _ r e)
  answer-Settled file s w r unknown small fits e = inl (closed_by true s _ r e)
  answer-Settled (message text) s w r unknown small fits e = inl (closed_by false s _ r e)
  answer-Settled (upload required boundary) s w r unknown small fits e =
      check_content-Settled (record s { required_length = required; boundary = some boundary }) w r
        (fits.1, λ n. cc) e
  answer-Settled neither s w r unknown small fits e = elim (check_content-cases s w r e) [
    | inl closed ↦ inl closed
    | inr (waits, _) ↦ absurd (ground arith)
  ]

module _ {W : Type 0} (get_conn : W → TcpConnection) (put_conn : TcpConnection → W → W)
    (ip_stack_poll : W → Option W) (save : Saved → W → W) (fuel : ℕ) (null_buf : List ℕ)
    (host : Host) (small : host.max_size < 2 ^ 30) where
  scan_request-Settled :
      (s : Server) (w : W) (r : Server × W)
      → s.required_length ≡ minus_one
      → s.read_count ≤ host.max_size
      → scan_request get_conn put_conn ip_stack_poll save fuel null_buf host s w ≡ some r
      → Settled host.max_size r.0
  unfolding scan_request
  scan_request-Settled s w r unknown inside e =
      at (header_scan s.read_buffer s.read_count == minus_one) refl e
    where
      split : List ℕ
      split = split_request s.read_buffer (header_scan s.read_buffer s.read_count)

      start : Server
      start = record s { boundary = none; http_header = header_scan s.read_buffer s.read_count }

      at :
          (test : Bool)
          → (header_scan s.read_buffer s.read_count == minus_one) ≡ test
          → (if test
              then some (start, w)
              else answer get_conn put_conn ip_stack_poll save fuel null_buf host
                  (request_of host.filename host.max_size split
                    (header_scan s.read_buffer s.read_count))
                  (record start { read_buffer = split })
                  w)
            ≡ some r
          → Settled host.max_size r.0
      at true t k =
          subst (λ (q : Server × W). Settled host.max_size q.0) (some_inj k)
            (inr (inl (ground arith)))
      at false t k =
          let found = header_scan-le s.read_buffer s.read_count (omega (arith, inside)) t in
          answer-Settled get_conn put_conn ip_stack_poll save fuel null_buf host
            (request_of host.filename host.max_size split (header_scan s.read_buffer s.read_count))
            (record start { read_buffer = split }) w r unknown (omega (arith, inside))
            (request_of-FitsBuffer host.filename host.max_size split
              (header_scan s.read_buffer s.read_count) small (omega (arith, inside, found)))
            k

  pub take_read-Settled :
      (got : Read) (s : Server) (w : W) (r : Server × W)
      → InBuffer host.max_size s
      → (s.connection_id == minus_one) ≡ false
      → Settled host.max_size s
      → IsRead (length (drop s.read_count s.read_buffer)) (sub32 host.max_size s.read_count) got
      → take_read get_conn put_conn ip_stack_poll save fuel null_buf host got s w ≡ some r
      → Settled host.max_size r.0
  unfolding take_read
  take_read-Settled got s w r h opened settled is_read = at (s.http_header == minus_one) refl
    where
      count : ℕ
      count = if sle 0 got.result then add32 s.read_count got.result else s.read_count

      t : Server
      t = record s {
        read_count = count;
        read_buffer = take s.read_count s.read_buffer ++ got.buffer;
      }

      at :
          (test : Bool)
          → (s.http_header == minus_one) ≡ test
          → (if test
              then scan_request get_conn put_conn ip_stack_poll save fuel null_buf host t
                  (put_conn got.conn w)
              else check_content get_conn put_conn ip_stack_poll save fuel null_buf host t
                  (put_conn got.conn w))
            ≡ some r
          → Settled host.max_size r.0
      at true unparsed k =
          scan_request-Settled t (put_conn got.conn w) r
            (none_required host.max_size s h (omega (arith, small)) (ground arith))
            (count_le host.max_size s got h (omega (arith, small)) is_read) k
      at false found k = elim settled [
        | inl closed ↦ absurd (ground arith)
        | inr (inl unparsed) ↦ absurd (ground arith)
        | inr (inr uploads) ↦
            check_content-Settled get_conn put_conn ip_stack_poll save fuel null_buf host t
              (put_conn got.conn w) r uploads k
      ]
