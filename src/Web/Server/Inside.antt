-- ===== src/Web/Server/Inside.antt =====
-- The read buffer of the web server, over its loop.
use eth_transfer.Base.{
  ℕ, zero, suc, ◌+◌, ◌*◌, ◌^◌, ◌≤◌, ◌<◌, ◌≡◌, refl, sym, ◌∙◌, length-set, ltb, drop, sub32, add32,
  >>=-eq-some, ap, List, [], ◌∷◌, length, Bool, true, false, ◌==◌, slt, sle, minus_one, Option,
  none, some, some_inj, if◌then◌else◌, ◌>>=◌, >>=-some-eq-some, Bool-cases, ◌⊎◌, inl, inr, arith,
}
use mathlib.Core.Path.{subst}
use eth_transfer.Tcp.{TcpConnection}
use eth_transfer.Tcp.Api.{Read}
use eth_transfer.Tcp.Api.Sizes.{IsRead}
use eth_transfer.Web.{header_scan_loop, blank_at, header_scan, split_header}
use eth_transfer.Web.Upload.{Parse, refused, done, Saved}
use eth_transfer.Web.Request.{Request, form, link, file, message, upload, neither}
use eth_transfer.Web.Limits.{FitsBuffer}
use eth_transfer.Web.Server.{
  Server, Host, answered, finish_upload, store_end, parse_stored, parse_upload, check_content,
  answer,
}

-- The header that was found and the length that is required, if any, against the bytes read so far.
abbrev pub IsParsed : ℕ → Server → Type 0
IsParsed max_size s =
    ((s.http_header ≡ minus_one) × (s.required_length ≡ minus_one))
    ⊎ ((s.http_header ≤ s.read_count)
        × ((s.required_length ≡ minus_one)
            ⊎ ((s.http_header ≤ s.required_length) × (s.required_length < max_size))))

-- What is read fits into the buffer of `max_size` bytes, the header is part of what was read, and the
-- place of the 0 behind an upload is in the buffer.
pub record InBuffer (max_size : ℕ) (s : Server) : Type 0 where
  pub count : s.read_count ≤ max_size
  pub room : length s.read_buffer ≡ max_size
  pub parsed : IsParsed max_size s

InBuffer-answered :
    (max_size : ℕ) (complete : Bool) (s : Server)
    → InBuffer max_size s
    → InBuffer max_size (answered complete s)
InBuffer-answered max_size complete s h = record {
  count = h.count;
  room = h.room;
  parsed = h.parsed;
}

pub length-split_header :
    (buffer : List ℕ) (len : ℕ) → length (split_header buffer len) ≡ length buffer
unfolding split_header
length-split_header [] len = refl
length-split_header (b ∷ buffer) zero = refl
length-split_header (b ∷ buffer) (suc len) = ap suc (length-split_header buffer len)

length-store_end :
    (buffer : List ℕ) (n : ℕ) (stored : List ℕ)
    → store_end buffer n ≡ some stored
    → length stored ≡ length buffer
length-store_end buffer n stored e = elim (Bool-cases (ltb n (length buffer))) [
  | inl inside ↦ ap length (sym (some_inj (sym (rw inside refl) ∙ e))) ∙ length-set buffer n 0
  | inr outside ↦ absurd (ground arith)
]

pub none_required :
    (max_size : ℕ) (s : Server)
    → InBuffer max_size s
    → max_size < 2 ^ 30
    → s.http_header ≡ minus_one
    → s.required_length ≡ minus_one
none_required max_size s h small unparsed = elim h.parsed [
  | inl both ↦ both.1
  | inr found ↦ absurd (omega (arith, found.0, unparsed, h.count))
]

-- A read leaves the count inside the buffer.
pub count_le :
    (max_size : ℕ) (s : Server) (got : Read)
    → InBuffer max_size s
    → max_size < 2 ^ 30
    → IsRead (length (drop s.read_count s.read_buffer)) (sub32 max_size s.read_count) got
    → (if sle 0 got.result then add32 s.read_count got.result else s.read_count) ≤ max_size
count_le max_size s got h small is_read = elim is_read.1 [
  | inl failed ↦ rw failed h.count
  | inr few ↦ elim (Bool-cases (sle 0 got.result)) [
    | inl good ↦ rw good (omega (arith, few, h.count))
    | inr failed ↦ rw failed h.count
  ]
]

-- A chain that ends with this server.
pub chain_end :
    {W : Type 0} (m : Option W) (t : Server) (r : Server × W)
    → (m >>= (λ v. some (t, v))) ≡ some r
    → t ≡ r.0
chain_end m t r e = ap (λ (q : Server × _). q.0) (>>=-some-eq-some m (λ v. (t, v)) e).2

header_scan_loop-le :
    (buffer : List ℕ) (len left i : ℕ)
    → i + left ≤ len
    → (header_scan_loop buffer len left i ≡ minus_one) ⊎ (header_scan_loop buffer len left i ≤ len)
unfolding header_scan_loop
header_scan_loop-le buffer len zero i inside = inl refl
header_scan_loop-le buffer len (suc left) i inside =
    let rest = header_scan_loop-le buffer len left (i + 1) (omega arith) in
    elim (Bool-cases (blank_at buffer len i == 0)) [
      | inl skip ↦ rw skip rest
      | inr here ↦ rw here (inr (ground arith))
    ]

-- A header that is found lies in what was read.
pub header_scan-le :
    (buffer : List ℕ) (len : ℕ)
    → len < 2 ^ 31
    → (header_scan buffer len == minus_one) ≡ false
    → header_scan buffer len ≤ len
unfolding header_scan
header_scan-le buffer len small =
    let natural : slt len 0 ≡ false = ground arith in
    rw natural (elim (Bool-cases (slt (1024 * 1024) len)) [
      | inl long ↦ rw long (within (1024 * 1024) (ground arith))
      | inr short ↦ rw short (within len (omega arith))
    ])
  where
    within :
        (bound : ℕ)
        → bound ≤ len
        → (header_scan_loop buffer bound bound 0 == minus_one) ≡ false
        → header_scan_loop buffer bound bound 0 ≤ len
    within bound less found = elim (header_scan_loop-le buffer bound bound 0 (omega arith)) [
      | inl missed ↦ absurd (ground arith)
      | inr inside ↦ omega arith
    ]

pub round_cases :
    {A : Type 0} (closed exhausted : Bool) (a : A) (more : Option A) (r : A)
    → (if closed then some a else if exhausted then none else more) ≡ some r
    → (a ≡ r) ⊎ ((exhausted ≡ false) × (more ≡ some r))
round_cases true exhausted a more r e = inl (some_inj e)
round_cases false true a more r e = cc
round_cases false false a more r e = inr (refl, e)

module _ {W : Type 0} (get_conn : W → TcpConnection) (put_conn : TcpConnection → W → W)
    (ip_stack_poll : W → Option W) (save : Saved → W → W) (fuel : ℕ) (null_buf : List ℕ)
    (host : Host) (small : host.max_size < 2 ^ 30) where
  finish_upload-InBuffer :
      (p : Parse Saved) (s : Server) (w : W) (r : Server × W)
      → InBuffer host.max_size s
      → finish_upload get_conn put_conn ip_stack_poll save fuel null_buf host p s w ≡ some r
      → InBuffer host.max_size r.0
  unfolding finish_upload
  finish_upload-InBuffer (refused text) s w r h e =
      subst (InBuffer host.max_size) (chain_end _ (answered false s) r e)
        (InBuffer-answered host.max_size false s h)
  finish_upload-InBuffer (done saved) s w r h e =
      subst (InBuffer host.max_size) (chain_end _ (answered true s) r e)
        (InBuffer-answered host.max_size true s h)

  parse_stored-InBuffer :
      (boundary : Option (List ℕ)) (s : Server) (w : W) (r : Server × W)
      → InBuffer host.max_size s
      → parse_stored get_conn put_conn ip_stack_poll save fuel null_buf host boundary s w ≡ some r
      → InBuffer host.max_size r.0
  unfolding parse_stored
  parse_stored-InBuffer none s w r h e = cc
  parse_stored-InBuffer (some boundary) s w r h e = finish_upload-InBuffer _ s w r h e

  parse_upload-InBuffer :
      (s : Server) (w : W) (r : Server × W)
      → InBuffer host.max_size s
      → parse_upload get_conn put_conn ip_stack_poll save fuel null_buf host s w ≡ some r
      → InBuffer host.max_size r.0
  unfolding parse_upload
  parse_upload-InBuffer s w r h e =
      let (stored, k, rest) = >>=-eq-some (store_end s.read_buffer s.required_length) _ e in
      parse_stored-InBuffer s.boundary (record s { read_buffer = stored }) w r
        (record {
          count = h.count;
          room = length-store_end s.read_buffer s.required_length stored k ∙ h.room;
          parsed = h.parsed;
        })
        rest

  pub check_content-InBuffer :
      (s : Server) (w : W) (r : Server × W)
      → InBuffer host.max_size s
      → check_content get_conn put_conn ip_stack_poll save fuel null_buf host s w ≡ some r
      → InBuffer host.max_size r.0
  unfolding check_content
  check_content-InBuffer s w r h = at (sle s.required_length s.read_count)
    where
      at :
          (test : Bool)
          → (if test
              then parse_upload get_conn put_conn ip_stack_poll save fuel null_buf host s w
              else some (s, w))
            ≡ some r
          → InBuffer host.max_size r.0
      at true e = parse_upload-InBuffer s w r h e
      at false e = subst (λ (q : Server × W). InBuffer host.max_size q.0) (some_inj e) h

  -- The server with the header found, before the answer.
  pub answer-InBuffer :
      (q : Request) (s : Server) (w : W) (r : Server × W)
      → InBuffer host.max_size s
      → s.http_header ≤ s.read_count
      → FitsBuffer host.max_size s.http_header q
      → answer get_conn put_conn ip_stack_poll save fuel null_buf host q s w ≡ some r
      → InBuffer host.max_size r.0
  unfolding answer
  answer-InBuffer form s w r h found fits e =
      subst (InBuffer host.max_size) (chain_end _ (answered false s) r e)
        (InBuffer-answered host.max_size false s h)
  answer-InBuffer link s w r h found fits e =
      subst (InBuffer host.max_size) (chain_end _ (answered false s) r e)
        (InBuffer-answered host.max_size false s h)
  answer-InBuffer file s w r h found fits e =
      subst (InBuffer host.max_size) (chain_end _ (answered true s) r e)
        (InBuffer-answered host.max_size true s h)
  answer-InBuffer (message text) s w r h found fits e =
      subst (InBuffer host.max_size) (chain_end _ (answered false s) r e)
        (InBuffer-answered host.max_size false s h)
  answer-InBuffer (upload required boundary) s w r h found fits e =
      check_content-InBuffer (record s { required_length = required; boundary = some boundary }) w r
        (record { count = h.count; room = h.room; parsed = inr (found, inr fits) }) e
  answer-InBuffer neither s w r h found fits e = check_content-InBuffer s w r h e
