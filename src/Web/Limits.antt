-- ===== src/Web/Limits.antt =====
-- The uploads that `main` of src/web_server.c accepts, and the size of the read buffer.
use eth_transfer.Base.{
  ℕ, ◌+◌, ◌≤◌, ◌<◌, ◌^◌, List, [], ◌∷◌, length, drop, Bool, true, false, ◌==◌, ◌&&◌, slt, sub32,
  add32, codes, has_prefix, strstr, scan_int, get_or, digits_value, is_digit, scan_digits, negated,
  u32, is_space, if◌then◌else◌, ◌*◌, ◌-◌, Option, none, some, minus_one, Bool-cases, inl, inr,
  arith,
}
use eth_transfer.Web.{header_value}
use eth_transfer.Web.Request.{
  Request, file, message, upload, neither, name_of, root_page, get_request, with_boundary,
  with_length, with_number, post_request, request_of,
}

-- The length that an upload asks for lies behind the header and before the last byte of the buffer.
abbrev pub FitsBuffer : ℕ → ℕ → Request → Type 0
FitsBuffer max_size http_header (upload required boundary) =
    (http_header ≤ required) × (required < max_size)
FitsBuffer max_size http_header _ = Unit {0}

root_page-FitsBuffer :
    (filename : Option (List ℕ)) (max_size http_header : ℕ)
    → FitsBuffer max_size http_header (root_page filename)
root_page-FitsBuffer none max_size http_header = tt
root_page-FitsBuffer (some filename) max_size http_header = tt

if-FitsBuffer :
    (test : Bool) (max_size http_header : ℕ) (r s : Request)
    → FitsBuffer max_size http_header r
    → FitsBuffer max_size http_header s
    → FitsBuffer max_size http_header (if test then r else s)
if-FitsBuffer true max_size http_header r s h k = h
if-FitsBuffer false max_size http_header r s h k = k

get_request-FitsBuffer :
    (filename : Option (List ℕ)) (target : List ℕ) (max_size http_header : ℕ)
    → FitsBuffer max_size http_header (get_request filename target)
unfolding get_request
get_request-FitsBuffer filename target max_size http_header =
    let name = name_of filename in
    if-FitsBuffer (has_prefix (codes "/ ") target) max_size http_header (root_page filename) _
      (root_page-FitsBuffer filename max_size http_header)
      (if-FitsBuffer
        (get_or target 0 0 == b'/'
          && has_prefix name (drop 1 target)
          && get_or target (1 + length name) 0 == b' ')
        max_size http_header file (message (codes "File not found\n")) tt tt)

digits_value-lt :
    (text : List ℕ) (value : ℕ) → value < 2 ^ 32 → (digits_value value text).0 < 2 ^ 32
digits_value-lt [] value h = h
digits_value-lt (c ∷ text) value h =
    let rest = digits_value-lt text (u32 (value * 10 + (c - 48))) (omega arith) in
    elim (Bool-cases (is_digit c)) [ inl e ↦ rw e rest | inr e ↦ rw e h ]

-- What `%d` reads is a word.
abbrev IsWord : Option (ℕ × List ℕ) → Type 0
IsWord none = Unit {0}
IsWord (some r) = r.0 < 2 ^ 32

if-IsWord :
    (test : Bool) (r s : Option (ℕ × List ℕ)) → IsWord r → IsWord s → IsWord (if test then r else s)
if-IsWord true r s h k = h
if-IsWord false r s h k = k

scan_digits-IsWord : (text : List ℕ) → IsWord (scan_digits text)
scan_digits-IsWord text =
    if-IsWord (is_digit (get_or text 0 0)) (some (digits_value 0 text)) none
      (digits_value-lt text 0 (omega arith)) tt

negated-IsWord : (r : Option (ℕ × List ℕ)) → IsWord (negated r)
negated-IsWord none = tt
negated-IsWord (some r) = omega arith

scan_int-IsWord : (text : List ℕ) → IsWord (scan_int text)
scan_int-IsWord [] = tt
scan_int-IsWord (c ∷ text) = if-IsWord (is_space c) (scan_int text) _ (scan_int-IsWord text) (
    if-IsWord (c == 43) (scan_digits text) _ (scan_digits-IsWord text) (
      if-IsWord (c == 45) (negated (scan_digits text)) (scan_digits (c ∷ text))
        (negated-IsWord (scan_digits text)) (scan_digits-IsWord (c ∷ text))))

module _ (max_size http_header : ℕ) (small : max_size < 2 ^ 30)
    (inside : http_header ≤ max_size) where
  with_boundary-FitsBuffer :
      (content_length : ℕ) (field : Option (List ℕ))
      → content_length ≤ max_size
      → FitsBuffer max_size http_header (with_boundary max_size http_header content_length field)
  unfolding with_boundary
  with_boundary-FitsBuffer content_length none h = tt
  with_boundary-FitsBuffer content_length (some field) h =
      let required = add32 content_length http_header in
      elim (Bool-cases (slt (sub32 max_size 1) required)) [
        | inl e ↦ rw e tt
        | inr e ↦ rw e (ground arith, ground arith)
      ]

  with_length-FitsBuffer :
      (read_buffer : List ℕ) (content_length : ℕ)
      → content_length < 2 ^ 32
      → FitsBuffer max_size http_header
          (with_length max_size read_buffer http_header content_length)
  unfolding with_length
  with_length-FitsBuffer read_buffer content_length word =
      let content_type = header_value read_buffer http_header (codes "Content-Type: ") in
      elim (Bool-cases (slt content_length 0)) [
        | inl negative ↦ rw negative tt
        | inr natural ↦ rw natural (elim (Bool-cases (slt max_size content_length)) [
          | inl long ↦ rw long tt
          | inr fits ↦ rw fits (
              if-FitsBuffer (content_type == minus_one) max_size http_header
                (message (codes "No content type field found in html post header")) _ tt
                (with_boundary-FitsBuffer content_length
                  (strstr (drop content_type read_buffer) (codes "boundary=")) (ground arith)))
        ])
      ]

  with_number-FitsBuffer :
      (read_buffer : List ℕ) (number : Option (ℕ × List ℕ))
      → IsWord number
      → FitsBuffer max_size http_header (with_number max_size read_buffer http_header number)
  with_number-FitsBuffer read_buffer none h = tt
  with_number-FitsBuffer read_buffer (some number) h = with_length-FitsBuffer read_buffer number.0 h

  post_request-FitsBuffer :
      (read_buffer : List ℕ)
      → FitsBuffer max_size http_header (post_request max_size read_buffer http_header)
  unfolding post_request
  post_request-FitsBuffer read_buffer =
      let content_index = header_value read_buffer http_header (codes "Content-Length: ") in
      let number = scan_int (drop content_index read_buffer) in
      if-FitsBuffer (content_index == minus_one) max_size http_header
        (message (codes "No content length field found in html post header")) _ tt
        (with_number-FitsBuffer read_buffer number
          (scan_int-IsWord (drop content_index read_buffer)))

-- With a maximum size below 2^30, and a header inside the buffer, an upload that is accepted asks
-- for a length that is not below the header and is below the maximum size, whatever the header says:
-- nothing overflows, and the 0 that is stored behind the upload stays in the read buffer.
pub request_of-FitsBuffer :
    (filename : Option (List ℕ)) (max_size : ℕ) (read_buffer : List ℕ) (http_header : ℕ)
    → max_size < 2 ^ 30
    → http_header ≤ max_size
    → FitsBuffer max_size http_header (request_of filename max_size read_buffer http_header)
unfolding request_of
request_of-FitsBuffer filename max_size read_buffer http_header small inside =
    if-FitsBuffer (has_prefix (codes "GET ") read_buffer) max_size http_header
      (get_request filename (drop 4 read_buffer)) _
      (get_request-FitsBuffer filename (drop 4 read_buffer) max_size http_header)
      (if-FitsBuffer (has_prefix (codes "POST ") read_buffer) max_size http_header
        (post_request max_size read_buffer http_header) neither
        (post_request-FitsBuffer max_size http_header small inside read_buffer) tt)
