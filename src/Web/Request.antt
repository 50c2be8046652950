-- ===== src/Web/Request.antt =====
-- What `main` of src/web_server.c does with the header of a request, as a choice: the branches of
-- its loop from `header_scan` on.
use eth_transfer.Base.{
  ℕ, ◌+◌, ◌-◌, List, [], drop, set, get_or, length, ◌&&◌, ◌==◌, slt, sub32, add32, minus_one, codes,
  c_string, has_prefix, strstr, scan_int, Option, none, some, if◌then◌else◌,
}
use eth_transfer.Web.{split_header, header_value}

-- The upload form, the link to the file, the file, a message, or an upload with its required length
-- and its boundary; `neither` is a request that is no GET and no POST.
pub data Request : Type 0 where
  form link file : Request
  message : List ℕ → Request
  upload : ℕ → List ℕ → Request
  neither : Request

-- `filename == NULL` has length 0.
abbrev pub name_of : Option (List ℕ) → List ℕ
name_of none = []
name_of (some filename) = filename

abbrev pub root_page : Option (List ℕ) → Request
root_page none = form
root_page (some filename) = link

-- The bytes behind "GET ".
unfoldable pub get_request : Option (List ℕ) → List ℕ → Request
get_request filename target =
    let name = name_of filename in
    if has_prefix (codes "/ ") target
    then root_page filename
    else if get_or target 0 0 == b'/'
        && has_prefix name (drop 1 target)
        && get_or target (1 + length name) 0 == b' '
    then file
    else message (codes "File not found\n")

unfoldable pub with_boundary : ℕ → ℕ → ℕ → Option (List ℕ) → Request
with_boundary max_size http_header content_length none =
    message (codes "No boundary field in content type field")
with_boundary max_size http_header content_length (some field) =
    let required_length = add32 content_length http_header in
    if slt (sub32 max_size 1) required_length
    then message (codes "Total length exceeds max size parameter")
    else upload required_length (c_string (drop 9 field))

unfoldable pub with_length : ℕ → List ℕ → ℕ → ℕ → Request
with_length max_size read_buffer http_header content_length =
    let content_type = header_value read_buffer http_header (codes "Content-Type: ") in
    if slt content_length 0
    then message (codes "Negative content length")
    else if slt max_size content_length
    then message (codes "Content length exceeds max size parameter")
    else if content_type == minus_one
    then message (codes "No content type field found in html post header")
    else with_boundary max_size http_header content_length
        (strstr (drop content_type read_buffer) (codes "boundary="))

abbrev pub with_number : ℕ → List ℕ → ℕ → Option (ℕ × List ℕ) → Request
with_number max_size read_buffer http_header none =
    message (codes "Unable to parse content length field")
with_number max_size read_buffer http_header (some number) =
    with_length max_size read_buffer http_header number.0

unfoldable pub post_request : ℕ → List ℕ → ℕ → Request
post_request max_size read_buffer http_header =
    let content_index = header_value read_buffer http_header (codes "Content-Length: ") in
    if content_index == minus_one
    then message (codes "No content length field found in html post header")
    else with_number max_size read_buffer http_header (scan_int (drop content_index read_buffer))

-- The read buffer behind `read_buffer[http_header - 1] = 0` and `split_header`.
abbrev pub split_request : List ℕ → ℕ → List ℕ
split_request read_buffer http_header =
    split_header (set read_buffer (http_header - 1) 0) http_header

unfoldable pub request_of : Option (List ℕ) → ℕ → List ℕ → ℕ → Request
request_of filename max_size read_buffer http_header =
    if has_prefix (codes "GET ") read_buffer
    then get_request filename (drop 4 read_buffer)
    else if has_prefix (codes "POST ") read_buffer
    then post_request max_size read_buffer http_header
    else neither
