-- ===== src/Tests/Uploads.antt =====
-- Requests and uploads of the web server: runs and witnesses.
use eth_transfer.Base.{
  holds_under, ℕ, ◌+◌, ◌≡◌, refl, List, [], ◌∷◌, ◌++◌, length, true, none, codes, arith,
}
use eth_transfer.Web.{
  header_scan, header_scan_loop, split_header, header_value, value_loop, line_end, starts_with,
  find_needle, find_loop, match_loop,
}
use eth_transfer.Web.Upload.{
  done, Saved, find_part, read_header, find_filename, confirm_loop, save_file, parse_http_content,
}
use eth_transfer.Web.Confirm.{IsConfirmed, parse_http_content-IsConfirmed}
use eth_transfer.Web.Needle.{IsAbsent, IsAbsent-holds_under}
use eth_transfer.Web.Upload.Places.{behind, body}
use eth_transfer.Web.Upload.Saves.{part_of, parse_http_content-saves}
use eth_transfer.Web.Request.{
  upload, split_request, request_of, post_request, with_length, with_boundary,
}
use eth_transfer.Web.Limits.{FitsBuffer, request_of-FitsBuffer}

abbrev post_header : List ℕ
post_header =
    codes
      "POST /upload.html HTTP/1.1\r\nContent-Length: 170\r\nContent-Type: multipart/form-data; boundary=XyZ\r\n\r\n"

abbrev post_split : List ℕ
post_split = split_request post_header (length post_header)

request_of-FitsBuffer_example :
    FitsBuffer 4096 (length post_header) (request_of none 4096 post_split (length post_header))
request_of-FitsBuffer_example =
    request_of-FitsBuffer none 4096 post_split (length post_header) (omega arith) (omega arith)

accepted :
    request_of none 4096 post_split (length post_header)
    ≡ upload (170 + length post_header) (codes "XyZ")
unfolding request_of post_request with_length with_boundary header_value value_loop line_end
    starts_with split_header
accepted = refl

abbrev post_content : List ℕ
post_content =
    codes
      "--XyZ\r\nContent-Disposition: form-data; name=\"uploadfile\"; filename=\"a.txt\"\r\nContent-Type: text/plain\r\n\r\nhi\r\n--XyZ--\r\n"

abbrev two_answers : List (List ℕ)
two_answers = codes "maybe\n" ∷ codes "yes\n" ∷ []

abbrev saved_file : Saved
saved_file = record { filename = codes "a.txt"; content = codes "hi" }

uploaded :
    parse_http_content
      (λ name. true)
      two_answers
      (post_header ++ post_content)
      (length post_header)
      (length post_content)
      (codes "XyZ")
    ≡ done saved_file
unfolding parse_http_content find_part read_header find_filename confirm_loop save_file header_scan
    header_scan_loop split_header header_value value_loop line_end starts_with find_needle find_loop
    match_loop
uploaded = refl

parse_http_content-IsConfirmed_example : IsConfirmed 6 two_answers × (true ≡ true)
parse_http_content-IsConfirmed_example =
    parse_http_content-IsConfirmed (λ name. true) two_answers (post_header ++ post_content)
      (length post_header) (length post_content) (codes "XyZ") saved_file uploaded

abbrev part_boundary : List ℕ
part_boundary = codes "XyZ"

abbrev part_content : List ℕ
part_content = part_of (codes "a.txt") (codes "text/plain") (codes "hi")

first_absent :
    IsAbsent (body (codes "--") part_boundary part_content (codes "--\r\n")) part_boundary 3 0 2
unfolding match_loop holds_under
first_absent =
    IsAbsent-holds_under (body (codes "--") part_boundary part_content (codes "--\r\n"))
      part_boundary 2 refl

second_absent :
    IsAbsent
      (behind (codes "--") part_boundary part_content (codes "--\r\n"))
      part_boundary
      3
      0
      (length part_content + 4)
unfolding match_loop holds_under
second_absent =
    IsAbsent-holds_under (behind (codes "--") part_boundary part_content (codes "--\r\n"))
      part_boundary (length part_content + 4) refl

answers_confirm : IsConfirmed 6 two_answers
answers_confirm =
    (codes "maybe\n" ∷ [], codes "yes\n", [], refl, omega arith, (refl, refl, tt), refl, refl)

parse_http_content-saves_example :
    parse_http_content
      (λ name. true)
      two_answers
      (post_header
        ++ body
            (codes "--")
            part_boundary
            (part_of (codes "a.txt") (codes "text/plain") (codes "hi"))
            (codes "--\r\n"))
      (length post_header)
      (length (
        body
          (codes "--")
          part_boundary
          (part_of (codes "a.txt") (codes "text/plain") (codes "hi"))
          (codes "--\r\n")))
      part_boundary
    ≡ done saved_file
parse_http_content-saves_example =
    parse_http_content-saves post_header (codes "--") part_boundary (codes "a.txt")
      (codes "text/plain") (codes "hi") (codes "--\r\n") refl refl (λ name. true) two_answers
      (omega arith) (omega arith) (omega arith) (omega arith) first_absent second_absent
      answers_confirm refl
