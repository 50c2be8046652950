-- ===== src/Web/Upload/Header.antt =====
-- The part of an upload that a browser sends, and `parse_http_content` of src/web_server.c on its
-- header and the name in it.
use eth_transfer.Base.{
  ℕ, suc, ◌+◌, ◌-◌, ◌≤◌, ◌<◌, ◌^◌, ◌≡◌, refl, sym, ap, ap₂, ◌∙◌, List, [], ◌∷◌, ◌++◌, drop, length,
  length-append, true, false, ◌||◌, ◌==◌, slt, codes, strstr, if◌then◌else◌, arith, drop-drop,
  drop-append, append_assoc,
}
use eth_transfer.Web.{header_scan_loop, split_header, starts_with, value_loop, header_value}
use eth_transfer.Web.Upload.{done, refused, field_text, drop_last_quote, field_name, find_filename}
use eth_transfer.Web.Upload.Scan.{
  each, is_plain, is_inner, each-append, each-is_inner, is_line, each-is_line, scan_inner,
  scan_line, scan_blank, value_empty, value_found, split_header-append, split_header-two,
  split_header-is_line,
}

drop-piece :
    (buffer xs rest : List ℕ) (i : ℕ)
    → drop i buffer ≡ xs ++ rest
    → drop (i + length xs) buffer ≡ rest
drop-piece buffer xs rest i e =
    drop-drop i (length xs) buffer ∙ ap (λ (t : List ℕ). drop (length xs) t) e ∙ drop-append xs rest

-- The header as a list of its pieces, with two lines that start with C.
abbrev pub lines_of : List ℕ → List ℕ → List ℕ → List ℕ
lines_of first second rest =
    13 ∷ 10 ∷ 67 ∷ (first ++ (13 ∷ 10 ∷ 67 ∷ (second ++ (13 ∷ 10 ∷ 13 ∷ 10 ∷ rest))))

pub header_scan_loop-lines_of :
    (first second rest : List ℕ) (len : ℕ)
    → each is_line first ≡ true
    → each is_line second ≡ true
    → length first + length second + 10 ≤ len
    → header_scan_loop (lines_of first second rest) len len 0 ≡ length first + length second + 10
header_scan_loop-lines_of first second rest len h1 h2 inside =
    let buffer = lines_of first second rest in
    let one = 67 ∷ (first ++ (13 ∷ [])) in
    let two = 67 ∷ (second ++ (13 ∷ [])) in
    let blank = 10 ∷ 13 ∷ 10 ∷ rest in
    let after_one = 10 ∷ 67 ∷ (second ++ (13 ∷ blank)) in
    let at_one : drop 2 buffer ≡ one ++ after_one =
      ap (λ (t : List ℕ). 67 ∷ t) (sym (append_assoc first (13 ∷ []) after_one)) in
    let at_line = drop-piece buffer one after_one 2 at_one in
    let at_two : drop (2 + length one + 1) buffer ≡ two ++ blank =
      drop-piece buffer (10 ∷ []) (67 ∷ (second ++ (13 ∷ blank))) (2 + length one) at_line
      ∙ ap (λ (t : List ℕ). 67 ∷ t) (sym (append_assoc second (13 ∷ []) blank)) in
    let at_blank = drop-piece buffer two blank (2 + length one + 1) at_two in
    let inner1 = each-append is_inner first (13 ∷ []) (each-is_inner first h1) refl in
    let inner2 = each-append is_inner second (13 ∷ []) (each-is_inner second h2) refl in
    let left = len - (2 + length one + 1 + length two + 1) in
    let long1 = length-append first (13 ∷ []) in
    let long2 = length-append second (13 ∷ []) in
    ap (λ (n : ℕ). header_scan_loop buffer len n 0)
      {y = 1 + suc (length one + suc (length two + suc left))} (omega arith)
    ∙ scan_inner buffer len (13 ∷ []) (10 ∷ one ++ after_one)
        (suc (length one + suc (length two + suc left))) 0 (ap (λ (t : List ℕ). 13 ∷ 10 ∷ t) at_one)
        refl
    ∙ scan_line buffer len 67 (length one + suc (length two + suc left)) 1
        (first ++ (13 ∷ after_one)) refl (omega arith) (omega arith)
    ∙ scan_inner buffer len one after_one (suc (length two + suc left)) 2 at_one inner1
    ∙ scan_line buffer len 67 (length two + suc left) (2 + length one) (second ++ (13 ∷ blank))
        at_line (omega arith) (omega arith)
    ∙ scan_inner buffer len two blank (suc left) (2 + length one + 1) at_two inner2
    ∙ scan_blank buffer len left (2 + length one + 1 + length two) rest at_blank (omega arith)
    ∙ omega arith

-- The header behind `split_header`.
abbrev pub split_of : List ℕ → List ℕ → List ℕ → List ℕ
split_of first second rest =
    0 ∷ 0 ∷ 67 ∷ (first ++ (0 ∷ 0 ∷ 67 ∷ (second ++ (0 ∷ 0 ∷ 0 ∷ 0 ∷ rest))))

pub length-lines_of :
    (first second rest : List ℕ)
    → length (lines_of first second rest) ≡ length first + length second + 10 + length rest
length-lines_of first second rest = omega (
  arith,
  length-append first (13 ∷ 10 ∷ 67 ∷ (second ++ (13 ∷ 10 ∷ 13 ∷ 10 ∷ rest))),
  length-append second (13 ∷ 10 ∷ 13 ∷ 10 ∷ rest),
)

pub lines_of-append :
    (first second rest : List ℕ) → lines_of first second [] ++ rest ≡ lines_of first second rest
lines_of-append first second rest =
    ap (λ (t : List ℕ). 13 ∷ 10 ∷ 67 ∷ t)
      (append_assoc first (13 ∷ 10 ∷ 67 ∷ (second ++ (13 ∷ 10 ∷ 13 ∷ 10 ∷ []))) rest
        ∙ ap (λ (t : List ℕ). first ++ (13 ∷ 10 ∷ 67 ∷ t))
            (append_assoc second (13 ∷ 10 ∷ 13 ∷ 10 ∷ []) rest))

pub split_of-append :
    (first second rest : List ℕ) → split_of first second [] ++ rest ≡ split_of first second rest
split_of-append first second rest =
    ap (λ (t : List ℕ). 0 ∷ 0 ∷ 67 ∷ t)
      (append_assoc first (0 ∷ 0 ∷ 67 ∷ (second ++ (0 ∷ 0 ∷ 0 ∷ 0 ∷ []))) rest
        ∙ ap (λ (t : List ℕ). first ++ (0 ∷ 0 ∷ 67 ∷ t))
            (append_assoc second (0 ∷ 0 ∷ 0 ∷ 0 ∷ []) rest))

pub length-split_of :
    (first second : List ℕ) → length (split_of first second []) ≡ length first + length second + 10
length-split_of first second = omega (
  arith,
  length-append first (0 ∷ 0 ∷ 67 ∷ (second ++ (0 ∷ 0 ∷ 0 ∷ 0 ∷ []))),
  length-append second (0 ∷ 0 ∷ 0 ∷ 0 ∷ []),
)

-- `split_header` over a line and what follows it.
split_line :
    (line rest : List ℕ)
    → each is_line line ≡ true
    → split_header (line ++ rest) (length (line ++ rest)) ≡ line ++ split_header rest (length rest)
split_line line rest h =
    split_header-two line rest
    ∙ ap (λ (t : List ℕ). t ++ split_header rest (length rest)) (split_header-is_line line h)

pub split_header-lines_of :
    (first second rest : List ℕ)
    → each is_line first ≡ true
    → each is_line second ≡ true
    → split_header (lines_of first second rest) (length first + length second + 10)
      ≡ split_of first second rest
unfolding split_header
split_header-lines_of first second rest h1 h2 =
    let header = lines_of first second [] in
    let tail2 = second ++ (13 ∷ 10 ∷ 13 ∷ 10 ∷ []) in
    let shorter : length first + length second + 10 ≡ length header =
      omega (arith, length-lines_of first second []) in
    ap₂ split_header (sym (lines_of-append first second rest)) shorter
    ∙ split_header-append header rest
    ∙ ap (λ (t : List ℕ). t ++ rest)
        (ap (λ (t : List ℕ). 0 ∷ 0 ∷ 67 ∷ t)
          (split_line first (13 ∷ 10 ∷ 67 ∷ tail2) h1
            ∙ ap (λ (t : List ℕ). first ++ (0 ∷ 0 ∷ 67 ∷ t))
                (split_line second (13 ∷ 10 ∷ 13 ∷ 10 ∷ []) h2)))
    ∙ split_of-append first second rest

-- The value of the first line behind the two that `split_header` leaves empty, for a key that starts
-- with C.
header_value-split_of :
    (key first second rest : List ℕ) (len : ℕ)
    → length key + 3 < len
    → starts_with key (first ++ (0 ∷ 0 ∷ 67 ∷ (second ++ (0 ∷ 0 ∷ 0 ∷ 0 ∷ rest)))) ≡ true
    → header_value (split_of first second rest) len (67 ∷ key) ≡ length key + 3
unfolding header_value starts_with
header_value-split_of key first second rest len long found =
    let buffer = split_of first second rest in
    let body = 67 ∷ (first ++ (0 ∷ 0 ∷ 67 ∷ (second ++ (0 ∷ 0 ∷ 0 ∷ 0 ∷ rest)))) in
    let bound = len - suc (length key) in
    value_empty buffer len (67 ∷ key) len bound 0 (0 ∷ body) refl (omega arith) refl
    ∙ ap (λ (n : ℕ). value_loop n buffer bound (67 ∷ key) (0 + 1)) {y = suc (suc (len - 2))}
        (omega arith)
    ∙ value_empty buffer len (67 ∷ key) (suc (len - 2)) bound (0 + 1) body refl (omega arith) refl
    ∙ value_found buffer len (67 ∷ key) (len - 2) bound (0 + 1 + 1) (omega arith) found
    ∙ omega arith

-- The name in the field, up to the quote behind it.
field_text-plain :
    (name rest : List ℕ)
    → each is_plain name ≡ true
    → field_text (name ++ (b'"' ∷ 0 ∷ rest)) ≡ name ++ (b'"' ∷ [])
field_text-plain [] rest h = refl
field_text-plain (b ∷ name) rest h =
    let inside : (b == 0 || b == b';') ≡ false = ground arith in
    rw inside (ap (λ (t : List ℕ). b ∷ t) (field_text-plain name rest (ground arith)))

drop_last_quote-append : (name : List ℕ) → drop_last_quote (name ++ (b'"' ∷ [])) ≡ name
drop_last_quote-append [] = refl
drop_last_quote-append (b ∷ []) = refl
drop_last_quote-append (b ∷ c ∷ name) =
    ap (λ (t : List ℕ). b ∷ t) (drop_last_quote-append (c ∷ name))

-- The two lines of the part, behind their first letter.
abbrev pub first_line : List ℕ → List ℕ
first_line name =
    codes "ontent-Disposition: form-data; name=\"uploadfile\"; filename=\"" ++ (name ++ codes "\"")

abbrev pub second_line : List ℕ → List ℕ
second_line kind = codes "ontent-Type: " ++ kind

pub first_line-is_line :
    (name : List ℕ) → each is_plain name ≡ true → each is_line (first_line name) ≡ true
first_line-is_line name plain =
    each-append is_line (codes "ontent-Disposition: form-data; name=\"uploadfile\"; filename=\"")
      (name ++ codes "\"") refl
      (each-append is_line name (codes "\"") (each-is_line name plain) refl)

pub second_line-is_line :
    (kind : List ℕ) → each is_line kind ≡ true → each is_line (second_line kind) ≡ true
second_line-is_line kind plain = each-append is_line (codes "ontent-Type: ") kind refl plain

pub find_filename-name :
    (name kind rest : List ℕ) (content_length : ℕ)
    → each is_plain name ≡ true
    → length name + length kind + 100 < 2 ^ 31
    → find_filename (record {
      header = split_of (first_line name) (second_line kind) rest;
      content_header = length (first_line name) + length (second_line kind) + 10;
      content_length = content_length;
    })
      ≡ done name
unfolding find_filename starts_with
find_filename-name name kind rest content_length plain small =
    let buffer = split_of (first_line name) (second_line kind) rest in
    let len = length (first_line name) + length (second_line kind) + 10 in
    let found : header_value buffer len (codes "Content-Disposition: ") ≡ 23 =
      header_value-split_of (codes "ontent-Disposition: ") (first_line name) (second_line kind) rest
        len (omega arith) refl in
    let behind = 0 ∷ 67 ∷ (second_line kind ++ (0 ∷ 0 ∷ 0 ∷ 0 ∷ rest)) in
    ap
      (λ (i : ℕ).
        if slt i 0
        then refused (codes "No Content-Disposition found in content header")
        else field_name (strstr (drop i buffer) (codes "filename=")))
      found
    ∙ ap (λ (t : List ℕ). done (drop_last_quote (field_text t)))
        (append_assoc name (b'"' ∷ []) (0 ∷ behind))
    ∙ ap (λ (t : List ℕ). done (drop_last_quote t)) (field_text-plain name behind plain)
    ∙ ap done (drop_last_quote-append name)
