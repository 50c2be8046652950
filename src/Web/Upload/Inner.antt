-- ===== src/Web/Upload/Inner.antt =====
-- The header and the file between the two boundaries, in `parse_http_content` of src/web_server.c.
use eth_transfer.Base.{
  Bool-cases, inl, inr, ℕ, ◌+◌, ◌*◌, ◌≤◌, ◌<◌, ◌^◌, ◌≡◌, sym, ap, ap₂, ◌∙◌, List, [], ◌∷◌, ◌++◌,
  drop, take, set, length, length-append, Bool, true, false, slt, sub32, arith, drop-append,
  append_assoc, take-append, set-append,
}
use eth_transfer.Web.{header_scan}
use eth_transfer.Web.Upload.{done, Content, scan_content, split_content, save_file}
use eth_transfer.Web.Upload.Scan.{each, is_plain, is_line}
use eth_transfer.Web.Upload.Header.{
  header_scan_loop-lines_of, split_header-lines_of, lines_of-append, length-split_of,
  split_of-append, first_line-is_line, second_line-is_line, lines_of, split_of, first_line,
  second_line,
}

-- The 0 behind the content.
pub placed :
    (front content tail : List ℕ)
    → drop
        (length front)
        (set (front ++ (content ++ (13 ∷ tail))) (length front + length content) 0)
      ≡ content ++ (0 ∷ tail)
placed front content tail =
    let whole = front ++ content in
    ap₂ (λ (t : List ℕ) (i : ℕ). drop (length front) (set t i 0))
      (sym (append_assoc front content (13 ∷ tail))) (sym (length-append front content))
    ∙ ap (λ (t : List ℕ). drop (length front) t) (set-append whole tail 13 0)
    ∙ ap (λ (t : List ℕ). drop (length front) t) (append_assoc front content (0 ∷ tail))
    ∙ drop-append front (content ++ (0 ∷ tail))

header_scan-lines_of :
    (first second rest : List ℕ) (len : ℕ)
    → each is_line first ≡ true
    → each is_line second ≡ true
    → length first + length second + 10 ≤ len
    → length first + length second + 10 ≤ 1024 * 1024
    → len < 2 ^ 31
    → header_scan (lines_of first second rest) len ≡ length first + length second + 10
unfolding header_scan
header_scan-lines_of first second rest len h1 h2 inside bounded small =
    let natural : slt len 0 ≡ false = ground arith in
    rw natural (elim (Bool-cases (slt (1024 * 1024) len)) [
      | inl long ↦
          rw long (header_scan_loop-lines_of first second rest (1024 * 1024) h1 h2 (omega arith))
      | inr short ↦ rw short (header_scan_loop-lines_of first second rest len h1 h2 inside)
    ])

abbrev pub header_length : List ℕ → List ℕ → ℕ
header_length name kind = length (first_line name) + length (second_line kind) + 10

module _ (name kind : List ℕ) (plain_name : each is_plain name ≡ true)
    (plain_kind : each is_line kind ≡ true) where
  pub scan_content-eq :
      (rest : List ℕ) (content_length : ℕ)
      → header_length name kind ≤ content_length
      → header_length name kind ≤ 1024 * 1024
      → content_length < 2 ^ 31
      → scan_content (lines_of (first_line name) (second_line kind) rest) content_length
        ≡ done (record {
          header = split_of (first_line name) (second_line kind) rest;
          content_header = header_length name kind;
          content_length = content_length;
        })
  scan_content-eq rest content_length inside bounded small =
      let h1 = first_line-is_line name plain_name in
      let h2 = second_line-is_line kind plain_kind in
      let natural : slt (header_length name kind) 0 ≡ false = ground arith in
      ap (split_content (lines_of (first_line name) (second_line kind) rest) content_length) (
        header_scan-lines_of (first_line name) (second_line kind) rest content_length h1 h2 inside
          bounded small)
      ∙ rw natural (
          ap
            (λ (t : List ℕ). done (record {
              header = t;
              content_header = header_length name kind;
              content_length = content_length;
            }))
            (split_header-lines_of (first_line name) (second_line kind) rest h1 h2))

  -- What is saved.
  pub saved_content :
      (file tail : List ℕ)
      → take (length file) (
          drop
            (header_length name kind)
            (split_of (first_line name) (second_line kind) (file ++ (0 ∷ tail))))
        ≡ file
  saved_content file tail =
      ap₂ (λ (n : ℕ) (t : List ℕ). take (length file) (drop n t))
        (sym (length-split_of (first_line name) (second_line kind)))
        (sym (split_of-append (first_line name) (second_line kind) (file ++ (0 ∷ tail))))
      ∙ ap (λ (t : List ℕ). take (length file) t)
          (drop-append (split_of (first_line name) (second_line kind) []) (file ++ (0 ∷ tail)))
      ∙ take-append file (0 ∷ tail)

pub save_file-eq :
    (writable : List ℕ → Bool) (c : Content) (name file : List ℕ)
    → writable name ≡ true
    → take (sub32 c.content_length c.content_header) (drop c.content_header c.header) ≡ file
    → save_file writable c name ≡ done (record { filename = name; content = file })
unfolding save_file
save_file-eq writable c name file can_write same =
    rw can_write (ap (λ (t : List ℕ). done (record { filename = name; content = t })) same)

pub lines_of-more :
    (first second rest more : List ℕ)
    → lines_of first second rest ++ more ≡ lines_of first second (rest ++ more)
lines_of-more first second rest more =
    ap (λ (t : List ℕ). t ++ more) (sym (lines_of-append first second rest))
    ∙ append_assoc (lines_of first second []) rest more
    ∙ lines_of-append first second (rest ++ more)
