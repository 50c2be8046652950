-- ===== src/Web/Upload/Saves.antt =====
-- `parse_http_content` of src/web_server.c on the upload that a browser sends.
use eth_transfer.Base.{
  ℕ, ◌+◌, ◌-◌, ◌*◌, ◌≤◌, ◌<◌, ◌^◌, ◌≡◌, refl, sym, ap, ap₂, ◌∙◌, List, ◌∷◌, ◌++◌, drop, take, set,
  length, length-append, Bool, true, sub32, add32, codes, arith, append_assoc,
}
use eth_transfer.Web.Upload.Places.{behind, body, length-behind, length-body, find_part-eq}
use eth_transfer.Web.Needle.{IsAbsent}
use eth_transfer.Web.Upload.{
  Parse, ◌>=>◌, done, Part, Content, scan_content, read_header, find_filename, confirm_loop,
  save_file, parse_http_content,
}
use eth_transfer.Web.Confirm.{IsConfirmed, confirm_loop-IsConfirmed}
use eth_transfer.Web.Upload.Scan.{each, is_plain, is_line}
use eth_transfer.Web.Upload.Header.{
  length-lines_of, lines_of, split_of, first_line, second_line, find_filename-name,
}
use eth_transfer.Web.Upload.Inner.{
  placed, header_length, save_file-eq, lines_of-more, scan_content-eq, saved_content,
}

-- The part that a browser sends: the header with the name of the file and its type, and the file.
abbrev pub part_of : List ℕ → List ℕ → List ℕ → List ℕ
part_of name kind file =
    codes "\r\nContent-Disposition: form-data; name=\"uploadfile\"; filename=\""
    ++ (name ++ (codes "\"\r\nContent-Type: " ++ (kind ++ (codes "\r\n\r\n" ++ file))))

part_of-lines_of :
    (name kind file : List ℕ)
    → part_of name kind file ≡ lines_of (first_line name) (second_line kind) file
part_of-lines_of name kind file =
    ap
      (λ (t : List ℕ).
        codes "\r\nContent-Disposition: form-data; name=\"uploadfile\"; filename=\"" ++ t)
      (sym (
        append_assoc name (codes "\"")
          (codes "\r\nContent-Type: " ++ (kind ++ (codes "\r\n\r\n" ++ file)))))

-- A request with one file, and the memory that it stands in.
module _ (head before boundary name kind file after : List ℕ)
    (plain_name : each is_plain name ≡ true) (plain_kind : each is_line kind ≡ true) where
  abbrev content : List ℕ
  content = part_of name kind file

  abbrev memory : List ℕ
  memory = head ++ body before boundary content after

  read_header-eq :
      length head + length (body before boundary content after) < 2 ^ 31
      → length name + length kind + 200 ≤ 1024 * 1024
      → (begin end : ℕ) → begin ≡ length before + length boundary
      → end ≡ begin + length content
      → read_header memory (length head) (record { begin = begin; end = end })
        ≡ done (record {
          header =
              split_of
                (first_line name)
                (second_line kind)
                (file ++ (0 ∷ 10 ∷ 45 ∷ 45 ∷ (boundary ++ after)));
          content_header = header_length name kind;
          content_length = length content;
        })
  unfolding read_header
  read_header-eq small bounded begin end e1 e2 =
      let front = head ++ (before ++ boundary) in
      let tail = 10 ∷ 45 ∷ 45 ∷ (boundary ++ after) in
      let pieces : memory ≡ front ++ (content ++ (13 ∷ tail)) =
        ap (λ (t : List ℕ). head ++ t) (sym (append_assoc before boundary (content ++ (13 ∷ tail))))
        ∙ sym (append_assoc head (before ++ boundary) (content ++ (13 ∷ tail))) in
      let at_front : length head + begin ≡ length front =
        omega (arith, length-append head (before ++ boundary), length-append before boundary) in
      let fits = length-body before boundary content after in
      let fits' = length-behind before boundary content after in
      let at_end : add32 (length head) end ≡ length front + length content = omega arith in
      let count : sub32 end begin ≡ length content = omega arith in
      let lines = part_of-lines_of name kind file in
      let longer = ap (λ (t : List ℕ). length t) lines in
      let parts = length-lines_of (first_line name) (second_line kind) file in
      let text1 = length-append name (codes "\"") in
      ap₂ scan_content
        (ap (λ (i : ℕ). drop i (set memory (add32 (length head) end) 0)) at_front
          ∙ ap₂ (λ (t : List ℕ) (i : ℕ). drop (length front) (set t i 0)) pieces at_end
          ∙ placed front content tail
          ∙ ap (λ (t : List ℕ). t ++ (0 ∷ tail)) lines
          ∙ lines_of-more (first_line name) (second_line kind) file (0 ∷ tail))
        count
      ∙ scan_content-eq name kind plain_name plain_kind (file ++ (0 ∷ tail)) (length content)
          (omega arith) (omega arith) (omega arith)

  -- With a confirmation within six answers, and a file of that name that can be written, the name and
  -- the bytes of the file that a browser sends are what is saved: a name without `;`, 0 and ends of
  -- lines, any bytes as content in which the boundary does not stand, up to the sizes where an `int`
  -- overflows and where the search for the header gives up.
  pub parse_http_content-saves :
      (writable : List ℕ → Bool) (answers : List (List ℕ))
      → 1 ≤ length boundary
      → 1 ≤ length after
      → length head + length (body before boundary content after) < 2 ^ 31
      → length name + length kind + 200 ≤ 1024 * 1024
      → IsAbsent (body before boundary content after) boundary (length boundary) 0 (length before)
      → IsAbsent
          (behind before boundary content after)
          boundary
          (length boundary)
          0
          (length content + 4)
      → IsConfirmed 6 answers
      → writable name ≡ true
      → parse_http_content writable answers memory
          (length head)
          (length (body before boundary content after))
          boundary
        ≡ done (record { filename = name; content = file })
  unfolding parse_http_content
  parse_http_content-saves writable answers some_boundary some_after small bounded absent1 absent2
        confirmed can_write =
      let begin = length before + length boundary in
      let end = length content + 4 + begin - 4 in
      let tail = 10 ∷ 45 ∷ 45 ∷ (boundary ++ after) in
      let save =
        λ (c : Content) (filename : List ℕ) (consent : Unit {0}). save_file writable c filename in
      let confirm =
        λ (c : Content) (filename : List ℕ). confirm_loop 6 answers >=> save c filename in
      let finish = λ (c : Content). find_filename c >=> confirm c in
      let c : Content = record {
        header = split_of (first_line name) (second_line kind) (file ++ (0 ∷ tail));
        content_header = header_length name kind;
        content_length = length content;
      } in
      let longer = ap (λ (t : List ℕ). length t) (part_of-lines_of name kind file) in
      let parts = length-lines_of (first_line name) (second_line kind) file in
      let fits = length-body before boundary content after in
      let fits' = length-behind before boundary content after in
      let left : sub32 (length content) (header_length name kind) ≡ length file = omega arith in
      ap (λ (p : Parse Part). p >=> read_header memory (length head) >=> finish)
        (find_part-eq before boundary content after head some_boundary some_after small absent1
          absent2)
      ∙ ap (λ (p : Parse Content). p >=> finish)
          (read_header-eq small bounded begin end refl (omega arith))
      ∙ ap (λ (p : Parse (List ℕ)). p >=> confirm c)
          (find_filename-name name kind (file ++ (0 ∷ tail)) (length content) plain_name
            (omega arith))
      ∙ ap (λ (p : Parse (Unit {0})). p >=> save c name)
          (confirm_loop-IsConfirmed 6 answers confirmed)
      ∙ save_file-eq writable c name file can_write (
          ap (λ (n : ℕ). take n (drop c.content_header c.header)) left
          ∙ saved_content name kind plain_name plain_kind file tail)
