-- ===== src/Web/Upload.antt =====
-- `parse_http_content` of src/web_server.c. Its messages are results; the caller starts over after
-- it, so what it does to the read buffer is kept only as long as it runs.
pub mod Scan
pub mod Header
pub mod Places
pub mod Inner
pub mod Saves
use eth_transfer.Base.{
  ℕ, zero, suc, ◌+◌, List, [], ◌∷◌, drop, take, set, get_or, length, Bool, not, ◌||◌, ◌==◌, slt,
  sub32, add32, minus_one, codes, has_prefix, strstr, Option, none, some, if◌then◌else◌,
}
use eth_transfer.Web.{cr, find_needle, header_scan, split_header, header_value}

-- A step of the function: it returns a message, or goes on.
pub data Parse {ℓ} (A : Type ℓ) : Type ℓ where
  refused : List ℕ → Parse A
  done : A → Parse A

infixl 5 ◌>=>◌
abbrev pub ◌>=>◌ {ℓ κ} : {A : Type ℓ} {B : Type κ} → Parse A → (A → Parse B) → Parse B
refused message >=> f = refused message
done a >=> f = f a

-- The places in the content where the part between the two boundaries begins and ends.
pub record Part : Type 0 where
  pub begin : ℕ
  pub end : ℕ

-- `buffer` starts at byte `at` of the read buffer, `memory`.
abbrev pub part_end : List ℕ → ℕ → ℕ → ℕ
part_end memory at end =
    if get_or memory (add32 at (sub32 end 4)) 0 == cr then sub32 end 4 else sub32 end 3

-- Behind the search for the second boundary.
abbrev pub end_part : List ℕ → ℕ → ℕ → ℕ → Parse Part
end_part memory at begin second =
    if second == minus_one
    then refused (codes "Unable to find second boundary market in header")
    else done (record { begin = begin; end = part_end memory at (add32 second begin) })

-- Behind the search for the first boundary.
abbrev pub second_part : List ℕ → ℕ → ℕ → List ℕ → ℕ → Parse Part
second_part memory at len boundary first =
    let begin = add32 first (length boundary) in
    if first == minus_one
    then refused (codes "Unable to find first boundary marker in header")
    else end_part memory at begin (
        find_needle (drop begin (drop at memory)) (sub32 (sub32 len first) (length boundary))
          boundary (length boundary))

unfoldable pub find_part : List ℕ → ℕ → ℕ → List ℕ → Parse Part
find_part memory at len boundary =
    second_part memory at len boundary (find_needle (drop at memory) len boundary (length boundary))

-- The bytes from `header` on, the length of the header, and of all.
pub record Content : Type 0 where
  pub header : List ℕ
  pub content_header : ℕ
  pub content_length : ℕ

-- With `content_header` found.
abbrev pub split_content : List ℕ → ℕ → ℕ → Parse Content
split_content header content_length content_header =
    if slt content_header 0
    then refused (codes "No header found in content")
    else done (record {
      header = split_header header content_header;
      content_header = content_header;
      content_length = content_length;
    })

abbrev pub scan_content : List ℕ → ℕ → Parse Content
scan_content header content_length =
    split_content header content_length (header_scan header content_length)

unfoldable pub read_header : List ℕ → ℕ → Part → Parse Content
read_header memory at part =
    scan_content (drop (at + part.begin) (set memory (add32 at part.end) 0))
      (sub32 part.end part.begin)

-- Up to the first 0 or `;`.
abbrev pub field_text : List ℕ → List ℕ
field_text [] = []
field_text (b ∷ text) = if b == 0 || b == b';' then [] else b ∷ field_text text

abbrev pub drop_quote : List ℕ → List ℕ
drop_quote [] = []
drop_quote (b ∷ text) = if b == b'"' then text else b ∷ text

-- The text without a quote at its end; where it is empty, the byte in front of it is read, which
-- is not part of it.
abbrev pub drop_last_quote : List ℕ → List ℕ
drop_last_quote [] = []
drop_last_quote (b ∷ []) = if b == b'"' then [] else b ∷ []
drop_last_quote (b ∷ c ∷ text) = b ∷ drop_last_quote (c ∷ text)

abbrev pub field_name : Option (List ℕ) → Parse (List ℕ)
field_name none = refused (codes "No filename field found in Content-Disposition field")
field_name (some field) = done (drop_last_quote (drop_quote (field_text (drop 9 field))))

unfoldable pub find_filename : Content → Parse (List ℕ)
find_filename c =
    let content_disposition =
      header_value c.header c.content_header (codes "Content-Disposition: ") in
    if slt content_disposition 0
    then refused (codes "No Content-Disposition found in content header")
    else field_name (strstr (drop content_disposition c.header) (codes "filename="))

-- The loop that asks, with `left` questions left. The answers are what `fgets` gives, one after
-- the other, and then NULL.
unfoldable pub confirm_loop : ℕ → List (List ℕ) → Parse (Unit {0})
confirm_loop zero answers = refused (codes "Fail count exceed for user confirmation")
confirm_loop (suc left) [] = refused (codes "Failed to query user for confirmation")
confirm_loop (suc left) (user_input ∷ answers) =
    let again = confirm_loop left answers in
    if has_prefix (codes "no") user_input
    then refused (codes "Transfer rejected by user")
    else if has_prefix (codes "yes") user_input
    then done tt
    else again

-- The name and the bytes of the file that is written.
pub record Saved : Type 0 where
  pub filename : List ℕ
  pub content : List ℕ

-- `writable` tells for which names `fopen` gives a file.
unfoldable pub save_file : (List ℕ → Bool) → Content → List ℕ → Parse Saved
save_file writable c filename =
    if not (writable filename)
    then refused (codes "Unable to open file for writing")
    else done (record {
      filename = filename;
      content = take (sub32 c.content_length c.content_header) (drop c.content_header c.header);
    })

unfoldable pub parse_http_content :
    (List ℕ → Bool) → List (List ℕ) → List ℕ → ℕ → ℕ → List ℕ → Parse Saved
parse_http_content writable answers memory at len boundary =
    find_part memory at len boundary >=> read_header memory at >=> (λ c.
      find_filename c
      >=> (λ filename. confirm_loop 6 answers >=> (λ yes. save_file writable c filename)))
