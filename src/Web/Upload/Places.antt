-- ===== src/Web/Upload/Places.antt =====
-- The two places of the boundary in `parse_http_content` of src/web_server.c.
use mathlib.Core.Path.{subst}
use eth_transfer.Base.{
  ℕ, ◌+◌, ◌-◌, ◌≤◌, ◌<◌, ◌^◌, ◌≡◌, sym, ap, ap₂, ◌∙◌, List, ◌++◌, drop, get_or, length,
  length-append, false, ◌==◌, get_or-drop, sub32, add32, minus_one, codes, arith, drop-drop,
  drop-append, append_assoc, get_or-append_right,
}
use eth_transfer.Web.{find_needle}
use eth_transfer.Web.Needle.{IsAbsent, StandsAt}
use eth_transfer.Web.Upload.{done, end_part, second_part, find_part}
use eth_transfer.Web.Upload.Scan.{find_needle-at, needle-StandsAt}

end_part-eq :
    (memory : List ℕ) (at begin second : ℕ)
    → 4 ≤ second
    → at + second + begin < 2 ^ 31
    → get_or memory (at + (second + begin - 4)) 0 ≡ 13
    → end_part memory at begin second ≡ done (record { begin = begin; end = second + begin - 4 })
end_part-eq memory at begin second low small cr_there =
    let found : (second == minus_one) ≡ false = ground arith in
    let end : sub32 (add32 second begin) 4 ≡ second + begin - 4 = omega arith in
    let place : add32 at (sub32 (add32 second begin) 4) ≡ at + (second + begin - 4) = omega arith in
    let there : get_or memory (add32 at (sub32 (add32 second begin) 4)) 0 ≡ 13 =
      ap (λ (i : ℕ). get_or memory i 0) place ∙ cr_there in
    rw found (rw there (ap (λ (e : ℕ). done (record { begin = begin; end = e })) end))

second_part-eq :
    (memory : List ℕ) (at len : ℕ) (boundary : List ℕ) (first : ℕ)
    → first + length boundary ≤ len
    → len < 2 ^ 31
    → second_part memory at len boundary first
      ≡ end_part memory at (first + length boundary) (
          find_needle
            (drop (first + length boundary) (drop at memory))
            (len - first - length boundary)
            boundary
            (length boundary))
second_part-eq memory at len boundary first inside small =
    let found : (first == minus_one) ≡ false = ground arith in
    let n = length boundary in
    let begin : add32 first n ≡ first + n = omega arith in
    let left : sub32 (sub32 len first) n ≡ len - first - n = omega arith in
    rw found (
      ap₂ (λ (b k : ℕ). end_part memory at b (find_needle (drop b (drop at memory)) k boundary n))
        begin left)

-- The two places of the boundary.
module _ (before boundary content after : List ℕ) where
  abbrev pub behind : List ℕ
  behind = content ++ (codes "\r\n--" ++ (boundary ++ after))

  abbrev pub body : List ℕ
  body = before ++ (boundary ++ behind)

  pub length-behind : length behind ≡ length content + 4 + length boundary + length after
  length-behind = omega (
    arith,
    length-append content (codes "\r\n--" ++ (boundary ++ after)),
    length-append boundary after,
  )

  pub length-body : length body ≡ length before + length boundary + length behind
  length-body =
      omega (arith, length-append before (boundary ++ behind), length-append boundary behind)

  drop-body : drop (length before + length boundary) body ≡ behind
  drop-body =
      drop-drop (length before) (length boundary) body
      ∙ ap (λ (t : List ℕ). drop (length boundary) t) (drop-append before (boundary ++ behind))
      ∙ drop-append boundary behind

  cr_in_body : get_or body (length before + length boundary + length content) 0 ≡ 13
  cr_in_body =
      ap (λ (i : ℕ). get_or body i 0) {y = length before + length boundary + (length content + 0)}
        (omega arith)
      ∙ sym (get_or-drop (length before + length boundary) body (length content + 0) 0)
      ∙ ap (λ (t : List ℕ). get_or t (length content + 0) 0) drop-body
      ∙ sym (get_or-drop (length content) behind 0 0)
      ∙ ap (λ (t : List ℕ). get_or t 0 0)
          (drop-append content (codes "\r\n--" ++ (boundary ++ after)))

  second_stands : StandsAt behind boundary (length boundary) (length content + 4)
  second_stands =
      let dashes = codes "\r\n--" in
      let pieces = append_assoc content dashes (boundary ++ after) in
      let place : length (content ++ dashes) ≡ length content + 4 =
        omega (arith, length-append content dashes) in
      subst (λ (t : List ℕ). StandsAt t boundary (length boundary) (length content + 4)) pieces
        (subst
          (λ (i : ℕ).
            StandsAt ((content ++ dashes) ++ (boundary ++ after)) boundary (length boundary) i)
          place (needle-StandsAt (content ++ dashes) boundary after))

  pub find_part-eq :
      (head : List ℕ)
      → 1 ≤ length boundary
      → 1 ≤ length after
      → length head + length body < 2 ^ 31
      → IsAbsent body boundary (length boundary) 0 (length before)
      → IsAbsent behind boundary (length boundary) 0 (length content + 4)
      → find_part (head ++ body) (length head) (length body) boundary
        ≡ done (record {
          begin = length before + length boundary;
          end = length content + 4 + (length before + length boundary) - 4;
        })
  unfolding find_part
  find_part-eq head some_boundary some_after small absent1 absent2 =
      let memory = head ++ body in
      let at = length head in
      let n = length boundary in
      let len = length body in
      let at_body = drop-append head body in
      let first : find_needle (drop at memory) len boundary n ≡ length before =
        ap (λ (t : List ℕ). find_needle t len boundary n) at_body
        ∙ find_needle-at body boundary len (length before) some_boundary (omega arith)
            (omega (arith, length-body, length-behind)) (needle-StandsAt before boundary behind)
            absent1 in
      let rest : drop (length before + n) (drop at memory) ≡ behind =
        ap (λ (t : List ℕ). drop (length before + n) t) at_body ∙ drop-body in
      let second : find_needle (drop (length before + n) (drop at memory)) (len - length before - n)
            boundary n
          ≡ length content + 4 =
        ap (λ (t : List ℕ). find_needle t (len - length before - n) boundary n) rest
        ∙ find_needle-at behind boundary (len - length before - n) (length content + 4)
            some_boundary (omega arith) (omega (arith, length-body, length-behind)) second_stands
            absent2 in
      ap (second_part memory at len boundary) first
      ∙ second_part-eq memory at len boundary (length before) (omega (arith, length-body))
          (omega arith)
      ∙ ap (end_part memory at (length before + n)) second
      ∙ end_part-eq memory at (length before + n) (length content + 4) (omega arith)
          (omega (arith, length-body, length-behind))
          (get_or-append_right head body (at + (length content + 4 + (length before + n) - 4)) 0
              (omega arith)
            ∙ ap (λ (i : ℕ). get_or body i 0) {y = length before + n + length content} (omega arith)
            ∙ cr_in_body)
