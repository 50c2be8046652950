-- ===== src/Tests/Text.antt =====
-- The text functions of the web server: runs and witnesses.
use eth_transfer.Base.{ℕ, ◌-◌, ◌≡◌, refl, List, [], ◌∷◌, length, arith, ◌⊎◌, minus_one}
use eth_transfer.Web.{
  header_scan_loop, find_loop, match_loop, header_scan, header_value, find_needle,
}
use eth_transfer.Web.Blank.{EndsHeader, HasNoBlank, header_scan-EndsHeader}
use eth_transfer.Web.Needle.{IsFirst, IsAbsent, find_needle-IsFirst}
use eth_transfer.Web.Lines.{join, value_at, header_value-value_at}

-- "GET", the end of the line, the blank line, and a byte of content.
abbrev get_text : List ℕ
get_text = 71 ∷ 69 ∷ 84 ∷ 13 ∷ 10 ∷ 13 ∷ 10 ∷ 65 ∷ []

header_scan-EndsHeader_example :
    EndsHeader get_text 8 0 (header_scan get_text 8)
    ⊎ ((header_scan get_text 8 ≡ minus_one) × HasNoBlank get_text 8 0 8)
header_scan-EndsHeader_example = header_scan-EndsHeader get_text 8 (omega arith)

scanned : header_scan get_text 8 ≡ 7
unfolding header_scan header_scan_loop
scanned = refl

find_needle-IsFirst_example :
    IsFirst get_text (84 ∷ 13 ∷ []) 2 0 (8 - 2) (find_needle get_text 8 (84 ∷ 13 ∷ []) 2)
    ⊎ ((find_needle get_text 8 (84 ∷ 13 ∷ []) 2 ≡ minus_one)
        × IsAbsent get_text (84 ∷ 13 ∷ []) 2 0 (8 - 2))
find_needle-IsFirst_example =
    find_needle-IsFirst get_text (84 ∷ 13 ∷ []) 8 2 (omega arith) (omega arith) (omega arith)

-- The needle at the end is not found.
missed : find_needle get_text 8 (10 ∷ 65 ∷ []) 2 ≡ minus_one
unfolding find_needle find_loop match_loop
missed = refl

-- "A: 1" and "B: 2".
abbrev header_lines : List (List ℕ)
header_lines = (65 ∷ 58 ∷ 32 ∷ 49 ∷ []) ∷ [] ∷ (66 ∷ 58 ∷ 32 ∷ 50 ∷ []) ∷ []

header_value-value_at_example :
    header_value (join header_lines) (length (join header_lines)) (66 ∷ 58 ∷ 32 ∷ [])
    ≡ value_at header_lines (66 ∷ 58 ∷ 32 ∷ []) 0
header_value-value_at_example =
    header_value-value_at header_lines (66 ∷ 58 ∷ 32 ∷ [])
      (
        (omega arith, (omega arith, (omega arith, (omega arith, tt)))),
        (tt, ((omega arith, (omega arith, (omega arith, (omega arith, tt)))), tt)),
      )
      (omega arith, (omega arith, (omega arith, tt)))

value_found : value_at header_lines (66 ∷ 58 ∷ 32 ∷ []) 0 ≡ 9
value_found = refl
