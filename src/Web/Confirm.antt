-- ===== src/Web/Confirm.antt =====
-- The question to the user in `parse_http_content` of src/web_server.c.
use eth_transfer.Base.{
  ℕ, zero, suc, ◌<◌, ◌≡◌, refl, sym, ◌∙◌, ap, List, [], ◌∷◌, ◌++◌, length, Bool, true, false, codes,
  has_prefix, inl, inr, arith, ◌⊎◌, if◌then◌else◌, not,
}
use eth_transfer.Web.Upload.{
  Parse, refused, done, ◌>=>◌, Content, Saved, find_part, read_header, find_filename, confirm_loop,
  save_file, parse_http_content,
}

-- Answers that start with neither "no" nor "yes".
abbrev pub EachInvalid : List (List ℕ) → Type 0
EachInvalid [] = Unit {0}
EachInvalid (answer ∷ answers) =
    (has_prefix (codes "no") answer ≡ false)
    × (has_prefix (codes "yes") answer ≡ false)
    × EachInvalid answers

-- Within the first `left` answers there is one that starts with "yes", and those before it start
-- with neither "no" nor "yes".
abbrev pub IsConfirmed : ℕ → List (List ℕ) → Type 0
IsConfirmed left answers =
    (asked : List (List ℕ)) × (consent : List ℕ) × (rest : List (List ℕ)) × (answers
      ≡ asked ++ (consent ∷ rest))
    × (length asked < left)
    × EachInvalid asked
    × (has_prefix (codes "no") consent ≡ false)
    × (has_prefix (codes "yes") consent ≡ true)

pub refused_ne_done {ℓ} : {A : Type ℓ} {text : List ℕ} {a : A} → refused text ≡ done a → ⊥
refused_ne_done e = cc

-- One question.
asked_once :
    (no consent : Bool) (text : List ℕ) (again : Parse (Unit {0}))
    → (if no then refused text else if consent then done tt else again) ≡ done tt
    → (no ≡ false) × ((consent ≡ true) ⊎ ((consent ≡ false) × (again ≡ done tt)))
asked_once true consent text again e = absurd (refused_ne_done e)
asked_once false true text again e = (refl, inl refl)
asked_once false false text again e = (refl, inr (refl, e))

confirm_loop_sound :
    (left : ℕ) (answers : List (List ℕ))
    → confirm_loop left answers ≡ done tt
    → IsConfirmed left answers
unfolding confirm_loop
confirm_loop_sound zero answers e = absurd (refused_ne_done e)
confirm_loop_sound (suc left) [] e = absurd (refused_ne_done e)
confirm_loop_sound (suc left) (answer ∷ answers) e =
    let (no_no, next) =
      asked_once (has_prefix (codes "no") answer) (has_prefix (codes "yes") answer) _
        (confirm_loop left answers) e in
    elim next [
      | inl is_yes ↦ ([], answer, answers, refl, omega arith, tt, no_no, is_yes)
      | inr again ↦
          let (asked, consent, rest, split, few, invalid, last_no, last_yes) =
            confirm_loop_sound left answers again.1 in
          (
            answer ∷ asked,
            consent,
            rest,
            ap (λ (xs : List (List ℕ)). answer ∷ xs) split,
            omega arith,
            (no_no, again.0, invalid),
            last_no,
            last_yes,
          )
    ]

confirm_loop_complete :
    (left : ℕ) (asked : List (List ℕ)) (consent : List ℕ) (rest : List (List ℕ))
    → length asked < left
    → EachInvalid asked
    → has_prefix (codes "no") consent ≡ false
    → has_prefix (codes "yes") consent ≡ true
    → confirm_loop left (asked ++ (consent ∷ rest)) ≡ done tt
unfolding confirm_loop
confirm_loop_complete zero asked consent rest h invalid no_no is_yes = absurd (omega arith)
confirm_loop_complete (suc left) [] consent rest h invalid no_no is_yes = rw no_no (rw is_yes refl)
confirm_loop_complete (suc left) (answer ∷ asked) consent rest h invalid no_no is_yes =
    rw (invalid.0) (
      rw (invalid.1)
        (confirm_loop_complete left asked consent rest (omega arith) invalid.2 no_no is_yes))

pub confirm_loop-IsConfirmed :
    (left : ℕ) (answers : List (List ℕ))
    → IsConfirmed left answers
    → confirm_loop left answers ≡ done tt
confirm_loop-IsConfirmed left answers h =
    let (asked, consent, rest, split, few, invalid, no_no, is_yes) = h in
    ap (confirm_loop left) split
    ∙ confirm_loop_complete left asked consent rest few invalid no_no is_yes

-- A chain of steps that ends has had a first result.
pub >=>-eq-done {ℓ κ} :
    {A : Type ℓ} {B : Type κ} (m : Parse A) (f : A → Parse B) {b : B}
    → (m >=> f) ≡ done b
    → (a : A) × (m ≡ done a) × (f a ≡ done b)
>=>-eq-done (done a) f h = (a, refl, h)
>=>-eq-done (refused text) f h = cc

opened :
    (test : Bool) (text : List ℕ) (r saved : Saved)
    → (if not test then refused text else done r) ≡ done saved
    → (test ≡ true) × (r ≡ saved)
opened true text r saved e = (refl, cc)
opened false text r saved e = absurd (refused_ne_done e)

save_file-writable :
    (writable : List ℕ → Bool) (c : Content) (filename : List ℕ) (saved : Saved)
    → save_file writable c filename ≡ done saved
    → writable saved.filename ≡ true
unfolding save_file
save_file-writable writable c filename saved e =
    let (good, same) = opened (writable filename) _ _ saved e in
    sym (ap (λ (r : Saved). writable r.filename) same) ∙ good

-- Where a file is saved, the user has confirmed it within six answers, the one that confirms is the
-- first that starts with "yes" or "no", and a file of that name could be opened.
pub parse_http_content-IsConfirmed :
    (writable : List ℕ → Bool) (answers : List (List ℕ)) (memory : List ℕ) (at len : ℕ)
    (boundary : List ℕ) (saved : Saved)
    → parse_http_content writable answers memory at len boundary ≡ done saved
    → IsConfirmed 6 answers × (writable saved.filename ≡ true)
unfolding parse_http_content
parse_http_content-IsConfirmed writable answers memory at len boundary saved e =
    let parts = find_part memory at len boundary in
    let save =
      λ (c : Content) (filename : List ℕ) (consent : Unit {0}). save_file writable c filename in
    let confirm = λ (c : Content) (filename : List ℕ). confirm_loop 6 answers >=> save c filename in
    let finish = λ (c : Content). find_filename c >=> confirm c in
    let (c, found, e1) = >=>-eq-done (parts >=> read_header memory at) finish e in
    let (filename, named, e2) = >=>-eq-done (find_filename c) (confirm c) e1 in
    let (consent, confirmed, e3) = >=>-eq-done (confirm_loop 6 answers) (save c filename) e2 in
    (confirm_loop_sound 6 answers confirmed, save_file-writable writable c filename saved e3)
