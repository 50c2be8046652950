-- ===== src/Web/Arguments.antt =====
-- The arguments of `main` of src/web_server.c, and what it does before its loop. An exit is its
-- code, an `int` pattern.
pub mod Address
use eth_transfer.Base.{
  ℕ, ◌*◌, List, [], ◌∷◌, length, get_or, drop, Bool, not, ◌==◌, slt, ltb, minus_one, codes,
  same_text, scan_int, Option, none, some, if◌then◌else◌, ◌>>=◌,
}
use eth_transfer.Stack.Address.{pack_ip_addr}

pub record Settings : Type 0 where
  pub max_size : ℕ
  pub ip_addr : ℕ
  pub filename : Option (List ℕ)

pub data Started : Type 0 where
  exited : ℕ → Started
  run : Settings → Started

abbrev pub default_settings : Settings
default_settings = record { max_size = 1 * 1024 * 1024; ip_addr = 0xA9FE1234; filename = none }

-- A number with a dot behind it.
abbrev pub scan_dotted : List ℕ → Option (ℕ × List ℕ)
scan_dotted text =
    scan_int text >>= (λ r. if get_or r.1 0 0 == b'.' then some (r.0, drop 1 r.1) else none)

-- `sscanf(text, "%d.%d.%d.%d", &a, &b, &c, &d)`: `none` where fewer than four fields are read.
unfoldable pub scan_address : List ℕ → Option ℕ
scan_address text = scan_dotted text >>= (λ a. scan_dotted a.1 >>= (λ b.
    scan_dotted b.1 >>= (λ c. scan_int c.1 >>= (λ d. some (pack_ip_addr a.0 b.0 c.0 d.0)))))

unfoldable pub take_filename : List ℕ → Settings → Started
take_filename arg s = go s.filename
  where
    go : Option (List ℕ) → Started
    go none = run (record s { filename = some arg })
    go (some filename) = exited minus_one

-- The tests of `-m`: the limit is compared with the size from before.
abbrev pub take_size : Option (ℕ × List ℕ) → Settings → Started
take_size none s = exited 1
take_size (some number) s =
    if slt (128 * 1024 * 1024) s.max_size
    then exited minus_one
    else run (record s { max_size = number.0 })

abbrev pub then_run : Started → (Settings → Started) → Started
then_run (exited code) f = exited code
then_run (run s) f = f s

-- The loop over `argv`, with the arguments from `argv[j]` on. Behind `-m` the loop goes on to the
-- test of the filename with `argv[j]`.
unfoldable pub args_loop : List (List ℕ) → Settings → Started
args_loop [] s = run s
args_loop (arg ∷ []) s = if same_text arg (codes "-h") then exited 0 else take_filename arg s
args_loop (arg ∷ value ∷ args) s =
    let next = args_loop (value ∷ args) in
    let behind = args_loop args in
    if same_text arg (codes "-h")
    then exited 0
    else if same_text arg (codes "-i")
    then with_address behind (scan_address value)
    else if same_text arg (codes "-m")
    then then_run (then_run (take_size (scan_int value) s) (take_filename arg)) next
    else then_run (take_filename arg s) next
  where
    with_address : (Settings → Started) → Option ℕ → Started
    with_address behind none = exited minus_one
    with_address behind (some addr) = behind (record s { ip_addr = addr })

-- The tests between the arguments and the loop, given what `init_ip`, `malloc` and `fopen` gave.
unfoldable pub start_server : Bool → Bool → Bool → Settings → Started
start_server stack_ready allocated readable s =
    if not stack_ready then exited 1 else if not allocated then exited minus_one else go s.filename
  where
    go : Option (List ℕ) → Started
    go none = run s
    go (some filename) =
        if ltb 100 (length filename)
        then exited minus_one
        else if not readable
        then exited minus_one
        else run s
