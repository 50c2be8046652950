-- ===== src/Tcp/Segments.antt =====
-- `add_segment` of src/ip_stack.c: the data of a segment goes into the receive buffer, and the
-- write position moves over what has become contiguous. `none` is a copy out of range.
pub mod Progress
pub mod Delivery
pub mod Outcome
pub mod FullList
use eth_transfer.Base.{
  ℕ, zero, suc, ◌+◌, List, [], ◌∷◌, ◌++◌, length, get_or, set, Option, none, some, Bool, true,
  false, ◌&&◌, ◌||◌, ltb, leb, ◌==◌, if◌then◌else◌, add32, slt, sle, minus_one,
}
use eth_transfer.Base.{◌>>=◌}
use eth_transfer.Circle.{copy_to_circle_buffer}
use eth_transfer.Tcp.{TcpSegment, TcpConnection, rx_mask, seg_mask}

-- `other.position + other.length` on `uint32_t`
abbrev pub end_of : TcpSegment → ℕ
end_of s = add32 s.position s.length

abbrev pub same_segment : TcpSegment → TcpSegment → Bool
same_segment s t = s.position == t.position && s.length == t.length

-- The first loop from entry `i` on: `none` where the segment is there already (the function
-- returns 0), else the last value of `latest`.
unfoldable pub scan_segments : List TcpSegment → TcpSegment → ℕ → ℕ → Option ℕ
scan_segments [] new i latest = some latest
scan_segments (other ∷ rest) new i latest =
    let found = scan_segments rest new (i + 1) (if leb latest other.position then i else latest) in
    if same_segment other new then none else found

-- One run of the inner `for`: the write position, the entries kept (`j` of them), and `updated`.
pub record Pass : Type 0 where
  pub rx_write : ℕ
  pub kept : List TcpSegment
  pub updated : Bool

abbrev pub keep : TcpSegment → Pass → Pass
keep s p = record p { kept = s ∷ p.kept }

abbrev pub mark : Pass → Pass
mark p = record p { updated = true }

unfoldable pub assemble_pass : ℕ → List TcpSegment → Pass
assemble_pass w [] = record { rx_write = w; kept = []; updated = false }
assemble_pass w (other ∷ rest) =
    let dropped = assemble_pass w rest in
    let joined = mark (assemble_pass (end_of other) rest) in
    let waiting = keep other (assemble_pass w rest) in
    if leb (end_of other) w then dropped else if leb other.position w then joined else waiting

pub record Assembly : Type 0 where
  pub rx_write : ℕ
  pub segments : List TcpSegment
  pub ack_required : ℕ

-- `while (updated)`. `none` says that the fuel ran out.
unfoldable pub assemble_loop : ℕ → Assembly → Option Assembly
assemble_loop zero a = none
assemble_loop (suc fuel) a =
    let p = assemble_pass a.rx_write a.segments in
    let next : Assembly = record {
      rx_write = p.rx_write;
      segments = p.kept;
      ack_required = if p.updated then 1 else a.ack_required;
    } in
    let again = assemble_loop fuel next in if p.updated then again else some next

abbrev pub assemble : TcpConnection → Option (ℕ × TcpConnection)
assemble c = do
  a ←
      assemble_loop (length c.rx_segments + 1)
        (record { rx_write = c.rx_write; segments = c.rx_segments; ack_required = 0 })
  some (a.ack_required, record c { rx_write = a.rx_write; rx_segments = a.segments })

-- `latest_index` is set to -1 and never again: where the list is full the two guards on it decide.
abbrev pub latest_index : ℕ
latest_index = minus_one

abbrev pub replace_latest : List TcpSegment → ℕ → TcpSegment → List TcpSegment
replace_latest segments latest new =
    if ltb new.position (get_or segments latest new).position
    then set segments latest new
    else segments

-- The part behind the copy: the full list first, then the free entry.
unfoldable pub insert_segment : TcpConnection → TcpSegment → ℕ → Option (ℕ × TcpConnection)
insert_segment c new latest =
    if length c.rx_segments == seg_mask
    then (if slt latest_index 0 || sle (length c.rx_segments) latest_index
        then some (0, c)
        else assemble (record c { rx_segments = replace_latest c.rx_segments latest new }))
    else assemble (record c { rx_segments = c.rx_segments ++ (new ∷ []) })

unfoldable pub add_segment : List ℕ → ℕ → ℕ → TcpConnection → Option (ℕ × TcpConnection)
add_segment bytes data_length dest c =
    let new : TcpSegment = record { position = dest; length = data_length } in
    if leb (add32 dest data_length) c.rx_write
    then some (0, c)
    else elim (scan_segments c.rx_segments new 0 0) [
      | none ↦ some (0, c)
      | some latest ↦ do
        rx_buffer ← copy_to_circle_buffer c.rx_buffer rx_mask dest bytes data_length data_length
        insert_segment (record c { rx_buffer = rx_buffer }) new latest
    ]
