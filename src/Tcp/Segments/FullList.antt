-- ===== src/Tcp/Segments/FullList.antt =====
-- `add_segment` on a full list of entries.
use eth_transfer.Base.{
  ℕ, ◌^◌, ◌≤◌, ◌<◌, ◌≡◌, refl, ◌⊎◌, inl, inr, List, length, none, some, false, leb, add32, arith,
  Bool-cases, Option-cases,
}
use eth_transfer.Circle.Positions.{IsStored, copy_to_circle_buffer-IsStored}
use eth_transfer.Circle.{copy_to_circle_buffer}
use eth_transfer.Tcp.{TcpConnection, rx_mask, seg_mask, max_segment}
use eth_transfer.Tcp.Segments.{insert_segment, add_segment, scan_segments}
use eth_transfer.Tcp.Segments.Delivery.{new_segment}

-- With 31 entries waiting, no segment moves the write position any more, the one that would fill
-- the gap included: every call returns 0 and keeps the entries and the write position.
pub add_segment-full_list :
    (c : TcpConnection) (bytes : List ℕ) (n dest : ℕ)
    → length c.rx_segments ≡ seg_mask
    → length c.rx_buffer ≡ 8192
    → n ≤ length bytes
    → n ≤ max_segment
    → dest < 2 ^ 32
    → (out : ℕ × TcpConnection) × (add_segment bytes n dest c ≡ some out)
      × (out.0 ≡ 0)
      × (out.1.rx_write ≡ c.rx_write)
      × (out.1.rx_segments ≡ c.rx_segments)
unfolding add_segment insert_segment
add_segment-full_list c bytes n dest full size fits short word =
    elim (Bool-cases (leb (add32 dest n) c.rx_write)) [
      | inl old ↦ ((0, c), ground arith, refl, refl, refl)
      | inr fresh ↦
          at_entry fresh (Option-cases (scan_segments c.rx_segments (new_segment dest n) 0 0))
    ]
  where
    kept :
        (out : List ℕ) × (copy_to_circle_buffer c.rx_buffer rx_mask dest bytes n n ≡ some out)
        × IsStored c.rx_buffer dest bytes n out
    kept = copy_to_circle_buffer-IsStored c.rx_buffer dest bytes n size word fits (omega arith)

    at_entry :
        leb (add32 dest n) c.rx_write ≡ false
        → ((scan_segments c.rx_segments (new_segment dest n) 0 0 ≡ none)
            ⊎ ((latest : ℕ) × (scan_segments c.rx_segments (new_segment dest n) 0 0 ≡ some latest)))
        → (out : ℕ × TcpConnection) × (add_segment bytes n dest c ≡ some out)
          × (out.0 ≡ 0)
          × (out.1.rx_write ≡ c.rx_write)
          × (out.1.rx_segments ≡ c.rx_segments)
    at_entry fresh (inl e) = ((0, c), ground arith, refl, refl, refl)
    at_entry fresh (inr (latest, e)) =
        ((0, record c { rx_buffer = kept.0 }), ground (arith, kept.1), refl, refl, refl)
