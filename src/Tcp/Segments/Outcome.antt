-- ===== src/Tcp/Segments/Outcome.antt =====
-- `add_segment` as a whole: what it delivers, when it moves the write position, and what a full
-- list of entries does.
use eth_transfer.Base.{
  ℕ, ◌+◌, ◌≤◌, ◌<◌, ◌≡◌, ◌≢◌, refl, ap, ◌∙◌, ◌⊎◌, inl, inr, List, [], ◌∷◌, ◌++◌, length, none, some,
  true, false, leb, if◌then◌else◌, add32, arith, Option-cases,
}
use native.Mathlib.Decide.{ℕ_discrete, dec_lt}
use eth_transfer.Circle.Positions.{IsStored, copy_to_circle_buffer-IsStored}
use eth_transfer.Circle.{copy_to_circle_buffer}
use eth_transfer.Tcp.{TcpSegment, TcpConnection, rx_mask, seg_mask}
use eth_transfer.Tcp.Segments.{Assembly, assemble, insert_segment, add_segment, scan_segments}
use eth_transfer.Tcp.Segments.Progress.{covers, covered, IsAssembled}
use eth_transfer.Tcp.Segments.Delivery.{
  Holds, Sends, new_segment, with_entry-Holds, Holds-stored, assemble-Holds, insert_segment-full,
  insert_segment-free, covered-append,
}

-- A segment that the list has already covers what the new one covers.
covered-duplicate :
    (ss : List TcpSegment) (new : TcpSegment) (i latest p : ℕ)
    → scan_segments ss new i latest ≡ none
    → covers new p ≡ true
    → covered ss p ≡ true
unfolding scan_segments
covered-duplicate [] new i latest p e k = cc
covered-duplicate (s ∷ ss) new i latest p e k =
    ground (arith, covered-duplicate ss new (i + 1) (if leb latest s.position then i else latest) p)

module _ (bytes : List ℕ) (n dest : ℕ) (c : TcpConnection) where
  add_segment-old : add32 dest n ≤ c.rx_write → add_segment bytes n dest c ≡ some (0, c)
  unfolding add_segment
  add_segment-old old = ground arith

  add_segment-duplicate :
      c.rx_write < add32 dest n
      → scan_segments c.rx_segments (new_segment dest n) 0 0 ≡ none
      → add_segment bytes n dest c ≡ some (0, c)
  unfolding add_segment
  add_segment-duplicate fresh e = ground arith

  add_segment-new :
      (latest : ℕ) (buffer : List ℕ)
      → c.rx_write < add32 dest n
      → scan_segments c.rx_segments (new_segment dest n) 0 0 ≡ some latest
      → copy_to_circle_buffer c.rx_buffer rx_mask dest bytes n n ≡ some buffer
      → add_segment bytes n dest c
        ≡ insert_segment (record c { rx_buffer = buffer }) (new_segment dest n) latest
  unfolding add_segment
  add_segment-new latest buffer fresh e k = ground arith

-- What the peer's segment leaves behind.
pub record Delivered (stream : ℕ → ℕ) (c : TcpConnection) (out : ℕ × TcpConnection) : Type 0 where
  pub holds : Holds stream out.1
  pub forward : c.rx_write ≤ out.1.rx_write
  pub same_read : out.1.rx_read ≡ c.rx_read
  pub stops :
      covered c.rx_segments c.rx_write ≡ false → covered out.1.rx_segments out.1.rx_write ≡ false

Delivered-same : (stream : ℕ → ℕ) (c : TcpConnection) → Holds stream c → Delivered stream c (0, c)
Delivered-same stream c h = record {
  holds = h;
  forward = omega arith;
  same_read = refl;
  stops = λ e. e;
}

module _ (stream : ℕ → ℕ) (c : TcpConnection) (bytes : List ℕ) (n dest : ℕ) (h : Holds stream c)
    (s : Sends stream c bytes n dest) where
  stored :
      (out : List ℕ) × (copy_to_circle_buffer c.rx_buffer rx_mask dest bytes n n ≡ some out)
      × IsStored c.rx_buffer dest bytes n out
  stored =
      copy_to_circle_buffer-IsStored c.rx_buffer dest bytes n h.size
        (omega (arith, s.in_window, h.no_wrap)) s.fits (omega (arith, s.short))

  -- A new segment on a full list, and on one with room.
  on_full :
      c.rx_write < dest + n
      → length c.rx_segments ≡ seg_mask
      → Delivered stream c (0, record c { rx_buffer = stored.0 })
  on_full fresh full = record {
    holds =
        Holds-stored stream c bytes n dest h s fresh stored.0 c.rx_segments stored.2 (λ p e. inl e);
    forward = omega arith;
    same_read = refl;
    stops = λ e. e;
  }

  abbrev assembled : ℕ × TcpConnection → Assembly
  assembled out = record {
    rx_write = out.1.rx_write;
    segments = out.1.rx_segments;
    ack_required = out.0;
  }

  abbrev entered : TcpConnection
  entered = record c {
    rx_buffer = stored.0;
    rx_segments = c.rx_segments ++ (new_segment dest n ∷ []);
  }

  on_free :
      c.rx_write < dest + n
      → (out : ℕ × TcpConnection) × (assemble entered ≡ some out)
        × Delivered stream c out
        × (dest ≤ c.rx_write → dest + n ≤ out.1.rx_write)
  on_free fresh = (out, e, delivered, advanced)
    where
      run :
          (out : ℕ × TcpConnection) × (assemble entered ≡ some out)
          × Holds stream out.1
          × IsAssembled c.rx_write entered.rx_segments (assembled out)
          × (out.1 ≡ record entered { rx_write = out.1.rx_write; rx_segments = out.1.rx_segments })
      run =
          assemble-Holds stream entered
            (with_entry-Holds stream c bytes n dest h s fresh stored.0 stored.2)

      out : ℕ × TcpConnection
      out = run.0

      e : assemble entered ≡ some out
      e = run.1

      delivered : Delivered stream c out
      delivered = record {
        holds = run.2;
        forward = run.3.forward;
        same_read = ap (λ d. d.rx_read) run.4;
        stops = λ _. run.3.same_beyond out.1.rx_write (omega arith) ∙ run.3.stops;
      }

      advanced : dest ≤ c.rx_write → dest + n ≤ out.1.rx_write
      advanced low = ground (
        arith,
        run.3.forward,
        run.3.stops,
        covered-append c.rx_segments (new_segment dest n) out.1.rx_write,
        s.in_window,
        h.no_wrap,
      )

-- Under the invariant, a segment of the stream inside the window never makes `add_segment` leave a
-- buffer or loop without end: it returns, the receive buffer still holds the stream wherever a byte
-- was taken in, and the write position does not move back.
pub add_segment-Holds :
    (stream : ℕ → ℕ) (c : TcpConnection) (bytes : List ℕ) (n dest : ℕ)
    → Holds stream c
    → Sends stream c bytes n dest
    → (out : ℕ × TcpConnection) × (add_segment bytes n dest c ≡ some out) × Delivered stream c out
add_segment-Holds stream c bytes n dest h s = elim (dec_lt c.rx_write (dest + n)) [
  | no old ↦ (
    (0, c),
    add_segment-old bytes n dest c (omega (arith, s.in_window, h.no_wrap)),
    Delivered-same stream c h,
  )
  | yes fresh ↦ at_fresh fresh (Option-cases (scan_segments c.rx_segments (new_segment dest n) 0 0))
]
  where
    no_wrap : c.rx_write < dest + n → c.rx_write < add32 dest n
    no_wrap fresh = omega (arith, s.in_window, h.no_wrap)

    buffer : List ℕ
    buffer = (stored stream c bytes n dest h s).0

    at_fresh :
        c.rx_write < dest + n
        → ((scan_segments c.rx_segments (new_segment dest n) 0 0 ≡ none)
            ⊎ ((latest : ℕ) × (scan_segments c.rx_segments (new_segment dest n) 0 0 ≡ some latest)))
        → (out : ℕ × TcpConnection) × (add_segment bytes n dest c ≡ some out)
          × Delivered stream c out
    at_fresh fresh (inl e) =
        ((0, c), add_segment-duplicate bytes n dest c (no_wrap fresh) e, Delivered-same stream c h)
    at_fresh fresh (inr (latest, e)) = elim (ℕ_discrete (length c.rx_segments) seg_mask) [
      | yes full ↦ (
        (0, record c { rx_buffer = buffer }),
        add_segment-new bytes n dest c latest buffer (no_wrap fresh) e
              (stored stream c bytes n dest h s).1
            ∙ insert_segment-full stream c bytes n dest h s fresh buffer
                (stored stream c bytes n dest h s).2 latest full,
        on_full stream c bytes n dest h s fresh full,
      )
      | no free ↦
          let (out, k, d, _) = on_free stream c bytes n dest h s fresh in
          (
            out,
            add_segment-new bytes n dest c latest buffer (no_wrap fresh) e
                  (stored stream c bytes n dest h s).1
                ∙ insert_segment-free stream c bytes n dest h s fresh buffer
                    (stored stream c bytes n dest h s).2 latest free
                ∙ k,
            d,
          )
    ]

-- A segment that starts at or before the write position and reaches beyond it moves the write
-- position to its end or further, provided that the list of entries is not full; the new write
-- position is one that no entry covers.
pub add_segment-advances :
    (stream : ℕ → ℕ) (c : TcpConnection) (bytes : List ℕ) (n dest : ℕ)
    → Holds stream c
    → Sends stream c bytes n dest
    → covered c.rx_segments c.rx_write ≡ false
    → dest ≤ c.rx_write
    → c.rx_write < dest + n
    → length c.rx_segments ≢ seg_mask
    → (out : ℕ × TcpConnection) × (add_segment bytes n dest c ≡ some out)
      × (dest + n ≤ out.1.rx_write)
      × (covered out.1.rx_segments out.1.rx_write ≡ false)
add_segment-advances stream c bytes n dest h s stopped low fresh free =
    at_entry (Option-cases (scan_segments c.rx_segments (new_segment dest n) 0 0))
  where
    no_wrap : c.rx_write < add32 dest n
    no_wrap = omega (arith, s.in_window, h.no_wrap)

    at_entry :
        ((scan_segments c.rx_segments (new_segment dest n) 0 0 ≡ none)
          ⊎ ((latest : ℕ) × (scan_segments c.rx_segments (new_segment dest n) 0 0 ≡ some latest)))
        → (out : ℕ × TcpConnection) × (add_segment bytes n dest c ≡ some out)
          × (dest + n ≤ out.1.rx_write)
          × (covered out.1.rx_segments out.1.rx_write ≡ false)
    at_entry (inl e) = absurd (
        ground
          (arith, covered-duplicate c.rx_segments (new_segment dest n) 0 0 c.rx_write e, no_wrap))
    at_entry (inr (latest, e)) =
        let (buffer, k, st) = stored stream c bytes n dest h s in
        let (out, m, d, moved) = on_free stream c bytes n dest h s fresh in
        (
          out,
          add_segment-new bytes n dest c latest buffer no_wrap e k
              ∙ insert_segment-free stream c bytes n dest h s fresh buffer st latest free
              ∙ m,
          moved low,
          d.stops stopped,
        )
