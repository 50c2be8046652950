-- ===== src/Tcp/Segments/Delivery.antt =====
-- `add_segment` against the byte stream that the peer sends: the receive buffer holds the stream at
-- every position that was taken in, in order or not.
use eth_transfer.Base.{
  ℕ, ◌+◌, ◌-◌, ◌%◌, ◌^◌, ◌≤◌, ◌<◌, ◌≡◌, ◌≢◌, refl, sym, ap, ◌∙◌, ◌⊎◌, inl, inr, List, [], ◌∷◌, ◌++◌,
  length, get_or, some, true, ◌||◌, arith,
}
use native.Mathlib.Decide.{dec_lt}
use eth_transfer.Circle.Positions.{IsStored}
use eth_transfer.Tcp.{TcpSegment, TcpConnection, seg_mask, tcp_window, max_segment}
use eth_transfer.Tcp.Segments.{Assembly, assemble, insert_segment}
use eth_transfer.Tcp.Segments.Progress.{covers, covered, IsAssembled, assemble_loop-IsAssembled}

-- The window that is offered starts at the read position, and is half of the buffer.
pub record Holds (stream : ℕ → ℕ) (c : TcpConnection) : Type 0 where
  pub no_wrap : c.rx_read + 8192 < 2 ^ 32
  pub size : length c.rx_buffer ≡ 8192
  pub in_order : c.rx_read ≤ c.rx_write
  pub window : c.rx_write ≤ c.rx_read + tcp_window
  pub pending : (p : ℕ) → covered c.rx_segments p ≡ true → p < c.rx_read + tcp_window
  pub received :
      (p : ℕ) → c.rx_read ≤ p → p < c.rx_write → get_or c.rx_buffer (p % 8192) 0 ≡ stream p
  pub waiting :
      (p : ℕ)
      → c.rx_read ≤ p
      → covered c.rx_segments p ≡ true
      → get_or c.rx_buffer (p % 8192) 0 ≡ stream p

pub covered-append :
    (ss : List TcpSegment) (new : TcpSegment) (p : ℕ)
    → covered (ss ++ (new ∷ [])) p ≡ covered ss p || covers new p
covered-append [] new p = ground arith
covered-append (s ∷ ss) new p = ground (arith, covered-append ss new p)

module _ (stream : ℕ → ℕ) (c : TcpConnection) (a : Assembly) (h : Holds stream c)
    (r : IsAssembled c.rx_write c.rx_segments a) where
  write_in_window : a.rx_write ≤ c.rx_read + tcp_window
  write_in_window = elim (dec_lt c.rx_write a.rx_write) [
    | yes moved ↦
        let last = r.gained (a.rx_write - 1) (omega arith) (omega arith) in
        omega (arith, h.pending (a.rx_write - 1) last)
    | no same ↦ omega (arith, h.window)
  ]

  Holds-assembled : Holds stream (record c { rx_write = a.rx_write; rx_segments = a.segments })
  Holds-assembled = record {
    no_wrap = h.no_wrap;
    size = h.size;
    in_order = omega (arith, h.in_order, r.forward);
    window = write_in_window;
    pending = λ p e. elim (dec_lt p a.rx_write) [
      | yes below ↦ omega (arith, write_in_window)
      | no beyond ↦ h.pending p (sym (r.same_beyond p (omega arith)) ∙ e)
    ];
    received = λ p from to. elim (dec_lt p c.rx_write) [
      | yes before ↦ h.received p from before
      | no new ↦ h.waiting p from (r.gained p (omega arith) to)
    ];
    waiting = λ p from e. elim (dec_lt p a.rx_write) [
      | no beyond ↦ h.waiting p from (sym (r.same_beyond p (omega arith)) ∙ e)
      | yes below ↦ elim (dec_lt p c.rx_write) [
        | yes before ↦ h.received p from before
        | no new ↦ h.waiting p from (r.gained p (omega arith) below)
      ]
    ];
  }

-- Reassembly moves the write position only over what the entries cover.
pub assemble-Holds :
    (stream : ℕ → ℕ) (c : TcpConnection)
    → Holds stream c
    → (out : ℕ × TcpConnection) × (assemble c ≡ some out)
      × Holds stream out.1
      × IsAssembled c.rx_write c.rx_segments
          (record { rx_write = out.1.rx_write; segments = out.1.rx_segments; ack_required = out.0 })
      × (out.1 ≡ record c { rx_write = out.1.rx_write; rx_segments = out.1.rx_segments })
assemble-Holds stream c h =
    let (a, e, r) =
      assemble_loop-IsAssembled (length c.rx_segments + 1)
        (record { rx_write = c.rx_write; segments = c.rx_segments; ack_required = 0 })
        (omega arith) in
    (
      (a.ack_required, record c { rx_write = a.rx_write; rx_segments = a.segments }),
      rw e,
      Holds-assembled stream c a h r,
      r,
      refl,
    )

-- What a peer may send: bytes of the stream, inside the window, and not a whole window too late.
pub record Sends (stream : ℕ → ℕ) (c : TcpConnection) (bytes : List ℕ) (n dest : ℕ) : Type 0 where
  pub fits : n ≤ length bytes
  pub short : n ≤ max_segment
  pub in_window : dest + n ≤ c.rx_read + tcp_window
  pub content : (i : ℕ) → i < n → get_or bytes i 0 ≡ stream (dest + i)

module _ (stream : ℕ → ℕ) (c : TcpConnection) (bytes : List ℕ) (n dest : ℕ) (h : Holds stream c)
    (s : Sends stream c bytes n dest) (fresh : c.rx_write < dest + n) where
  -- A stored segment shows the stream at its own positions, and leaves the window's others alone.
  stored_inside :
      (out : List ℕ)
      → IsStored c.rx_buffer dest bytes n out
      → (p : ℕ) → dest ≤ p
      → p < dest + n
      → get_or out (p % 8192) 0 ≡ stream p
  stored_inside out st p low high =
      st.inside (p % 8192) (omega arith) (omega (arith, s.short))
      ∙ ap (λ (k : ℕ). get_or bytes k 0) (omega (arith, s.short))
      ∙ s.content (p - dest) (omega arith)
      ∙ ap stream (omega arith)

  stored_outside :
      (out : List ℕ)
      → IsStored c.rx_buffer dest bytes n out
      → (p : ℕ) → c.rx_read ≤ p
      → p < c.rx_read + tcp_window
      → get_or c.rx_buffer (p % 8192) 0 ≡ stream p
      → get_or out (p % 8192) 0 ≡ stream p
  stored_outside out st p from to old = elim (dec_lt p dest) [
    | yes before ↦
        st.outside (p % 8192) (omega arith) (omega (arith, s.short, s.in_window, h.in_order)) ∙ old
    | no after ↦ elim (dec_lt p (dest + n)) [
      | yes inside ↦ stored_inside out st p (omega arith) inside
      | no beyond ↦
          st.outside (p % 8192) (omega arith) (omega (arith, s.short, s.in_window, h.in_order))
          ∙ old
    ]
  ]

  pub Holds-stored :
      (out : List ℕ) (segments : List TcpSegment)
      → IsStored c.rx_buffer dest bytes n out
      → ((p : ℕ)
          → covered segments p ≡ true
          → (covered c.rx_segments p ≡ true) ⊎ ((dest ≤ p) × (p < dest + n)))
      → Holds stream (record c { rx_buffer = out; rx_segments = segments })
  Holds-stored out segments st only = record {
    no_wrap = h.no_wrap;
    size = st.same_length ∙ h.size;
    in_order = h.in_order;
    window = h.window;
    pending = λ p e. ground (arith, only p e, h.pending p, s.in_window);
    received =
        λ p from to. stored_outside out st p from (omega (arith, h.window)) (h.received p from to);
    waiting = λ p from e. at_waiting p from (only p e);
  }
    where
      at_waiting :
          (p : ℕ)
          → c.rx_read ≤ p
          → (covered c.rx_segments p ≡ true) ⊎ ((dest ≤ p) × (p < dest + n))
          → get_or out (p % 8192) 0 ≡ stream p
      at_waiting p from (inl old) =
          stored_outside out st p from (h.pending p old) (h.waiting p from old)
      at_waiting p from (inr new) = stored_inside out st p new.0 new.1

abbrev pub new_segment : ℕ → ℕ → TcpSegment
new_segment dest n = record { position = dest; length = n }

module _ (stream : ℕ → ℕ) (c : TcpConnection) (bytes : List ℕ) (n dest : ℕ) (h : Holds stream c)
    (s : Sends stream c bytes n dest) (fresh : c.rx_write < dest + n) (buffer : List ℕ)
    (st : IsStored c.rx_buffer dest bytes n buffer) where
  abbrev pub with_entry : TcpConnection
  with_entry = record c {
    rx_buffer = buffer;
    rx_segments = c.rx_segments ++ (new_segment dest n ∷ []);
  }

  pub with_entry-Holds : Holds stream with_entry
  with_entry-Holds =
      Holds-stored stream c bytes n dest h s fresh buffer with_entry.rx_segments st (λ p e.
        ground (arith, covered-append c.rx_segments (new_segment dest n) p, s.in_window, h.no_wrap))

  -- A full list: the entry is lost and nothing moves.
  pub insert_segment-full :
      (latest : ℕ)
      → length c.rx_segments ≡ seg_mask
      → insert_segment (record c { rx_buffer = buffer }) (new_segment dest n) latest
        ≡ some (0, record c { rx_buffer = buffer })
  unfolding insert_segment
  insert_segment-full latest full = ground arith

  pub insert_segment-free :
      (latest : ℕ)
      → length c.rx_segments ≢ seg_mask
      → insert_segment (record c { rx_buffer = buffer }) (new_segment dest n) latest
        ≡ assemble with_entry
  unfolding insert_segment
  insert_segment-free latest free = ground arith
