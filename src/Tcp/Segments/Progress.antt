-- ===== src/Tcp/Segments/Progress.antt =====
-- The reassembly loop of `add_segment`: where the write position stops.
use native.Mathlib.Decide.{dec_lt}
use eth_transfer.Base.{
  zero, suc, ◌∙◌, some, if◌then◌else◌, ℕ, ◌≤◌, ◌<◌, ◌≡◌, refl, sym, inl, inr, List, [], ◌∷◌, length,
  Bool, true, false, ◌&&◌, ◌||◌, ltb, leb, arith, Bool-cases,
}
use eth_transfer.Tcp.{TcpSegment}
use eth_transfer.Tcp.Segments.{assemble_loop, Assembly, Pass, end_of, assemble_pass}

-- The stream position `p` lies in a segment, or in one of a list.
abbrev pub covers : TcpSegment → ℕ → Bool
covers s p = leb s.position p && ltb p (end_of s)

abbrev pub covered : List TcpSegment → ℕ → Bool
covered [] p = false
covered (s ∷ ss) p = covers s p || covered ss p

-- What a pass from `w` over `segments` guarantees.
pub record IsPass (w : ℕ) (segments : List TcpSegment) (r : Pass) : Type 0 where
  pub forward : w ≤ r.rx_write
  pub gained : (p : ℕ) → w ≤ p → p < r.rx_write → covered segments p ≡ true
  pub same_beyond : (p : ℕ) → r.rx_write ≤ p → covered r.kept p ≡ covered segments p
  pub fewer : length r.kept ≤ length segments
  pub updated_fewer : r.updated ≡ true → length r.kept < length segments
  pub idle_same : r.updated ≡ false → r.rx_write ≡ w
  pub idle_waiting : r.updated ≡ false → covered segments w ≡ false

assemble_pass-IsPass :
    (w : ℕ) (segments : List TcpSegment) → IsPass w segments (assemble_pass w segments)
unfolding assemble_pass
assemble_pass-IsPass w [] = record {
  forward = omega arith;
  gained = λ p a b. absurd (omega arith);
  same_beyond = λ p a. refl;
  fewer = omega arith;
  updated_fewer = λ e. cc;
  idle_same = λ e. refl;
  idle_waiting = λ e. refl;
}
assemble_pass-IsPass w (s ∷ ss) = elim (Bool-cases (leb (end_of s) w)) [
  | inl dropped ↦
      let ih = assemble_pass-IsPass w ss in
      rw dropped (record {
        forward = ih.forward;
        gained = λ p a b. ground (arith, ih.gained p a b);
        same_beyond = λ p a. ground (arith, ih.same_beyond p a, ih.forward);
        fewer = omega (arith, ih.fewer);
        updated_fewer = λ e. omega (arith, ih.updated_fewer e);
        idle_same = ih.idle_same;
        idle_waiting = λ e. ground (arith, ih.idle_waiting e);
      })
  | inr alive ↦ elim (Bool-cases (leb s.position w)) [
    | inl joined ↦
        let ih = assemble_pass-IsPass (end_of s) ss in
        rw (alive, joined)
          (record {
            forward = ground (arith, ih.forward);
            gained = λ p a b. ground (arith, ih.gained p);
            same_beyond = λ p a. ground (arith, ih.same_beyond p a, ih.forward);
            fewer = omega (arith, ih.fewer);
            updated_fewer = λ e. omega (arith, ih.fewer);
            idle_same = λ e. cc;
            idle_waiting = λ e. cc;
          })
    | inr waiting ↦
        let ih = assemble_pass-IsPass w ss in
        rw (alive, waiting)
          (record {
            forward = ih.forward;
            gained = λ p a b. ground (arith, ih.gained p a b);
            same_beyond = λ p a. ground (arith, ih.same_beyond p a);
            fewer = omega (arith, ih.fewer);
            updated_fewer = λ e. omega (arith, ih.updated_fewer e);
            idle_same = ih.idle_same;
            idle_waiting = λ e. ground (arith, ih.idle_waiting e);
          })
  ]
]

-- What the whole loop guarantees from a write position `w` over `segments`.
pub record IsAssembled (w : ℕ) (segments : List TcpSegment) (out : Assembly) : Type 0 where
  pub forward : w ≤ out.rx_write
  pub gained : (p : ℕ) → w ≤ p → p < out.rx_write → covered segments p ≡ true
  pub stops : covered segments out.rx_write ≡ false
  pub same_beyond : (p : ℕ) → out.rx_write ≤ p → covered out.segments p ≡ covered segments p
  pub fewer : length out.segments ≤ length segments

abbrev after_pass : Assembly → Assembly
after_pass a =
    let p = assemble_pass a.rx_write a.segments in
    record {
      rx_write = p.rx_write;
      segments = p.kept;
      ack_required = if p.updated then 1 else a.ack_required;
    }

IsAssembled-again :
    (a out : Assembly)
    → IsPass a.rx_write a.segments (assemble_pass a.rx_write a.segments)
    → IsAssembled
        (assemble_pass a.rx_write a.segments).rx_write
        (assemble_pass a.rx_write a.segments).kept
        out
    → IsAssembled a.rx_write a.segments out
IsAssembled-again a out one more = record {
  forward = omega (arith, one.forward, more.forward);
  gained = λ p h k. elim (dec_lt p (assemble_pass a.rx_write a.segments).rx_write) [
    | yes early ↦ one.gained p h early
    | no late ↦ sym (one.same_beyond p (omega arith)) ∙ more.gained p (omega arith) k
  ];
  stops = sym (one.same_beyond out.rx_write more.forward) ∙ more.stops;
  same_beyond = λ p h. more.same_beyond p h ∙ one.same_beyond p (omega (arith, more.forward));
  fewer = omega (arith, one.fewer, more.fewer);
}

IsAssembled-idle :
    (a : Assembly)
    → IsPass a.rx_write a.segments (assemble_pass a.rx_write a.segments)
    → (assemble_pass a.rx_write a.segments).updated ≡ false
    → IsAssembled a.rx_write a.segments (after_pass a)
IsAssembled-idle a one idle = record {
  forward = one.forward;
  gained = one.gained;
  stops = rw (one.idle_same idle) (one.idle_waiting idle);
  same_beyond = one.same_beyond;
  fewer = one.fewer;
}

assemble_loop-again :
    (fuel : ℕ) (a : Assembly)
    → (assemble_pass a.rx_write a.segments).updated ≡ true
    → assemble_loop (suc fuel) a ≡ assemble_loop fuel (after_pass a)
unfolding assemble_loop
assemble_loop-again fuel a more = ground arith

-- Every run that goes on drops an entry, so one more round than there are entries is enough. The
-- write position stops at the first byte that neither the stream so far nor a segment covers.
pub assemble_loop-IsAssembled :
    (fuel : ℕ) (a : Assembly)
    → length a.segments < fuel
    → (out : Assembly) × (assemble_loop fuel a ≡ some out) × IsAssembled a.rx_write a.segments out
unfolding assemble_loop
assemble_loop-IsAssembled zero a h = absurd (omega arith)
assemble_loop-IsAssembled (suc fuel) a h =
    elim (Bool-cases (assemble_pass a.rx_write a.segments).updated) [
      | inr idle ↦ (after_pass a, rw idle, IsAssembled-idle a one idle)
      | inl more ↦
          let (out, e, r) =
            assemble_loop-IsAssembled fuel (after_pass a) (omega (arith, one.updated_fewer more)) in
          (out, assemble_loop-again fuel a more ∙ e, IsAssembled-again a out one r)
    ]
  where
    one : IsPass a.rx_write a.segments (assemble_pass a.rx_write a.segments)
    one = assemble_pass-IsPass a.rx_write a.segments
