-- ===== src/Stack/Poll.antt =====
-- `ip_stack_poll` of src/ip_stack.c, over whatever its two handlers do to a state `W`. The result
-- says whether the call sleeps.
use eth_transfer.Base.{
  ℕ, zero, suc, ◌+◌, ◌≤◌, ◌≡◌, refl, ◌∙◌, Bool, true, false, not, ◌||◌, Option, some, if◌then◌else◌,
  ◌>>=◌, arith, Bool-cases, inl, inr,
}

module _ {W : Type 0} where
  -- `while (step() && (0 <= i--)) action_taken = 1`, with `i + 1` left.
  unfoldable pub drain : (W → Option (Bool × W)) → ℕ → W → Option (Bool × W)
  drain step zero w = step w >>= (λ r. some (false, r.1))
  drain step (suc left) w = step w >>= (λ r.
      if r.0 then (drain step left r.1 >>= (λ q. some (true, q.1))) else some (false, r.1))

  unfoldable pub ip_stack_poll :
      (W → Option (Bool × W)) → (W → Option (Bool × W)) → W → Option (Bool × W)
  ip_stack_poll handle_rx_packet send_tcp_packet w =
      drain handle_rx_packet 11 w
      >>= (λ rx. drain send_tcp_packet 11 rx.1 >>= (λ tx. some (not (rx.0 || tx.0), tx.1)))

-- A call that returns, is counted by `count`, and leaves `other` as it is.
abbrev pub IsCounted : {W : Type 0} → (W → Option (Bool × W)) → (W → ℕ) → (W → ℕ) → Type 0
IsCounted {W} step count other =
    (w : W) → (r : Bool × W) × (step w ≡ some r) × (count r.1 ≡ count w + 1) × (other r.1 ≡ other w)

module _ {W : Type 0} (step : W → Option (Bool × W)) (count other : W → ℕ)
    (returns : IsCounted step count other) where
  drain-count :
      (left : ℕ) (w : W)
      → (r : Bool × W) × (drain step left w ≡ some r)
        × (count w + 1 ≤ count r.1)
        × (count r.1 ≤ count w + left + 1)
        × (other r.1 ≡ other w)
  unfolding drain
  drain-count zero w =
      let (r, e, more, same) = returns w in
      ((false, r.1), rw e refl, omega arith, omega arith, same)
  drain-count (suc left) w =
      let (r, e, more, same) = returns w in
      elim (Bool-cases r.0) [
        | inl again ↦
            let (q, k, low, high, kept) = drain-count left r.1 in
            ((true, q.1), rw e (rw again (rw k refl)), omega arith, omega arith, kept ∙ same)
        | inr done ↦ ((false, r.1), rw e (rw done refl), omega arith, omega arith, same)
      ]

-- Where every call of the two handlers returns, a poll returns, and calls each of the two at least
-- once and at most twelve times.
pub ip_stack_poll-counts :
    {W : Type 0} (handle_rx_packet send_tcp_packet : W → Option (Bool × W)) (received sent : W → ℕ)
    → IsCounted handle_rx_packet received sent
    → IsCounted send_tcp_packet sent received
    → (w : W)
    → (r : Bool × W) × (ip_stack_poll handle_rx_packet send_tcp_packet w ≡ some r)
      × (received w + 1 ≤ received r.1)
      × (received r.1 ≤ received w + 12)
      × (sent w + 1 ≤ sent r.1)
      × (sent r.1 ≤ sent w + 12)
unfolding ip_stack_poll
ip_stack_poll-counts handle send received sent rx tx w =
    let (a, e, low, high, same) = drain-count handle received sent rx 11 w in
    let (b, k, low', high', same') = drain-count send sent received tx 11 a.1 in
    ((not (a.0 || b.0), b.1), rw e (rw k refl), omega arith, omega arith, omega arith, omega arith)
