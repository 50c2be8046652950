-- ===== src/Web/Server/Rounds.antt =====
-- The rounds of the loop of src/web_server.c, one behind the other.
use eth_transfer.Base.{
  ℕ, ◌^◌, ◌<◌, ◌≡◌, refl, List, length, drop, Bool, true, false, ◌==◌, sle, sub32, minus_one,
  Option, none, some, some_inj, if◌then◌else◌, ◌>>=◌, >>=-eq-some, inl, inr, arith,
}
use mathlib.Core.Path.{subst}
use eth_transfer.Tcp.{TcpConnection}
use eth_transfer.Tcp.Api.{open_tcp, read_tcp}
use eth_transfer.Tcp.Api.Sizes.{read_tcp-IsRead}
use eth_transfer.Web.Upload.{Saved}
use eth_transfer.Web.Request.{neither}
use eth_transfer.Web.Server.{
  Server, Host, first_server, open_server, take_read, answer, serve_round,
}
use eth_transfer.Web.Server.Inside.{InBuffer}
use eth_transfer.Web.Server.Settled.{Settled, take_read-Settled, answer-neither}
use eth_transfer.Web.Server.Steps.{serve_round-InBuffer}

has_room :
    {A : Type 0} (exhausted : Bool) (more : Option A) (r : A)
    → (if exhausted then none else more) ≡ some r
    → more ≡ some r
has_room true more r e = cc
has_room false more r e = e

module _ {W : Type 0} (get_conn : W → TcpConnection) (put_conn : TcpConnection → W → W)
    (ip_stack_poll : W → Option W) (save : Saved → W → W) (fuel : ℕ) (null_buf : List ℕ)
    (host : Host) where
  -- Rounds of the loop, one behind the other.
  pub data Rounds (s : Server) (w : W) : Server → W → Type 0 where
    before_loop : Rounds s w s w
    round :
        {t : Server} {v : W} (r : Server × W)
        → Rounds s w t v
        → serve_round get_conn put_conn ip_stack_poll save fuel null_buf host t v ≡ some r
        → Rounds s w r.0 r.1

  serve_round-Settled :
      (s : Server) (w : W) (r : Server × W)
      → host.max_size < 2 ^ 30
      → InBuffer host.max_size s
      → Settled host.max_size s
      → serve_round get_conn put_conn ip_stack_poll save fuel null_buf host s w ≡ some r
      → Settled host.max_size r.0
  unfolding serve_round
  serve_round-Settled s w r small h settled e =
      let (polled, _, after_poll) = >>=-eq-some (ip_stack_poll w) _ e in
      at polled (s.connection_id == minus_one) refl after_poll
    where
      at :
          (polled : W) (closed : Bool)
          → (s.connection_id == minus_one) ≡ closed
          → (if closed
              then some (open_server (open_tcp (get_conn polled)) s, polled)
              else if sle (sub32 host.max_size s.read_count) 0
              then none
              else read_tcp s.connection_id
                  (drop s.read_count s.read_buffer)
                  s.read_count
                  (sub32 host.max_size s.read_count)
                  (get_conn polled)
                >>= (λ got.
                    take_read get_conn put_conn ip_stack_poll save fuel null_buf host got s polled))
            ≡ some r
          → Settled host.max_size r.0
      at polled true t k =
          subst (λ (q : Server × W). Settled host.max_size q.0) (some_inj k) (inr (inl refl))
      at polled false t k =
          let (got, copied, taken) =
            >>=-eq-some
              (read_tcp s.connection_id (drop s.read_count s.read_buffer) s.read_count
                (sub32 host.max_size s.read_count) (get_conn polled))
              _ (has_room (sle (sub32 host.max_size s.read_count) 0) _ r k) in
          take_read-Settled get_conn put_conn ip_stack_poll save fuel null_buf host small got s
            polled r h t settled
            (read_tcp-IsRead s.connection_id (drop s.read_count s.read_buffer) s.read_count
              (sub32 host.max_size s.read_count) (get_conn polled) got (omega (arith, h.count))
              copied)
            taken

Rounds-Settled :
    {W : Type 0} (get_conn : W → TcpConnection) (put_conn : TcpConnection → W → W)
    (ip_stack_poll : W → Option W) (save : Saved → W → W) (fuel : ℕ) (null_buf : List ℕ)
    (host : Host) (read_buffer : List ℕ) (w : W)
    → host.max_size < 2 ^ 30
    → length read_buffer ≡ host.max_size
    → {t : Server} {v : W}
    → Rounds get_conn put_conn ip_stack_poll save fuel null_buf host
        (first_server read_buffer)
        w
        t
        v
    → InBuffer host.max_size t × Settled host.max_size t
Rounds-Settled get_conn put_conn ip_stack_poll save fuel null_buf host read_buffer w small size
      before_loop =
    (record { count = omega arith; room = size; parsed = inl (refl, refl) }, inl refl)
Rounds-Settled get_conn put_conn ip_stack_poll save fuel null_buf host read_buffer w small size
      (round {t} {v} r rounds e) =
    let (inside, settled) =
      Rounds-Settled get_conn put_conn ip_stack_poll save fuel null_buf host read_buffer w small
        size rounds in
    (
      serve_round-InBuffer get_conn put_conn ip_stack_poll save fuel null_buf host small t v r
          inside e,
      serve_round-Settled get_conn put_conn ip_stack_poll save fuel null_buf host t v r small inside
          settled e,
    )

-- With a read buffer of the maximum size, below 2^30: however the stack, the peer, the user and the
-- files behave, after any number of rounds that return, no more bytes were read than the buffer has,
-- and a header that was found lies in what was read; and where a connection is open and its header
-- was found, an upload with a boundary is read, and the place of the 0 behind it is in the buffer. From
-- no such state is a request answered that is no GET and no POST and so has no required length: its 0
-- goes in front of the buffer, and `none` stands for what follows.
pub Rounds-InBuffer :
    {W : Type 0} (get_conn : W → TcpConnection) (put_conn : TcpConnection → W → W)
    (ip_stack_poll : W → Option W) (save : Saved → W → W) (fuel : ℕ) (null_buf : List ℕ)
    (host : Host) (read_buffer : List ℕ) (w : W)
    → host.max_size < 2 ^ 30
    → length read_buffer ≡ host.max_size
    → {t : Server} {v : W}
    → Rounds get_conn put_conn ip_stack_poll save fuel null_buf host
        (first_server read_buffer)
        w
        t
        v
    → InBuffer host.max_size t
      × Settled host.max_size t
      × (answer get_conn put_conn ip_stack_poll save fuel null_buf host neither
            (record t { required_length = minus_one })
            v
          ≡ none)
Rounds-InBuffer get_conn put_conn ip_stack_poll save fuel null_buf host read_buffer w small size {t}
      {v} rounds =
    let (inside, settled) =
      Rounds-Settled get_conn put_conn ip_stack_poll save fuel null_buf host read_buffer w small
        size rounds in
    (
      inside,
      settled,
      answer-neither get_conn put_conn ip_stack_poll save fuel null_buf host
          (record t { required_length = minus_one }) v refl
          (let c = inside.count in omega (arith, c)) (let r = inside.room in omega (arith, r)),
    )
