-- ===== src/Net/Tcp/Receive.antt =====
-- `tcp_recv` of net/tcp.c: the bytes that it returns are the next ones of the stream.
use pumpkin_os.Prelude.{
  ℕ, zero, suc, ◌^◌, ◌≤◌, ◌<◌, ◌≡◌, refl, ap, ◌∙◌, arith, ltb, ltb→lt, ◌==◌, ==→≡, if_cases, Bool,
  true, false, not, Bool-cases, inl, inr, if◌then◌else◌,
}
use pumpkin_os.Prelude.{List, length, take, length-take, Option, none, some, ltb→le}
use pumpkin_os.Net.State.{Nic, Net, ticks, hz_of}
use pumpkin_os.Net.Udp.{time_limit}
use pumpkin_os.Net.Tcp.{
  TcpConn, Segment, Outcome, Received, got, closed, reset, has, tcp_fin, tcp_rst, plus32, consume,
  on_data, next_segment, unless_done, each_segment, tcp_next,
}
use pumpkin_os.Net.Tcp.Rounds.{Comes}
use pumpkin_os.Net.Tcp.Client.{tcp_recv}

-- The sequence number after a segment: the data, and one for a FIN.
abbrev pub after : Segment → ℕ → ℕ
after g seq =
    if has tcp_fin g then plus32 (plus32 seq (length g.bytes)) 1 else plus32 seq (length g.bytes)

-- Bytes that are the next ones of the stream: a segment came whose sequence number is the one that
-- was expected; they are its data as far as they fit, and the whole segment counts as received.
pub record Next (Came : Segment → Type 0) (maxlen : ℕ) (c : TcpConn) (bs : List ℕ) (c' : TcpConn)
    : Type 0 where
  pub segment : Segment
  pub came : Came segment
  pub in_order : segment.seq ≡ c.rcv_nxt
  pub is_data : bs ≡ take maxlen segment.bytes
  pub some : 0 < length bs
  pub fits : length bs ≤ maxlen
  pub advances : c'.rcv_nxt ≡ after segment c.rcv_nxt

-- What a call leaves: the bytes were next; the stream ended; or, with neither, nothing was consumed.
abbrev pub InOrder : {S : Type 0} → (Segment → Type 0) → ℕ → TcpConn → Outcome S Received → Type 0
InOrder Came maxlen c (some (got bs), (c', t)) = Next Came maxlen c bs c'
InOrder Came maxlen c (some closed, (c', t)) = c'.peer_fin ≡ true
InOrder Came maxlen c (some reset, (c', t)) = (c'.peer_fin ≡ true) × (c'.rcv_nxt ≡ c.rcv_nxt)
InOrder Came maxlen c (none, (c', t)) = (c'.rcv_nxt ≡ c.rcv_nxt) × (c'.peer_fin ≡ c.peer_fin)

consume-after : (g : Segment) (c : TcpConn) → (consume g c).rcv_nxt ≡ after g c.rcv_nxt
unfolding consume
consume-after g c = elim (Bool-cases (has tcp_fin g)) [ inl e ↦ rw e refl | inr e ↦ rw e refl ]

-- Without a FIN and without data nothing moves.
consume-nothing :
    (g : Segment) (c : TcpConn)
    → c.rcv_nxt < 2 ^ 32
    → length g.bytes ≡ 0
    → (consume g c).peer_fin ≡ false
    → ((consume g c).rcv_nxt ≡ c.rcv_nxt) × ((consume g c).peer_fin ≡ c.peer_fin)
unfolding consume
consume-nothing g c h z =
    let next = plus32 c.rcv_nxt (length g.bytes) in
    let moved : TcpConn = record c { rcv_nxt = plus32 next 1; peer_fin = true } in
    let stays : TcpConn = record c { rcv_nxt = next } in
    if_cases
      (λ (t : TcpConn). t.peer_fin ≡ false → (t.rcv_nxt ≡ c.rcv_nxt) × (t.peer_fin ≡ c.peer_fin))
      (has tcp_fin g) moved stays (λ e f. absurd (cc f)) (λ e f. (omega (arith, z), refl))

unnegated : (b : Bool) → not b ≡ false → b ≡ true
unnegated true e = refl
unnegated false e = absurd (cc e)

-- `tcp_next` gives this segment in a round of the loop of this call.
abbrev pub InLoop : {S : Type 0} → Nic S → ℕ → ℕ → ℕ → ℕ → TcpConn → Net S → Segment → Type 0
InLoop nic fuel depth maxlen timeout_ms c s =
    Comes nic fuel depth (on_data nic fuel depth maxlen) fuel
      (plus32 (ticks nic s).0 (time_limit timeout_ms (hz_of nic s))) c (ticks nic s).1

module _ {S : Type 0} (nic : Nic S) (fuel depth maxlen : ℕ) where
  on_data-InOrder :
      (Came : Segment → Type 0) (g : Segment) (c : TcpConn) (s : Net S)
      → Came g
      → c.rcv_nxt < 2 ^ 32
      → 1 ≤ maxlen
      → InOrder Came maxlen c (on_data nic fuel depth maxlen g c s)
  unfolding on_data
  on_data-InOrder Came g c s here h m =
      let bytes = take maxlen g.bytes in
      let cut = length-take maxlen g.bytes in
      if_cases (InOrder Came maxlen c) (has tcp_rst g) _ _ (λ _. (refl, refl))
        (λ _.
          if_cases (InOrder Came maxlen c) (not (g.seq == c.rcv_nxt)) _ _ (λ _. (refl, refl))
            (λ e.
              if_cases (InOrder Came maxlen c) (ltb 0 (length bytes)) _ _
                (λ f. record {
                  segment = g;
                  came = here;
                  in_order = ==→≡ _ _ (unnegated _ e);
                  is_data = refl;
                  some = ltb→lt _ _ f;
                  fits = omega (arith, cut);
                  advances = consume-after g c;
                })
                (λ f.
                  if_cases (InOrder Came maxlen c) (consume g c).peer_fin _ _ (λ fin. fin)
                    (λ fin. consume-nothing g c h (omega (arith, cut, ltb→le _ _ f)) fin))))

  -- The outcome of a later round, seen from the start.
  InOrder-earlier :
      (Later Came : Segment → Type 0) (c d : TcpConn) (x : Outcome S Received)
      → ((g : Segment) → Later g → Came g)
      → d.rcv_nxt ≡ c.rcv_nxt
      → d.peer_fin ≡ c.peer_fin
      → InOrder Later maxlen d x
      → InOrder Came maxlen c x
  InOrder-earlier Later Came c d (none, (c', t)) k e f (a, b) = (a ∙ e, b ∙ f)
  InOrder-earlier Later Came c d (some closed, (c', t)) k e f h = h
  InOrder-earlier Later Came c d (some reset, (c', t)) k e f (a, b) = (a, b ∙ e)
  InOrder-earlier Later Came c d (some (got bs), (c', t)) k e f h = record {
    segment = h.segment;
    came = k h.segment h.came;
    in_order = h.in_order ∙ e;
    is_data = h.is_data;
    some = h.some;
    fits = h.fits;
    advances = h.advances ∙ ap (after h.segment) e;
  }

  -- One round: what the handler answers, or what the rounds after it give.
  round_InOrder :
      (Came : Segment → Type 0) (c : TcpConn) (x : Outcome S Received)
      (more : TcpConn → Net S → Outcome S Received) (Later : TcpConn → Net S → Segment → Type 0)
      → ((d : TcpConn) (u : Net S) → x ≡ (none, (d, u)) → (g : Segment) → Later d u g → Came g)
      → InOrder Came maxlen c x
      → ((d : TcpConn) (u : Net S)
          → d.rcv_nxt ≡ c.rcv_nxt
          → InOrder (Later d u) maxlen d (more d u))
      → InOrder Came maxlen c (unless_done x more)
  round_InOrder Came c (none, (d, u)) more Later k (a, b) h =
      InOrder-earlier (Later d u) Came c d (more d u) (k d u refl) a b (h d u a)
  round_InOrder Came c (some (got bs), (d, u)) more Later k p h = p
  round_InOrder Came c (some closed, (d, u)) more Later k p h = p
  round_InOrder Came c (some reset, (d, u)) more Later k p h = p

  next_segment-InOrder :
      (Came : Segment → Type 0) (c : TcpConn) (x y : Option Segment × Net S)
      (handle : Segment → Net S → Outcome S Received)
      → y ≡ x
      → ((g : Segment) (t : Net S) → y ≡ (some g, t) → InOrder Came maxlen c (handle g t))
      → InOrder Came maxlen c (next_segment handle c x)
  next_segment-InOrder Came c (none, t) y handle e h = (refl, refl)
  next_segment-InOrder Came c (some g, t) y handle e h = h g t e

  each_segment-InOrder :
      (n deadline : ℕ) (c : TcpConn) (s : Net S)
      → c.rcv_nxt < 2 ^ 32
      → 1 ≤ maxlen
      → InOrder
          (Comes nic fuel depth (on_data nic fuel depth maxlen) n deadline c s)
          maxlen
          c
          (each_segment nic fuel depth n deadline (on_data nic fuel depth maxlen) c s)
  unfolding each_segment
  each_segment-InOrder zero deadline c s h m = (refl, refl)
  each_segment-InOrder (suc n) deadline c s h m =
      let handle : Segment → TcpConn → Net S → Outcome S Received = on_data nic fuel depth maxlen in
      let Came : Segment → Type 0 = Comes nic fuel depth handle (suc n) deadline c s in
      next_segment-InOrder Came c (tcp_next nic fuel depth c deadline s) _ _ refl (λ g t e.
        round_InOrder Came c (handle g c t) _ (Comes nic fuel depth handle n deadline)
          (λ d u f k later. inr (g, t, d, u, e, f, later))
          (on_data-InOrder Came g c t (inl (t, e)) h m)
          (λ d u f. each_segment-InOrder n deadline d u (omega (arith, f)) m))

  -- Where the buffer has room for one byte, a call of `tcp_recv` on an open stream does one of four
  -- things: it returns the next bytes of the stream, at least one and at most the buffer's size,
  -- from a segment that `tcp_next` received in a round of its loop and that starts where the stream
  -- stands, and moves behind the whole segment; it reports the end of the stream; it reports a
  -- reset; or the time is over, or the rounds given to it are. In the last two cases the stream
  -- stands where it stood.
  pub tcp_recv-InOrder :
      (timeout_ms : ℕ) (c : TcpConn) (s : Net S)
      → c.rcv_nxt < 2 ^ 32
      → 1 ≤ maxlen
      → InOrder
          (InLoop nic fuel depth maxlen timeout_ms c s)
          maxlen
          c
          (tcp_recv nic fuel depth maxlen timeout_ms c s)
  unfolding tcp_recv
  tcp_recv-InOrder timeout_ms c s h m =
      if_cases (InOrder (InLoop nic fuel depth maxlen timeout_ms c s) maxlen c) c.peer_fin _ _
        (λ e. e)
        (λ _.
          each_segment-InOrder fuel (plus32 (ticks nic s).0 (time_limit timeout_ms (hz_of nic s))) c
            (ticks nic s).1 h m)
