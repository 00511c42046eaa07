-- ===== src/Net/Tcp.antt =====
-- net/tcp.c: the client side of a connection.
pub mod Client
pub mod Segments
pub mod Rounds
pub mod Receive
pub mod Connect
mod Tests
use package.pumpkin_os.Prelude.{
  ℕ, zero, suc, ◌+◌, ◌-◌, ◌*◌, ◌/◌, ◌%◌, ◌^◌, min, bit_and, ltb, leb, ◌==◌, ◌&&◌, ◌||◌, not,
  if◌then◌else◌, Bool, true, false,
}
use package.pumpkin_os.Prelude.{List, [], ◌∷◌, ◌++◌, length, get_or, take, drop, Option, none, some}
use package.pumpkin_os.Prelude.Int.{ℤ, pos, negsuc}
use package.pumpkin_os.Net.Wire.{
  htons, htonl, ntohs, ntohl, word, long, word_at, long_at, slice, ip_to_bytes, ip_checksum,
}
use package.pumpkin_os.Net.State.{Nic, Net, NetRx, minus32, hz_of, ticks, wait_loop}
use package.pumpkin_os.Net.Stack.{net_poll, net_send_ip}
use package.pumpkin_os.Net.Udp.{time_limit}

abbrev pub ip_proto_tcp : ℕ
ip_proto_tcp = 6

abbrev pub tcp_fin : ℕ
tcp_fin = 0x01

abbrev pub tcp_syn : ℕ
tcp_syn = 0x02

abbrev pub tcp_rst : ℕ
tcp_rst = 0x04

abbrev pub tcp_psh_ack : ℕ
tcp_psh_ack = 0x18

abbrev pub tcp_ack : ℕ
tcp_ack = 0x10

pub record TcpConn : Type 0 where
  pub dst_ip : ℕ
  pub dst_port : ℕ
  pub sport : ℕ
  pub snd_nxt : ℕ
  pub rcv_nxt : ℕ
  pub established : Bool
  pub peer_fin : Bool

-- What `tcp_next` fills in; `bytes` are the `dlen` bytes at `data`.
pub record Segment : Type 0 where
  pub seq : ℕ
  pub ack : ℕ
  pub flags : ℕ
  pub bytes : List ℕ

-- `fl & flag`
abbrev pub has : ℕ → Segment → Bool
has flag g = not (bit_and g.flags flag == 0)

-- The sign of the 32-bit difference.
pub seq_geq : ℕ → ℕ → Bool
seq_geq a b = ltb (minus32 a b) (2 ^ 31)

abbrev pub plus32 : ℕ → ℕ → ℕ
plus32 a b = (a + b) % 2 ^ 32

-- The pseudo-header in front of the segment.
abbrev pub pseudo : ℕ → ℕ → ℕ → List ℕ
pseudo src dst seglen =
    ip_to_bytes src
    ++ (ip_to_bytes dst ++ (0 ∷ ip_proto_tcp ∷ (seglen / 2 ^ 8) % 2 ^ 8 ∷ seglen % 2 ^ 8 ∷ []))

pub tcp_checksum : ℕ → ℕ → List ℕ → ℕ
tcp_checksum src dst seg =
    if ltb 1500 (length seg) then 0 else ip_checksum (pseudo src dst (length seg) ++ seg)

-- The header up to the checksum, and the segment around the checksum.
abbrev pub tcp_front : TcpConn → ℕ → List ℕ
tcp_front c flags =
    word (htons c.sport)
    ++ (word (htons c.dst_port)
        ++ (long (htonl c.snd_nxt)
            ++ (long (htonl c.rcv_nxt) ++ (0x50 ∷ flags ∷ word (htons 8192)))))

pub tcp_segment : ℕ → TcpConn → ℕ → List ℕ → List ℕ
tcp_segment src c flags bytes =
    let csum = tcp_checksum src c.dst_ip (tcp_front c flags ++ (0 ∷ 0 ∷ (0 ∷ 0 ∷ bytes))) in
    tcp_front c flags ++ (word csum ++ (0 ∷ 0 ∷ bytes))

-- The tests of `tcp_next` on a datagram that `net_poll` delivered.
pub accept_segment : {S : Type 0} → TcpConn → Option NetRx × Net S → Option Segment × Net S
accept_segment c (none, s) = (none, s)
accept_segment c (some rx, s) =
    let f = s.rxframe in
    let thl = (get_or f (rx.l4 + 12) 0 / 2 ^ 4) * 4 in
    let g : Segment = record {
      seq = ntohl (long_at (rx.l4 + 4) f);
      ack = ntohl (long_at (rx.l4 + 8) f);
      flags = get_or f (rx.l4 + 13) 0;
      bytes = slice (rx.l4 + thl) (rx.l4len - thl) f;
    } in
    if not ((rx.proto == ip_proto_tcp) && ((rx.src_ip == c.dst_ip) && leb 20 rx.l4len))
    then (none, s)
    else if not (ntohs (word_at rx.l4 f) == c.dst_port)
        || not (ntohs (word_at (rx.l4 + 2) f) == c.sport)
    then (none, s)
    else if ltb thl 20 || ltb rx.l4len thl
    then (none, s)
    else (some g, s)

-- The result of a handler: it ends the loop with an answer, or the loop goes on.
abbrev pub Outcome : Type 0 → Type 0 → Type 0
Outcome S A = Option A × (TcpConn × Net S)

abbrev pub next_segment :
    {S A : Type 0}
    → (Segment → Net S → Outcome S A)
    → TcpConn
    → Option Segment × Net S
    → Outcome S A
next_segment handle c (none, t) = (none, (c, t))
next_segment handle c (some g, t) = handle g t

abbrev pub unless_done :
    {S A : Type 0} → Outcome S A → (TcpConn → Net S → Outcome S A) → Outcome S A
unless_done (some a, (c, s)) more = (some a, (c, s))
unless_done (none, (c, s)) more = more c s

-- What `tcp_recv` returns: the bytes in `buf`, 0 at the end of the stream, or -1 on a reset.
pub data Received : Type 0 where
  got : List ℕ → Received
  closed : Received
  reset : Received

-- `rcv_nxt` and `peer_fin` after an in-order segment.
pub consume : Segment → TcpConn → TcpConn
consume g c =
    let next = plus32 c.rcv_nxt (length g.bytes) in
    if has tcp_fin g
    then record c { rcv_nxt = plus32 next 1; peer_fin = true }
    else record c { rcv_nxt = next }

module _ {S : Type 0} (nic : Nic S) (fuel depth : ℕ) where
  pub tcp_xmit : TcpConn → ℕ → List ℕ → Net S → ℤ × Net S
  tcp_xmit c flags bytes s =
      if ltb 1500 (20 + length bytes)
      then (negsuc 0, s)
      else net_send_ip nic (λ u. (net_poll nic fuel depth u).1) fuel c.dst_ip ip_proto_tcp
          (λ _. tcp_segment s.net_ip c flags bytes) s

  pub tcp_next : TcpConn → ℕ → Net S → Option Segment × Net S
  tcp_next c deadline s =
      wait_loop nic (λ t. ltb (minus32 deadline t) (2 ^ 31))
        (λ u. accept_segment c (net_poll nic fuel depth u)) fuel s

  -- `while (tcp_next(c, deadline, ...)) handle`, with fuel for the segments.
  pub each_segment :
      {A : Type 0}
      → ℕ
      → ℕ
      → (Segment → TcpConn → Net S → Outcome S A)
      → TcpConn
      → Net S
      → Outcome S A
  each_segment zero deadline handle c s = (none, (c, s))
  each_segment (suc n) deadline handle c s =
      next_segment (λ g t. unless_done (handle g c t) (λ c' u. each_segment n deadline handle c' u))
        c (tcp_next c deadline s)

  -- The body of the loop of `tcp_connect`.
  pub on_handshake : ℕ → Segment → TcpConn → Net S → Outcome S Bool
  on_handshake isn g c s =
      let c' : TcpConn = record c { rcv_nxt = plus32 g.seq 1; snd_nxt = plus32 isn 1 } in
      let sent = (tcp_xmit c' tcp_ack [] s).1 in
      if has tcp_rst g
      then (some false, (c, s))
      else if has tcp_syn g && (has tcp_ack g && (g.ack == plus32 isn 1))
      then (some true, (record c' { established = true }, sent))
      else (none, (c, s))

  -- The body of the inner loop of `tcp_send`.
  pub on_acknowledge : ℕ → Segment → TcpConn → Net S → Outcome S Bool
  on_acknowledge end g c s =
      if has tcp_rst g
      then (some false, (c, s))
      else if has tcp_ack g && seq_geq g.ack end
      then (some true, (c, s))
      else (none, (c, s))

  -- The body of the loop of `tcp_recv`.
  pub on_data : ℕ → Segment → TcpConn → Net S → Outcome S Received
  on_data maxlen g c s =
      let bytes = take maxlen g.bytes in
      let c' = consume g c in
      let acked = (tcp_xmit c' tcp_ack [] s).1 in
      let again = (tcp_xmit c tcp_ack [] s).1 in
      if has tcp_rst g
      then (some reset, (record c { peer_fin = true }, s))
      else if not (g.seq == c.rcv_nxt)
      then (none, (c, again))
      else if ltb 0 (length bytes)
      then (some (got bytes), (c', acked))
      else if c'.peer_fin
      then (some closed, (c', acked))
      else (none, (c', acked))

  -- The body of the loop of `tcp_close`; an answer is a `break`.
  pub on_drain : Segment → TcpConn → Net S → Outcome S (Unit {0})
  on_drain g c s =
      let in_order = g.seq == c.rcv_nxt in
      let c' : TcpConn = if in_order then consume g c else c in
      let s' : Net S = if in_order then (tcp_xmit c' tcp_ack [] s).1 else s in
      if has tcp_rst g
      then (some tt, (c, s))
      else if c'.peer_fin && seq_geq g.ack c'.snd_nxt
      then (some tt, (c', s'))
      else (none, (c', s'))
