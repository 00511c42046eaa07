-- ===== src/Net/Udp/Payload.antt =====
-- `net_recv_udp` of net/net.c: its payload, and the round trip with `net_send_udp`.
use pumpkin_os.Prelude.{
  ℕ, ◌+◌, ◌-◌, ◌≤◌, ◌≡◌, refl, ap, ◌∙◌, arith, subst, leb, ◌==◌, ◌&&◌, if_cases, Bool, true, false,
  leb→le, ==→≡,
}
use pumpkin_os.Prelude.{Option, none, some}
use pumpkin_os.Net.Wire.{ntohs, word_at, slice}
use pumpkin_os.Net.State.{Nic, Net, NetRx, ticks, minus32, hz_of, wait_loop}
use pumpkin_os.Net.State.Wait.{wait_loop-answers}
use pumpkin_os.Net.Stack.{net_poll, receive}
use pumpkin_os.Net.Stack.Frames.{Delivers, net_poll-Delivers}
use pumpkin_os.Net.Udp.{
  ip_proto_udp, Datagram, payload_length, accept_udp, time_limit, net_recv_udp,
}

payload_length-bounds :
    (ulen l4len maxlen : ℕ)
    → (payload_length ulen l4len maxlen ≤ maxlen) × (payload_length ulen l4len maxlen ≤ l4len - 8)
unfolding payload_length
payload_length-bounds ulen l4len maxlen = omega arith

-- A datagram in the state in which it was accepted: its payload is a slice of the frame received,
-- behind a UDP header, and no longer than the buffer.
pub record InBounds {S : Type 0} (nic : Nic S) (my_port maxlen : ℕ) (d : Datagram) (t : Net S)
    : Type 0 where
  pub before : Net S
  pub from : ℕ
  pub count : ℕ
  pub is_slice : d.payload ≡ slice from count t.rxframe
  pub behind : 42 ≤ from
  pub inside : from + count ≤ (receive nic before).0
  pub fits : count ≤ maxlen
  pub port : ntohs (word_at (from - 6) t.rxframe) ≡ my_port

-- No answer, or one in bounds.
abbrev pub Bounded : {S : Type 0} → Nic S → ℕ → ℕ → Option Datagram × Net S → Type 0
Bounded nic my_port maxlen (none, t) = Unit
Bounded nic my_port maxlen (some d, t) = InBounds nic my_port maxlen d t

module _ {S : Type 0} (nic : Nic S) (my_port maxlen : ℕ) where
  three : (a b c : Bool) → (a && (b && c)) ≡ true → (b ≡ true) × (c ≡ true)
  three true true c e = (refl, e)
  three true false c e = absurd (cc e)
  three false b c e = absurd (cc e)

  accept_udp-Bounded :
      (u : Net S) (x : Option NetRx × Net S)
      → Delivers (receive nic u).0 (receive nic u).1 x
      → Bounded nic my_port maxlen (accept_udp my_port maxlen x)
  unfolding accept_udp
  accept_udp-Bounded u (none, s) h = tt
  accept_udp-Bounded u (some rx, s) (h, same) =
      let f = s.rxframe in
      let ulen = ntohs (word_at (rx.l4 + 4) f) in
      let bounds = payload_length-bounds ulen rx.l4len maxlen in
      if_cases (Bounded nic my_port maxlen)
        ((rx.proto == ip_proto_udp)
          && (leb 8 rx.l4len && (ntohs (word_at (rx.l4 + 2) f) == my_port)))
        _ _
        (λ e.
          let (long, port) =
            three (rx.proto == ip_proto_udp) (leb 8 rx.l4len)
              (ntohs (word_at (rx.l4 + 2) f) == my_port) e in
          let eight = leb→le _ _ long in
          let at : rx.l4 + 8 - 6 ≡ rx.l4 + 2 = omega arith in
          record {
            before = u;
            from = rx.l4 + 8;
            count = payload_length ulen rx.l4len maxlen;
            is_slice = refl;
            behind = omega (arith, h.behind);
            inside = omega (arith, h.inside, bounds);
            fits = bounds.0;
            port = ap (λ i. ntohs (word_at i f)) at ∙ ==→≡ _ _ port;
          })
        (λ _. tt)

  -- A datagram of `net_recv_udp` is addressed to the port; its payload is no longer than the buffer
  -- and lies in the frame that the last poll received, behind the Ethernet, IP and UDP headers.
  pub net_recv_udp-Bounded :
      (fuel depth timeout_ms : ℕ) (s : Net S)
      → Bounded nic my_port maxlen (net_recv_udp nic fuel depth my_port maxlen timeout_ms s)
  unfolding net_recv_udp
  net_recv_udp-Bounded fuel depth timeout_ms s =
      let (start, s1) = ticks nic s in
      let more : ℕ → Bool = λ t. leb (minus32 t start) (time_limit timeout_ms (hz_of nic s)) in
      let body : Net S → Option Datagram × Net S =
        λ u. accept_udp my_port maxlen (net_poll nic fuel depth u) in
      answered (wait_loop nic more body fuel s1) (λ d t e.
        let (u, q) = wait_loop-answers nic more body fuel s1 t d e in
        subst (Bounded nic my_port maxlen) q
          (accept_udp-Bounded u (net_poll nic fuel depth u) (net_poll-Delivers nic fuel depth u)))
    where
      answered :
          (x : Option Datagram × Net S)
          → ((d : Datagram) (t : Net S) → x ≡ (some d, t) → Bounded nic my_port maxlen (some d, t))
          → Bounded nic my_port maxlen x
      answered (none, t) h = tt
      answered (some d, t) h = h d t refl
