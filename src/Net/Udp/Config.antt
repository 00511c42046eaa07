-- ===== src/Net/Udp/Config.antt =====
-- UDP in net/net.c leaves the configuration.
use pumpkin_os.Prelude.{
  ℕ, ◌+◌, if_cases, ltb, leb, length, ◌==◌, ◌&&◌, List, Option, none, some, Bool,
}
use pumpkin_os.Net.Wire.{ntohs, word_at}
use pumpkin_os.Net.State.{Nic, Net, NetRx, ticks, minus32, hz_of}
use pumpkin_os.Net.Stack.{net_poll}
use pumpkin_os.Net.Stack.Config.{
  Keeps, KeepsIn, Keeps-refl, Keeps-trans, ticks-Keeps, wait_loop-Keeps, net_send_ip-Keeps,
  net_poll-Keeps,
}
use pumpkin_os.Net.Udp.{
  ip_proto_udp, Datagram, udp_segment, accept_udp, time_limit, net_send_udp, net_recv_udp,
}

accept_udp-Keeps :
    {S : Type 0} (port maxlen : ℕ) (s : Net S) (x : Option NetRx × Net S)
    → Keeps s x.1
    → Keeps s (accept_udp port maxlen x).1
unfolding accept_udp
accept_udp-Keeps port maxlen s (none, t) h = h
accept_udp-Keeps port maxlen s (some rx, t) h =
    if_cases (KeepsIn s)
      ((rx.proto == ip_proto_udp)
        && (leb 8 rx.l4len && (ntohs (word_at (rx.l4 + 2) t.rxframe) == port)))
      _ _ (λ _. h) (λ _. h)

module _ {S : Type 0} (nic : Nic S) (fuel depth : ℕ) where
  pub net_send_udp-Keeps :
      (dst sport dport : ℕ) (bytes : List ℕ) (s : Net S)
      → Keeps s (net_send_udp nic fuel depth dst sport dport bytes s).1
  unfolding net_send_udp
  net_send_udp-Keeps dst sport dport bytes s =
      if_cases (KeepsIn s) (ltb 1500 (8 + length bytes)) _ _ (λ _. Keeps-refl)
        (λ _.
          net_send_ip-Keeps nic (λ u. (net_poll nic fuel depth u).1) (net_poll-Keeps nic fuel depth)
            fuel dst ip_proto_udp (λ _. udp_segment sport dport bytes) s)

  pub net_recv_udp-Keeps :
      (port maxlen timeout_ms : ℕ) (s : Net S)
      → Keeps s (net_recv_udp nic fuel depth port maxlen timeout_ms s).1
  unfolding net_recv_udp
  net_recv_udp-Keeps port maxlen timeout_ms s =
      let (start, s1) = ticks nic s in
      let more : ℕ → Bool = λ t. leb (minus32 t start) (time_limit timeout_ms (hz_of nic s)) in
      let body : Net S → Option Datagram × Net S =
        λ u. accept_udp port maxlen (net_poll nic fuel depth u) in
      Keeps-trans (ticks-Keeps nic s) (
        wait_loop-Keeps nic more body
          (λ u.
            accept_udp-Keeps port maxlen u (net_poll nic fuel depth u)
              (net_poll-Keeps nic fuel depth u))
          fuel s1)
