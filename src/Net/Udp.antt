-- ===== src/Net/Udp.antt =====
-- UDP in net/net.c: `net_send_udp` and `net_recv_udp`.
pub mod Payload
pub mod Config
use package.pumpkin_os.Prelude.{
  ℕ, ◌+◌, ◌-◌, ◌*◌, ◌/◌, ◌%◌, ◌^◌, min, ltb, leb, ◌==◌, ◌&&◌, if◌then◌else◌, Bool,
}
use package.pumpkin_os.Prelude.{List, [], ◌∷◌, ◌++◌, length, Option, none, some}
use package.pumpkin_os.Prelude.Int.{ℤ, pos, negsuc}
use package.pumpkin_os.Net.Wire.{htons, ntohs, word, word_at, slice}
use package.pumpkin_os.Net.State.{Nic, Net, NetRx, minus32, hz_of, ticks, wait_loop}
use package.pumpkin_os.Net.Stack.{net_poll, net_send_ip}

abbrev pub ip_proto_udp : ℕ
ip_proto_udp = 17

-- What `net_recv_udp` returns: the sender, and the payload in `buf`.
pub record Datagram : Type 0 where
  pub src_ip : ℕ
  pub sport : ℕ
  pub payload : List ℕ

-- The segment of `net_send_udp`.
unfoldable pub udp_segment : ℕ → ℕ → List ℕ → List ℕ
udp_segment sport dport bytes =
    word (htons sport)
    ++ (word (htons dport) ++ (word (htons ((8 + length bytes) % 2 ^ 16)) ++ (0 ∷ 0 ∷ bytes)))

-- `payload`, from the length field, cut to the datagram and to the buffer.
pub payload_length : ℕ → ℕ → ℕ → ℕ
payload_length ulen l4len maxlen = min (min (ulen - 8) (l4len - 8)) maxlen

-- The tests of `net_recv_udp` on a datagram that `net_poll` delivered.
unfoldable pub accept_udp : {S : Type 0} → ℕ → ℕ → Option NetRx × Net S → Option Datagram × Net S
accept_udp my_port maxlen (none, s) = (none, s)
accept_udp my_port maxlen (some rx, s) =
    let f = s.rxframe in
    let count = payload_length (ntohs (word_at (rx.l4 + 4) f)) rx.l4len maxlen in
    if (rx.proto == ip_proto_udp) && (leb 8 rx.l4len && (ntohs (word_at (rx.l4 + 2) f) == my_port))
    then (
      some (record {
        src_ip = rx.src_ip;
        sport = ntohs (word_at rx.l4 f);
        payload = slice (rx.l4 + 8) count f;
      }),
      s,
    )
    else (none, s)

-- `timeout_ms * hz / 1000` of 32-bit numbers.
abbrev pub time_limit : ℕ → ℕ → ℕ
time_limit timeout_ms hz = ((timeout_ms * hz) % 2 ^ 32) / 1000

module _ {S : Type 0} (nic : Nic S) (fuel depth : ℕ) where
  unfoldable pub net_send_udp : ℕ → ℕ → ℕ → List ℕ → Net S → ℤ × Net S
  net_send_udp dst_ip sport dport bytes s =
      if ltb 1500 (8 + length bytes)
      then (negsuc 0, s)
      else net_send_ip nic (λ u. (net_poll nic fuel depth u).1) fuel dst_ip ip_proto_udp
          (λ _. udp_segment sport dport bytes) s

  unfoldable pub net_recv_udp : ℕ → ℕ → ℕ → Net S → Option Datagram × Net S
  net_recv_udp my_port maxlen timeout_ms s =
      let (start, s1) = ticks nic s in
      wait_loop nic (λ t. leb (minus32 t start) (time_limit timeout_ms (hz_of nic s)))
        (λ u. accept_udp my_port maxlen (net_poll nic fuel depth u)) fuel s1
