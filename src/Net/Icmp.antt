-- ===== src/Net/Icmp.antt =====
-- net/icmp.c: the ping client.
pub mod Pong
mod Tests
use package.pumpkin_os.Prelude.{
  ℕ, zero, suc, ◌+◌, ◌-◌, ◌*◌, ◌/◌, ◌%◌, ◌^◌, bit_and, ltb, leb, ◌==◌, ◌&&◌, if◌then◌else◌, Bool,
}
use package.pumpkin_os.Prelude.{List, [], ◌∷◌, ◌++◌, get_or, Option, none, some}
use package.pumpkin_os.Prelude.Int.{ℤ, pos, negsuc}
use package.pumpkin_os.Net.Wire.{htons, ntohs, word, word_at, slice, ip_checksum}
use package.pumpkin_os.Net.State.{Nic, Net, NetRx, minus32, hz_of, ticks, wait_loop}
use package.pumpkin_os.Net.Stack.{ip_proto_icmp, net_poll, net_send_ip}
use package.pumpkin_os.Net.Udp.{time_limit}

abbrev pub ping_id : ℕ
ping_id = 0x504B

-- The `for` that fills the payload, from index `i` on.
pub filler : ℕ → ℕ → List ℕ
filler i zero = []
filler i (suc n) = (b'a' + bit_and i 15) ∷ filler (i + 1) n

-- The message behind the checksum, and with it.
abbrev pub ping_body : ℕ → List ℕ
ping_body seq = word (htons ping_id) ++ (word (htons seq) ++ filler 0 32)

pub ping_message : ℕ → List ℕ
ping_message seq =
    let csum = ip_checksum (8 ∷ 0 ∷ 0 ∷ 0 ∷ ping_body seq) in 8 ∷ 0 ∷ (word csum ++ ping_body seq)

-- The three tests on the header at `l4`.
pub is_pong : ℕ → ℕ → List ℕ → Bool
is_pong seq l4 f =
    (get_or f l4 0 == 0)
    && ((ntohs (word_at (l4 + 4) f) == ping_id) && (ntohs (word_at (l4 + 6) f) == seq))

-- The tests of the loop on a datagram that `net_poll` delivered.
pub accept_pong : {S : Type 0} → ℕ → ℕ → Option NetRx × Net S → Option (Unit {0}) × Net S
accept_pong ip seq (none, s) = (none, s)
accept_pong ip seq (some rx, s) =
    if (rx.proto == ip_proto_icmp)
      && ((rx.src_ip == ip) && (leb 8 rx.l4len && is_pong seq rx.l4 s.rxframe))
    then (some tt, s)
    else (none, s)

-- The time that `icmp_ping` puts in `rtt_ms`; nothing without an answer.
pub round_trip : {S : Type 0} → Nic S → ℕ → ℕ → Option (Unit {0}) × Net S → Option ℕ × Net S
round_trip nic hz start (none, s) = (none, s)
round_trip nic hz start (some _, s) =
    let (t, s1) = ticks nic s in (some (((minus32 t start * 1000) % 2 ^ 32) / hz), s1)

pub icmp_ping : {S : Type 0} → Nic S → ℕ → ℕ → ℕ → ℕ → Net S → Option ℕ × Net S
icmp_ping {S} nic fuel depth ip timeout_ms s =
    let seq = (s.ping_seq + 1) % 2 ^ 16 in
    let s0 : Net S = record s { ping_seq = seq } in
    let hz = hz_of nic s0 in
    let (start, s1) = ticks nic s0 in
    let (sent, s2) =
      net_send_ip nic (λ u. (net_poll nic fuel depth u).1) fuel ip ip_proto_icmp
        (λ _. ping_message seq) s1 in
    let waited =
      wait_loop nic (λ t. leb (minus32 t start) (time_limit timeout_ms hz))
        (λ u. accept_pong ip seq (net_poll nic fuel depth u)) fuel s2 in
    elim sent [ pos zero ↦ round_trip nic hz start waited | _ ↦ (none, s2) ]
