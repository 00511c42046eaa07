-- ===== src/Net/Icmp/Tests.antt =====
-- Runs of net/icmp.c.
use pumpkin_os.Prelude.{ℕ, ◌≡◌, refl, List, [], ◌∷◌, ◌++◌, length, some, none, replicate}
use pumpkin_os.Net.Wire.{htons, ntohs, ip_to_bytes, bytes_to_ip, ip_checksum, sum_words, fold}
use pumpkin_os.Net.State.{wait_loop}
use pumpkin_os.Net.Bench.{bench_nic, bench_net}
use pumpkin_os.Net.Stack.{
  eth_send, resolve, next_hop, send_datagram, net_send_ip, net_poll, receive, handle_frame,
  handle_ip, clamp_l4, deliver, echo_reply,
}
use pumpkin_os.Net.Icmp.{filler, ping_message, is_pong, accept_pong, round_trip, icmp_ping}

-- The frame of 10.0.2.2 that answers the first ping.
abbrev pong_frame : List ℕ
pong_frame =
    replicate 12 2
    ++ (8
        ∷ 0
        ∷ 0x45
        ∷ 0
        ∷ 0
        ∷ 60
        ∷ 0
        ∷ 1
        ∷ 0
        ∷ 0
        ∷ 64
        ∷ 1
        ∷ 0
        ∷ 0
        ∷ 10
        ∷ 0
        ∷ 2
        ∷ 2
        ∷ 10
        ∷ 0
        ∷ 2
        ∷ 15
        ∷ echo_reply (ping_message 1))

-- An answered ping gives a time, one without an answer nothing; each takes the next number.
ping-run :
    let (rtt, t) = icmp_ping bench_nic 3 1 0x0A000202 1000 (bench_net (pong_frame ∷ [])) in
    let (none_came, u) = icmp_ping bench_nic 3 1 0x0A000202 1000 (bench_net []) in
    (rtt ≡ some 500) × (t.ping_seq ≡ 1) × (none_came ≡ none) × (length u.dev.sent ≡ 1)
unfolding icmp_ping round_trip accept_pong is_pong ping_message filler wait_loop net_send_ip resolve
    next_hop send_datagram eth_send net_poll receive handle_frame handle_ip clamp_l4 deliver
    echo_reply ip_checksum sum_words fold htons ntohs ip_to_bytes bytes_to_ip
ping-run = (refl, refl, refl, refl)
