-- ===== src/Net/Stack/Tests.antt =====
-- The theorems about net/net.c at concrete inputs.
use pumpkin_os.Prelude.{
  ℕ, ◌+◌, ◌%◌, ◌^◌, ◌≡◌, refl, arith, List, [], ◌∷◌, ◌++◌, length, some, none, true, replicate,
  get_or,
}
use pumpkin_os.Net.Wire.{
  slice, ip_checksum, htons, ntohs, htonl, ntohl, ip_to_bytes, bytes_to_ip, sum_words, fold,
}
use pumpkin_os.Net.State.{Net, wait_loop}
use pumpkin_os.Net.Bench.{Bench, bench_nic, bench_net}
use pumpkin_os.Net.Stack.Frames.{Delivers, net_poll-Delivers}
use pumpkin_os.Net.Stack.RoundTrip.{frame_of, delivered, send_datagram-delivered}
use pumpkin_os.Net.Stack.{
  net_init, eth_send, arp_request, resolve_tries, resolve, next_hop, ip_header, send_datagram,
  net_send_ip, echo_reply, icmp_echo_reply, handle_arp, clamp_l4, deliver, handle_ip, handle_frame,
  receive, net_poll,
}

-- A UDP datagram of 9 bytes from 10.0.2.3, with its Ethernet and IP headers.
abbrev udp_frame : List ℕ
udp_frame =
    replicate 12 2
    ++ (8 ∷ 0 ∷ 0x45 ∷ 0 ∷ 0 ∷ 29 ∷ 0 ∷ 1 ∷ 0 ∷ 0 ∷ 64 ∷ 17 ∷ 0 ∷ 0 ∷ 10 ∷ 0 ∷ 2 ∷ 3 ∷ 10 ∷ 0 ∷ 2
        ∷ 15 ∷ 0 ∷ 53 ∷ 0 ∷ 99 ∷ 0 ∷ 9 ∷ 0 ∷ 0 ∷ b'!' ∷ [])

-- A ping of 8 bytes from 10.0.2.2.
abbrev ping_frame : List ℕ
ping_frame =
    replicate 12 2
    ++ (8 ∷ 0 ∷ 0x45 ∷ 0 ∷ 0 ∷ 28 ∷ 0 ∷ 1 ∷ 0 ∷ 0 ∷ 64 ∷ 1 ∷ 0 ∷ 0 ∷ 10 ∷ 0 ∷ 2 ∷ 2 ∷ 10 ∷ 0 ∷ 2
        ∷ 15 ∷ 8 ∷ 0 ∷ 0 ∷ 0 ∷ 0 ∷ 1 ∷ 0 ∷ 2 ∷ [])

-- The answer of 10.0.2.9 to a request for its address.
abbrev arp_frame : List ℕ
arp_frame =
    replicate 12 2
    ++ (8
        ∷ 6
        ∷ 0
        ∷ 1
        ∷ 8
        ∷ 0
        ∷ 6
        ∷ 4
        ∷ 0
        ∷ 2
        ∷ 2
        ∷ 0
        ∷ 0
        ∷ 0
        ∷ 0
        ∷ 9
        ∷ 10
        ∷ 0
        ∷ 2
        ∷ 9
        ∷ replicate 10 0)

net_poll-Delivers_example :
    Delivers
      (receive bench_nic (bench_net (udp_frame ∷ []))).0
      (receive bench_nic (bench_net (udp_frame ∷ []))).1
      (net_poll bench_nic 9 2 (bench_net (udp_frame ∷ [])))
net_poll-Delivers_example = net_poll-Delivers bench_nic 9 2 (bench_net (udp_frame ∷ []))

abbrev sender : Net Bench
sender = bench_net []

abbrev receiver : Net Bench
receiver = record sender {
  rxframe = frame_of sender 0x0A000202 17 (1 ∷ 2 ∷ 3 ∷ []) (replicate 6 9) ++ (0 ∷ 0 ∷ []);
}

send_datagram-delivered_example :
    (send_datagram bench_nic 0x0A000202 17 (1 ∷ 2 ∷ 3 ∷ []) (replicate 6 9) sender ≡ (
      let (r, d) =
        bench_nic.rtl8139_send
          (frame_of sender 0x0A000202 17 (1 ∷ 2 ∷ 3 ∷ []) (replicate 6 9))
          sender.dev in
      (r, record sender { ip_id = (sender.ip_id + 1) % 2 ^ 16; dev = d })))
    × (handle_frame bench_nic (λ u. u) 0 39 receiver
        ≡ (some (delivered sender.net_ip 17 (1 ∷ 2 ∷ 3 ∷ [])), receiver))
    × (slice 34 3 receiver.rxframe ≡ 1 ∷ 2 ∷ 3 ∷ [])
send_datagram-delivered_example =
    send_datagram-delivered bench_nic sender 0x0A000202 17 (1 ∷ 2 ∷ 3 ∷ []) (replicate 6 9)
      bench_nic (λ u. u) 0 receiver 39 (0 ∷ 0 ∷ []) refl refl (omega arith) (omega arith)
      (λ e. omega (arith, e)) (omega arith) refl

-- A ping is answered, not delivered; the reply goes to the address in the cache.
ping-run :
    let (rx, t) = net_poll bench_nic 3 1 (bench_net (ping_frame ∷ [])) in
    (rx ≡ none)
    × (get_or (get_or t.dev.sent 0 []) 34 9 ≡ 0)
    × (slice 34 8 (get_or t.dev.sent 0 []) ≡ 0 ∷ 0 ∷ 0xFF ∷ 0xFC ∷ 0 ∷ 1 ∷ 0 ∷ 2 ∷ [])
unfolding net_poll receive handle_frame handle_ip clamp_l4 deliver icmp_echo_reply echo_reply
    net_send_ip next_hop resolve send_datagram ip_header eth_send ip_checksum sum_words fold htons
    ntohs ip_to_bytes bytes_to_ip
ping-run = (refl, refl, refl)

-- An address that is not in the cache is asked for, and the answer is used.
resolve-run :
    let (mac, t) =
      resolve bench_nic
        (λ u. (net_poll bench_nic 3 1 u).1)
        3
        0x0A000209
        (bench_net (arp_frame ∷ [])) in
    (mac ≡ some (2 ∷ 0 ∷ 0 ∷ 0 ∷ 0 ∷ 9 ∷ [])) × (length t.dev.sent ≡ 1) × (t.arp_ip ≡ 0x0A000209)
unfolding resolve resolve_tries arp_request wait_loop net_poll receive handle_frame handle_arp
    eth_send htons ntohs ip_to_bytes bytes_to_ip
resolve-run = (refl, refl, refl)

byte_order-run : (ntohl (htonl 0x12345678) ≡ 0x12345678) × (htonl 0x12345678 ≡ 0x78563412)
unfolding htonl ntohl
byte_order-run = (refl, refl)

init-run : (net_init bench_nic (bench_net [])).0 ≡ true
unfolding net_init
init-run = refl
