-- ===== src/Net/Dns/Tests.antt =====
-- The theorems about net/dns.c at concrete inputs.
use pumpkin_os.Prelude.{ℕ, ◌+◌, ◌≤◌, ◌≡◌, ◌≢◌, refl, arith, List, [], ◌∷◌, ◌++◌, length, some, none}
use pumpkin_os.Net.Wire.{htons, ntohs, bytes_to_ip}
use pumpkin_os.Net.State.{wait_loop}
use pumpkin_os.Net.Udp.{Datagram, net_send_udp, net_recv_udp, udp_segment, accept_udp}
use pumpkin_os.Net.Bench.{bench_nic, bench_net}
use pumpkin_os.Net.Stack.{
  eth_send, resolve, next_hop, send_datagram, net_send_ip, net_poll, receive, handle_frame,
}
use pumpkin_os.Net.Dns.{
  encode_name, encode_labels, label, after_label, skip_name, skip_from, find_answer, dns_query,
  parse_response, query_server, dns_resolve,
}
use pumpkin_os.Net.Dns.Names.{Labels, join, wire, encode_name-skip_name}
use pumpkin_os.Net.Dns.Answers.{Answers, parse_response-Answers}

abbrev host : List (List ℕ)
host = (b'a' ∷ b'b' ∷ []) ∷ (b'c' ∷ []) ∷ []

not_dot : (c : ℕ) → 97 ≤ c → c ≢ b'.'
not_dot c h e = omega arith

host-Labels : Labels host
host-Labels = (
  (not_dot 97 (omega arith), (not_dot 98 (omega arith), tt)),
  omega arith,
  omega arith,
  ((not_dot 99 (omega arith), tt), omega arith, omega arith, tt),
)

encode_name-skip_name_example :
    (encode_name (join host) ≡ some (wire host))
    × (skip_name 2 12 ((7 ∷ 7 ∷ []) ++ (wire host ++ (9 ∷ []))) ≡ 2 + length (wire host))
encode_name-skip_name_example =
    encode_name-skip_name (b'a' ∷ b'b' ∷ []) ((b'c' ∷ []) ∷ []) (7 ∷ 7 ∷ []) (9 ∷ []) 12 host-Labels
      (omega arith)

-- A response to query 5 with one A record, behind a compressed name.
abbrev response : Datagram
response = record {
  src_ip = 0x0A000203;
  sport = 53;
  payload =
      0 ∷ 5 ∷ 0x81 ∷ 0x80 ∷ 0 ∷ 1 ∷ 0 ∷ 1 ∷ 0 ∷ 0 ∷ 0 ∷ 0 ∷ 1 ∷ b'a' ∷ 0 ∷ 0 ∷ 1 ∷ 0 ∷ 1 ∷ 0xC0 ∷ 12
      ∷ 0 ∷ 1 ∷ 0 ∷ 1 ∷ 0 ∷ 0 ∷ 0 ∷ 60 ∷ 0 ∷ 4 ∷ 1 ∷ 2 ∷ 3 ∷ 4 ∷ [];
}

parse_response-Answers_example :
    Answers 5 (length response.payload) response.payload (parse_response 5 (some response))
parse_response-Answers_example = parse_response-Answers 5 (some response)

parse-run :
    (parse_response 5 (some response) ≡ some 0x01020304) × (parse_response 6 (some response) ≡ none)
unfolding parse_response find_answer skip_name skip_from ntohs htons bytes_to_ip
parse-run = (refl, refl)

-- Empty labels are refused, and nothing is sent while the network is down.
names-run :
    (encode_name (b'a' ∷ b'.' ∷ b'.' ∷ []) ≡ none)
    × (encode_name (b'a' ∷ b'.' ∷ []) ≡ some (1 ∷ b'a' ∷ 0 ∷ []))
    × (encode_name [] ≡ some (0 ∷ []))
unfolding encode_name encode_labels label after_label
names-run = (refl, refl, refl)

-- A query goes to the name server's port, with the name in wire form.
query-run :
    let (ip, t) =
      query_server bench_nic 2 1 7 0xC001
        (some (1 ∷ b'a' ∷ 0 ∷ []))
        (record (bench_net []) { net_dns = 0x0A000202 }) in
    (ip ≡ none) × (length t.dev.sent ≡ 1)
unfolding query_server dns_query net_send_udp net_recv_udp udp_segment net_send_ip next_hop resolve
    send_datagram eth_send wait_loop accept_udp net_poll receive handle_frame parse_response
query-run = (refl, refl)

down-run : (dns_resolve bench_nic 2 1 (b'a' ∷ []) (record (bench_net []) { net_dns = 0 })).0 ≡ none
unfolding dns_resolve
down-run = refl
