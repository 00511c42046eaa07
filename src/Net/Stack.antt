-- ===== src/Net/Stack.antt =====
-- net/net.c: frames, ARP, IPv4, and the dispatch of received frames. A poll inside a
-- poll (a ping that is answered while an address is resolved) takes one unit of depth.
pub mod Frames
pub mod Headers
pub mod Config
pub mod RoundTrip
pub mod Resolve
mod Tests
use package.pumpkin_os.Prelude.{
  ℕ, zero, suc, ◌+◌, ◌-◌, ◌*◌, ◌/◌, ◌%◌, ◌^◌, bit_and, ltb, leb, ◌==◌, ◌&&◌, not, if◌then◌else◌,
  Bool,
}
use package.pumpkin_os.Prelude.{true, false, List, [], ◌∷◌, ◌++◌, get_or, take, drop, length}
use package.pumpkin_os.Prelude.{replicate, Option, none, some}
use package.pumpkin_os.Prelude.Int.{ℤ, pos, negsuc}
use package.pumpkin_os.Net.State.{Nic, Net, NetRx, minus32, hz_of, ticks, after_round, wait_loop}
use package.pumpkin_os.Net.Wire.{
  htons, ntohs, ip_to_bytes, bytes_to_ip, ip_broadcast, word, word_at, slice, ip_checksum,
}

abbrev pub eth_arp : ℕ
eth_arp = 0x0806

abbrev pub eth_ipv4 : ℕ
eth_ipv4 = 0x0800

abbrev pub ip_proto_icmp : ℕ
ip_proto_icmp = 1

abbrev pub bcast_mac : List ℕ
bcast_mac = replicate 6 0xFF

-- True where a card is present.
pub net_init : {S : Type 0} → Nic S → Net S → Bool × Net S
net_init nic s =
    let d = nic.rtl8139_init s.dev in
    if nic.rtl8139_present d
    then (true, record s { net_mac = take 6 (nic.rtl8139_mac d); dev = d })
    else (false, record s { dev = d })

unfoldable pub eth_send : {S : Type 0} → Nic S → List ℕ → ℕ → List ℕ → Net S → ℤ × Net S
eth_send nic dst ethertype payload s =
    let frame = dst ++ (s.net_mac ++ (word (htons ethertype) ++ payload)) in
    let (r, d) = nic.rtl8139_send frame s.dev in (r, record s { dev = d })

-- `struct arp_pkt` in memory.
abbrev pub arp_packet : ℕ → List ℕ → ℕ → List ℕ → List ℕ → List ℕ
arp_packet oper sha spa tha tpa =
    word (htons 1)
    ++ (word (htons eth_ipv4)
        ++ (6 ∷ 4 ∷ (word (htons oper) ++ (sha ++ (ip_to_bytes spa ++ (tha ++ tpa))))))

pub arp_request : {S : Type 0} → Nic S → ℕ → Net S → Net S
arp_request nic tip s =
    (eth_send nic bcast_mac eth_arp
      (arp_packet 1 s.net_mac s.net_ip (replicate 6 0) (ip_to_bytes tip)) s).1

-- `arp_valid && arp_ip == ip`
abbrev pub cached : {S : Type 0} → ℕ → Net S → Option (List ℕ)
cached ip s = if s.arp_valid && (s.arp_ip == ip) then some s.arp_mac else none

-- The `for` of `resolve`, with the attempts that are left; `poll` is `net_poll(&r)`.
pub resolve_tries :
    {S : Type 0} → Nic S → (Net S → Net S) → ℕ → ℕ → ℕ → ℕ → Net S → Option (List ℕ) × Net S
resolve_tries nic poll fuel hz ip zero s = (none, s)
resolve_tries nic poll fuel hz ip (suc attempts) s =
    let sent = arp_request nic ip (record s { arp_valid = false }) in
    let (start, s1) = ticks nic sent in
    let try =
      wait_loop nic (λ t. ltb (minus32 t start) (hz / 2)) (λ u. let v = poll u in (cached ip v, v))
        fuel s1 in
    after_round try (resolve_tries nic poll fuel hz ip attempts try.1)

unfoldable pub resolve :
    {S : Type 0} → Nic S → (Net S → Net S) → ℕ → ℕ → Net S → Option (List ℕ) × Net S
resolve nic poll fuel ip s =
    after_round (cached ip s, s) (resolve_tries nic poll fuel (hz_of nic s) ip 4 s)

-- The next hop of `net_send_ip`.
unfoldable pub next_hop : {S : Type 0} → ℕ → Net S → ℕ
next_hop dst_ip s =
    if not (s.net_mask == 0) && not (bit_and dst_ip s.net_mask == bit_and s.net_ip s.net_mask)
    then s.net_gateway
    else dst_ip

-- The IPv4 header around its checksum, and the datagram.
abbrev pub ip_front : ℕ → ℕ → ℕ → List ℕ
ip_front iplen id proto =
    0x45 ∷ 0 ∷ (word (htons (iplen % 2 ^ 16)) ++ (word (htons id) ++ (0 ∷ 0 ∷ 64 ∷ proto ∷ [])))

abbrev pub ip_back : ℕ → ℕ → List ℕ
ip_back src dst = ip_to_bytes src ++ ip_to_bytes dst

pub ip_header : ℕ → ℕ → ℕ → ℕ → ℕ → List ℕ
ip_header iplen id proto src dst =
    let csum = ip_checksum (ip_front iplen id proto ++ 0 ∷ 0 ∷ ip_back src dst) in
    ip_front iplen id proto ++ (word csum ++ ip_back src dst)

-- `net_send_ip` from the length check on.
unfoldable pub send_datagram : {S : Type 0} → Nic S → ℕ → ℕ → List ℕ → List ℕ → Net S → ℤ × Net S
send_datagram nic dst_ip proto l4 dmac s =
    let iplen = 20 + length l4 in
    let pkt = ip_header iplen s.ip_id proto s.net_ip dst_ip ++ l4 in
    if ltb 1500 iplen
    then (negsuc 0, s)
    else eth_send nic dmac eth_ipv4 pkt (record s { ip_id = (s.ip_id + 1) % 2 ^ 16 })

-- What follows `resolve`.
abbrev pub when_resolved :
    {S : Type 0} → (List ℕ → Net S → ℤ × Net S) → Option (List ℕ) × Net S → ℤ × Net S
when_resolved send (none, s) = (negsuc 0, s)
when_resolved send (some dmac, s) = send dmac s

-- `l4` is read after `resolve`, so it is a function of the state there.
unfoldable pub net_send_ip :
    {S : Type 0} → Nic S → (Net S → Net S) → ℕ → ℕ → ℕ → (Net S → List ℕ) → Net S → ℤ × Net S
net_send_ip {S = S} nic poll fuel dst_ip proto l4 s =
    let send : List ℕ → Net S → ℤ × Net S =
      λ dmac u. send_datagram nic dst_ip proto (l4 u) dmac u in
    if dst_ip == ip_broadcast
    then send bcast_mac s
    else when_resolved send (resolve nic poll fuel (next_hop dst_ip s) s)

-- `msg` after the bytes of the request, with the header of the reply.
unfoldable pub echo_reply : List ℕ → List ℕ
echo_reply req =
    let csum = ip_checksum (0 ∷ 0 ∷ 0 ∷ 0 ∷ drop 4 req) in 0 ∷ 0 ∷ (word csum ++ drop 4 req)

pub icmp_echo_reply : {S : Type 0} → Nic S → (Net S → Net S) → ℕ → ℕ → List ℕ → Net S → Net S
icmp_echo_reply nic poll fuel dst req s =
    let filled = record s { msg = echo_reply req ++ drop (length req) s.msg } in
    if ltb 1500 (length req)
    then s
    else (net_send_ip nic poll fuel dst ip_proto_icmp (λ u. take (length req) u.msg) filled).1

-- The ARP packet at offset 14 of `rxframe`.
pub handle_arp : {S : Type 0} → Nic S → Net S → Net S
handle_arp nic s =
    let f = s.rxframe in
    let oper = ntohs (word_at 20 f) in
    let reply = arp_packet 2 s.net_mac s.net_ip (slice 22 6 f) (slice 28 4 f) in
    if oper == 2
    then record s { arp_ip = bytes_to_ip (slice 28 4 f); arp_mac = slice 22 6 f; arp_valid = true }
    else if (oper == 1) && (not (s.net_ip == 0) && (bytes_to_ip (slice 38 4 f) == s.net_ip))
    then (eth_send nic (slice 22 6 f) eth_arp reply s).1
    else s

-- `l4len`, cut to the `n` bytes of the frame; `none` where it is negative.
unfoldable pub clamp_l4 : ℕ → ℕ → ℕ → Option ℕ
clamp_l4 n ihl l4len =
    if ltb n (14 + ihl + l4len)
    then (if ltb n (14 + ihl) then none else some (n - 14 - ihl))
    else some l4len

-- The end of `net_poll`, from the ping on.
unfoldable pub deliver :
    {S : Type 0} → Nic S → (Net S → Net S) → ℕ → ℕ → Option ℕ → Net S → Option NetRx × Net S
deliver nic poll fuel ihl none s = (none, s)
deliver nic poll fuel ihl (some l4len) s =
    let f = s.rxframe in
    let l4 = 14 + ihl in
    let src = bytes_to_ip (slice 26 4 f) in
    let proto = get_or f 23 0 in
    if (proto == ip_proto_icmp) && (leb 8 l4len && (get_or f l4 0 == 8))
    then (none, icmp_echo_reply nic poll fuel src (slice l4 l4len f) s)
    else (some (record { src_ip = src; proto = proto; l4 = l4; l4len = l4len }), s)

-- The IPv4 header at offset 14 of `rxframe`, of which `n` bytes are new.
unfoldable pub handle_ip :
    {S : Type 0} → Nic S → (Net S → Net S) → ℕ → ℕ → Net S → Option NetRx × Net S
handle_ip nic poll fuel n s =
    let f = s.rxframe in
    let ihl = bit_and (get_or f 14 0) 0x0F * 4 in
    let total = ntohs (word_at 16 f) in
    if not (get_or f 14 0 / 2 ^ 4 == 4)
    then (none, s)
    else if ltb ihl 20
    then (none, s)
    else if ltb total ihl
    then (none, s)
    else deliver nic poll fuel ihl (clamp_l4 n ihl (total - ihl)) s

-- `net_poll` after the card's poll, which copied `n` bytes.
unfoldable pub handle_frame :
    {S : Type 0} → Nic S → (Net S → Net S) → ℕ → ℕ → Net S → Option NetRx × Net S
handle_frame nic poll fuel n s =
    let type = ntohs (word_at 12 s.rxframe) in
    if ltb n 14
    then (none, s)
    else if type == eth_arp
    then (none, handle_arp nic s)
    else if not (type == eth_ipv4)
    then (none, s)
    else handle_ip nic poll fuel n s

-- The bytes of the card over the front of `rxframe`.
unfoldable pub receive : {S : Type 0} → Nic S → Net S → ℕ × Net S
receive nic s =
    let (f, d) = nic.rtl8139_poll 1600 s.dev in
    (length f, record s { rxframe = f ++ drop (length f) s.rxframe; dev = d })

-- Where the depth is used up, a poll finds no frame.
unfoldable pub net_poll : {S : Type 0} → Nic S → ℕ → ℕ → Net S → Option NetRx × Net S
net_poll nic fuel zero s = (none, s)
net_poll nic fuel (suc depth) s =
    let (n, s1) = receive nic s in handle_frame nic (λ u. (net_poll nic fuel depth u).1) fuel n s1
