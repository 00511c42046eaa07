-- ===== src/Net/Dhcp.antt =====
-- net/dhcp.c: the messages of the client, the options of a reply, and the exchange.
pub mod Options
pub mod Lease
mod Tests
use package.pumpkin_os.Prelude.{
  ℕ, zero, suc, ◌+◌, ◌-◌, ◌*◌, ◌/◌, ◌%◌, ◌^◌, ltb, leb, ◌==◌, ◌&&◌, not, if◌then◌else◌, Bool, true,
  false,
}
use package.pumpkin_os.Prelude.{
  List, [], ◌∷◌, ◌++◌, length, get_or, take, drop, replicate, Option, none, some,
}
use package.pumpkin_os.Net.Wire.{htons, word, slice, ip_to_bytes, bytes_to_ip, ip_broadcast}
use package.pumpkin_os.Net.State.{Nic, Net, ticks, hz_of, minus32, after_round, wait_loop}
use package.pumpkin_os.Net.Udp.{Datagram, time_limit, net_send_udp, net_recv_udp}

-- The loop of `find_opt` from index `i` of the options, with fuel for each index before `len`: the
-- index of the value, and its length.
pub find_from : ℕ → ℕ → List ℕ → ℕ → ℕ → Option (ℕ × ℕ)
find_from zero i opt len want = none
find_from (suc n) i opt len want =
    let t = get_or opt i 0 in
    let l = get_or opt (i + 1) 0 in
    let after_pad = find_from n (i + 1) opt len want in
    let after_option = find_from n (i + (2 + l)) opt len want in
    if not (ltb (i + 1) len)
    then none
    else if t == 0
    then after_pad
    else if t == 255
    then none
    else if t == want
    then some (i + 2, l)
    else after_option

pub find_opt : List ℕ → ℕ → ℕ → Option (ℕ × ℕ)
find_opt opt len want = find_from len 4 opt len want

abbrev pub magic : List ℕ
magic = 0x63 ∷ 0x82 ∷ 0x53 ∷ 0x63 ∷ []

-- `fill_common`, with the options that its callers write behind the magic cookie.
pub dhcp_message : List ℕ → List ℕ → List ℕ → List ℕ
dhcp_message mac xid options =
    1
    ∷ 1
    ∷ 6
    ∷ 0
    ∷ (xid
        ++ (0
            ∷ 0
            ∷ (word (htons 0x8000)
                ++ (replicate 16 0
                    ++ (take 6 mac
                        ++ (replicate 202 0
                            ++ (magic ++ (options ++ replicate (308 - length options) 0))))))))

abbrev pub discover_options : List ℕ
discover_options = 53 ∷ 1 ∷ 1 ∷ 55 ∷ 3 ∷ 1 ∷ 3 ∷ 6 ∷ 255 ∷ []

-- The option with the server's address, where the offer has one.
abbrev pub server_option : Option (List ℕ) → List ℕ
server_option none = []
server_option (some sid) = 54 ∷ 4 ∷ sid

pub request_options : ℕ → Option (List ℕ) → List ℕ
request_options offered sid =
    53
    ∷ 1
    ∷ 3
    ∷ 50
    ∷ 4
    ∷ (ip_to_bytes offered ++ (server_option sid ++ (55 ∷ 3 ∷ 1 ∷ 3 ∷ 6 ∷ 255 ∷ [])))

-- `memcmp(a, b, 4) == 0`
abbrev pub same_bytes : List ℕ → List ℕ → Bool
same_bytes [] ys = true
same_bytes (x ∷ xs) ys = (x == get_or ys 0 0) && same_bytes xs (drop 1 ys)

-- `t && vl >= 1 && t[0] == want_type`
abbrev pub is_type : List ℕ → ℕ → Option (ℕ × ℕ) → Bool
is_type opt want_type none = false
is_type opt want_type (some (at, vl)) = leb 1 vl && (get_or opt at 0 == want_type)

-- The tests of `wait_reply` on a message of `n` bytes in the buffer.
pub is_reply : List ℕ → ℕ → ℕ → List ℕ → Bool
is_reply xid want_type n out =
    leb 240 n
    && ((get_or out 0 0 == 2)
        && (same_bytes xid (slice 4 4 out)
            && is_type (drop 236 out) want_type (find_opt (drop 236 out) (n - 236) 53)))

-- A datagram, copied over the front of the buffer and tested.
pub accept_reply : {S : Type 0} → List ℕ → ℕ → Option Datagram × Net S → Option (Unit {0}) × Net S
accept_reply xid want_type (none, s) = (none, s)
accept_reply {S = S} xid want_type (some d, s) =
    let n = length d.payload in
    let t : Net S = record s { reply = d.payload ++ drop n s.reply } in
    if is_reply xid want_type n t.reply then (some tt, t) else (none, t)

-- `find_opt(reply.options, sizeof(reply.options), want, &vl)`, and the address there where the test
-- on the length holds.
abbrev pub address_at : List ℕ → (ℕ → Bool) → Option (ℕ × ℕ) → Option (List ℕ)
address_at opt fits none = none
address_at opt fits (some (at, vl)) = if fits vl then some (slice at 4 opt) else none

pub option_address : ℕ → (ℕ → Bool) → List ℕ → Option (List ℕ)
option_address want fits reply =
    let opt = drop 236 reply in address_at opt fits (find_opt opt 312 want)

abbrev pub address_or : ℕ → Option (List ℕ) → ℕ
address_or old none = old
address_or old (some bytes) = bytes_to_ip bytes

-- The end of `dhcp_configure`.
pub apply_lease : {S : Type 0} → Net S → Net S
apply_lease s = record s {
  net_ip = bytes_to_ip (slice 16 4 s.reply);
  net_mask = address_or s.net_mask (option_address 1 (λ vl. vl == 4) s.reply);
  net_gateway = address_or s.net_gateway (option_address 3 (λ vl. leb 4 vl) s.reply);
  net_dns = address_or s.net_dns (option_address 6 (λ vl. leb 4 vl) s.reply);
  net_up = true;
}

-- The transaction number, of the clock.
pub transaction : ℕ → List ℕ
transaction ticks =
    let x = (ticks * 2654435761 + 0x9139) % 2 ^ 32 in
    x % 2 ^ 8 ∷ (x / 2 ^ 8) % 2 ^ 8 ∷ (x / 2 ^ 16) % 2 ^ 8 ∷ (x / 2 ^ 24) % 2 ^ 8 ∷ []

module _ {S : Type 0} (nic : Nic S) (fuel depth : ℕ) where
  pub wait_reply : List ℕ → ℕ → ℕ → Net S → Option (Unit {0}) × Net S
  wait_reply xid want_type timeout_ms s =
      let (start, s1) = ticks nic s in
      wait_loop nic (λ t. leb (minus32 t start) (time_limit timeout_ms (hz_of nic s)))
        (λ u. accept_reply xid want_type (net_recv_udp nic fuel depth 68 548 500 u)) fuel s1

  -- A `for` of `dhcp_configure`, with the attempts that are left.
  pub exchange : List ℕ → List ℕ → ℕ → ℕ → Net S → Option (Unit {0}) × Net S
  exchange xid options want_type zero s = (none, s)
  exchange xid options want_type (suc attempts) s =
      let m = take 300 (dhcp_message s.net_mac xid options) in
      let sent = (net_send_udp nic fuel depth ip_broadcast 68 67 m s).1 in
      let try = wait_reply xid want_type 1000 sent in
      after_round try (exchange xid options want_type attempts try.1)

  -- `if (!ok) return 0;` and the lease.
  pub end_request : Option (Unit {0}) × Net S → Bool × Net S
  end_request (none, s) = (false, s)
  end_request (some _, s) = (true, apply_lease s)

  pub request : List ℕ → Option (Unit {0}) × Net S → Bool × Net S
  request xid (none, s) = (false, s)
  request xid (some _, s) =
      let offered = bytes_to_ip (slice 16 4 s.reply) in
      let sid = option_address 54 (λ vl. vl == 4) s.reply in
      end_request (exchange xid (request_options offered sid) 5 8 s)

  pub dhcp_configure : Net S → Bool × Net S
  dhcp_configure s =
      let reset : Net S = record s {
        dev = nic.rtl8139_reset_rx s.dev;
        net_ip = 0;
        net_gateway = 0;
        net_dns = 0;
        net_mask = 0;
        net_up = false;
      } in
      let (t, s1) = ticks nic reset in
      let xid = transaction t in
      let answer = request xid (exchange xid discover_options 2 8 s1) in
      if nic.rtl8139_present s.dev then answer else (false, s)
