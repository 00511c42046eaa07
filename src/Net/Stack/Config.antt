-- ===== src/Net/Stack/Config.antt =====
-- The configuration in net/net.c: no send and no poll changes it.
use pumpkin_os.Prelude.{
  ℕ, zero, suc, ◌+◌, ◌/◌, ◌≡◌, refl, ◌∙◌, Bool, false, if_cases, ltb, leb, ◌==◌, ◌&&◌, not, length,
  get_or, bit_and, ◌*◌, ◌-◌, ◌^◌, ◌%◌, ◌++◌,
}
use pumpkin_os.Prelude.{List, Option, none, some, drop, take}
use pumpkin_os.Prelude.Int.{ℤ}
use pumpkin_os.Net.Wire.{ntohs, word_at, ip_broadcast, slice, bytes_to_ip}
use pumpkin_os.Net.State.{Nic, Net, ticks, after_round, wait_loop, hz_of, minus32}
use pumpkin_os.Net.Stack.{
  eth_arp, eth_ipv4, ip_proto_icmp, bcast_mac, eth_send, arp_request, cached, resolve_tries,
  resolve, next_hop, send_datagram, when_resolved, net_send_ip, echo_reply, icmp_echo_reply,
  handle_arp, clamp_l4, deliver, handle_ip, handle_frame, receive, net_poll,
}

-- The six variables.
pub record Keeps {S : Type 0} (s t : Net S) : Type 0 where
  pub mac : t.net_mac ≡ s.net_mac
  pub ip : t.net_ip ≡ s.net_ip
  pub gateway : t.net_gateway ≡ s.net_gateway
  pub dns : t.net_dns ≡ s.net_dns
  pub mask : t.net_mask ≡ s.net_mask
  pub up : t.net_up ≡ s.net_up

-- The state of a result.
abbrev pub KeepsIn : {S A : Type 0} → Net S → A × Net S → Type 0
KeepsIn s (a, t) = Keeps s t

pub Keeps-refl : {S : Type 0} {s : Net S} → Keeps s s
Keeps-refl = record { mac = refl; ip = refl; gateway = refl; dns = refl; mask = refl; up = refl }

pub Keeps-trans : {S : Type 0} {s t u : Net S} → Keeps s t → Keeps t u → Keeps s u
Keeps-trans p q = record {
  mac = q.mac ∙ p.mac;
  ip = q.ip ∙ p.ip;
  gateway = q.gateway ∙ p.gateway;
  dns = q.dns ∙ p.dns;
  mask = q.mask ∙ p.mask;
  up = q.up ∙ p.up;
}

-- The six variables are the same in both states by computation.
fields :
    {S : Type 0} {s t : Net S}
    → t.net_mac ≡ s.net_mac
    → t.net_ip ≡ s.net_ip
    → t.net_gateway ≡ s.net_gateway
    → t.net_dns ≡ s.net_dns
    → t.net_mask ≡ s.net_mask
    → t.net_up ≡ s.net_up
    → Keeps s t
fields a b c d e f = record { mac = a; ip = b; gateway = c; dns = d; mask = e; up = f }

module _ {S : Type 0} (nic : Nic S) where
  pub ticks-Keeps : (s : Net S) → Keeps s (ticks nic s).1
  ticks-Keeps s = fields refl refl refl refl refl refl

  eth_send-Keeps :
      (dst : List ℕ) (type : ℕ) (payload : List ℕ) (s : Net S)
      → Keeps s (eth_send nic dst type payload s).1
  unfolding eth_send
  eth_send-Keeps dst type payload s = fields refl refl refl refl refl refl

  arp_request-Keeps : (tip : ℕ) (s : Net S) → Keeps s (arp_request nic tip s)
  unfolding arp_request
  arp_request-Keeps tip s = eth_send-Keeps bcast_mac eth_arp _ s

  after_round-Keeps :
      {A : Type 0} (s : Net S) (x y : Option A × Net S)
      → Keeps s x.1
      → Keeps s y.1
      → Keeps s (after_round x y).1
  after_round-Keeps s (none, t) y p q = q
  after_round-Keeps s (some a, t) y p q = p

  pub wait_loop-Keeps :
      {A : Type 0} (more : ℕ → Bool) (body : Net S → Option A × Net S)
      → ((u : Net S) → Keeps u (body u).1)
      → (n : ℕ) (s : Net S) → Keeps s (wait_loop nic more body n s).1
  unfolding wait_loop
  wait_loop-Keeps more body h zero s = Keeps-refl
  wait_loop-Keeps more body h (suc n) s =
      let s1 = (ticks nic s).1 in
      let one = Keeps-trans (ticks-Keeps s) (h s1) in
      if_cases (KeepsIn s) (more (ticks nic s).0) _ _
        (λ _.
          after_round-Keeps s (body s1) (wait_loop nic more body n (body s1).1) one
            (Keeps-trans one (wait_loop-Keeps more body h n (body s1).1)))
        (λ _. ticks-Keeps s)

  module _ (poll : Net S → Net S) (polls : (u : Net S) → Keeps u (poll u)) (fuel : ℕ) where
    resolve_tries-Keeps :
        (hz ip attempts : ℕ) (s : Net S) → Keeps s (resolve_tries nic poll fuel hz ip attempts s).1
    unfolding resolve_tries
    resolve_tries-Keeps hz ip zero s = Keeps-refl
    resolve_tries-Keeps hz ip (suc attempts) s =
        let start : Net S = record s { arp_valid = false } in
        let sent = arp_request nic ip start in
        let (t, s1) = ticks nic sent in
        let more : ℕ → Bool = λ u. ltb (minus32 u t) (hz / 2) in
        let body : Net S → Option (List ℕ) × Net S = λ u. (cached ip (poll u), poll u) in
        let try = wait_loop nic more body fuel s1 in
        let first : Keeps s start = fields refl refl refl refl refl refl in
        let tried =
          Keeps-trans (Keeps-trans first (arp_request-Keeps ip start))
            (Keeps-trans (ticks-Keeps sent) (wait_loop-Keeps more body polls fuel s1)) in
        after_round-Keeps s try (resolve_tries nic poll fuel hz ip attempts try.1) tried
          (Keeps-trans tried (resolve_tries-Keeps hz ip attempts try.1))

    resolve-Keeps : (ip : ℕ) (s : Net S) → Keeps s (resolve nic poll fuel ip s).1
    unfolding resolve
    resolve-Keeps ip s =
        after_round-Keeps s (cached ip s, s) (resolve_tries nic poll fuel (hz_of nic s) ip 4 s)
          Keeps-refl (resolve_tries-Keeps (hz_of nic s) ip 4 s)

    send_datagram-Keeps :
        (dst proto : ℕ) (l4 dmac : List ℕ) (s : Net S)
        → Keeps s (send_datagram nic dst proto l4 dmac s).1
    unfolding send_datagram
    send_datagram-Keeps dst proto l4 dmac s =
        let numbered : Net S = record s { ip_id = (s.ip_id + 1) % 2 ^ 16 } in
        let first : Keeps s numbered = fields refl refl refl refl refl refl in
        if_cases (KeepsIn s) (ltb 1500 (20 + length l4)) _ _ (λ _. Keeps-refl)
          (λ _. Keeps-trans first (eth_send-Keeps dmac eth_ipv4 _ numbered))

    when_resolved-Keeps :
        (s : Net S) (send : List ℕ → Net S → ℤ × Net S) (x : Option (List ℕ) × Net S)
        → ((dmac : List ℕ) (u : Net S) → Keeps u (send dmac u).1)
        → Keeps s x.1
        → Keeps s (when_resolved send x).1
    when_resolved-Keeps s send (none, t) h p = p
    when_resolved-Keeps s send (some dmac, t) h p = Keeps-trans p (h dmac t)

    pub net_send_ip-Keeps :
        (dst proto : ℕ) (l4 : Net S → List ℕ) (s : Net S)
        → Keeps s (net_send_ip nic poll fuel dst proto l4 s).1
    unfolding net_send_ip
    net_send_ip-Keeps dst proto l4 s =
        if_cases (KeepsIn s) (dst == ip_broadcast) _ _
          (λ _. send_datagram-Keeps dst proto (l4 s) bcast_mac s)
          (λ _.
            when_resolved-Keeps s _ (resolve nic poll fuel (next_hop dst s) s)
              (λ dmac u. send_datagram-Keeps dst proto (l4 u) dmac u)
              (resolve-Keeps (next_hop dst s) s))

    icmp_echo_reply-Keeps :
        (dst : ℕ) (req : List ℕ) (s : Net S) → Keeps s (icmp_echo_reply nic poll fuel dst req s)
    unfolding icmp_echo_reply
    icmp_echo_reply-Keeps dst req s =
        let filled : Net S = record s { msg = echo_reply req ++ drop (length req) s.msg } in
        let first : Keeps s filled = fields refl refl refl refl refl refl in
        if_cases (Keeps s) (ltb 1500 (length req)) _ _ (λ _. Keeps-refl)
          (λ _.
            Keeps-trans first
              (net_send_ip-Keeps dst ip_proto_icmp (λ u. take (length req) u.msg) filled))

    handle_arp-Keeps : (s : Net S) → Keeps s (handle_arp nic s)
    unfolding handle_arp
    handle_arp-Keeps s =
        if_cases (Keeps s) (ntohs (word_at 20 s.rxframe) == 2) _ _
          (λ _. fields refl refl refl refl refl refl)
          (λ _.
            if_cases (Keeps s)
              ((ntohs (word_at 20 s.rxframe) == 1)
                && (not (s.net_ip == 0) && (bytes_to_ip (slice 38 4 s.rxframe) == s.net_ip)))
              _ _ (λ _. eth_send-Keeps (slice 22 6 s.rxframe) eth_arp _ s) (λ _. Keeps-refl))

    deliver-Keeps :
        (ihl : ℕ) (l4len : Option ℕ) (s : Net S) → Keeps s (deliver nic poll fuel ihl l4len s).1
    unfolding deliver
    deliver-Keeps ihl none s = Keeps-refl
    deliver-Keeps ihl (some l4len) s =
        if_cases (KeepsIn s)
          ((get_or s.rxframe 23 0 == 1) && (leb 8 l4len && (get_or s.rxframe (14 + ihl) 0 == 8))) _
          _ (λ _. icmp_echo_reply-Keeps _ _ s) (λ _. Keeps-refl)

    handle_ip-Keeps : (n : ℕ) (s : Net S) → Keeps s (handle_ip nic poll fuel n s).1
    unfolding handle_ip
    handle_ip-Keeps n s =
        let ihl = bit_and (get_or s.rxframe 14 0) 0x0F * 4 in
        let total = ntohs (word_at 16 s.rxframe) in
        if_cases (KeepsIn s) (not (get_or s.rxframe 14 0 / 2 ^ 4 == 4)) _ _ (λ _. Keeps-refl)
          (λ _.
            if_cases (KeepsIn s) (ltb ihl 20) _ _ (λ _. Keeps-refl)
              (λ _.
                if_cases (KeepsIn s) (ltb total ihl) _ _ (λ _. Keeps-refl)
                  (λ _. deliver-Keeps ihl (clamp_l4 n ihl (total - ihl)) s)))

    handle_frame-Keeps : (n : ℕ) (s : Net S) → Keeps s (handle_frame nic poll fuel n s).1
    unfolding handle_frame
    handle_frame-Keeps n s =
        let type = ntohs (word_at 12 s.rxframe) in
        if_cases (KeepsIn s) (ltb n 14) _ _ (λ _. Keeps-refl)
          (λ _.
            if_cases (KeepsIn s) (type == eth_arp) _ _ (λ _. handle_arp-Keeps s)
              (λ _.
                if_cases (KeepsIn s) (not (type == eth_ipv4)) _ _ (λ _. Keeps-refl)
                  (λ _. handle_ip-Keeps n s)))

  receive-Keeps : (s : Net S) → Keeps s (receive nic s).1
  unfolding receive
  receive-Keeps s = fields refl refl refl refl refl refl

  -- Whatever frame arrives, `net_poll` leaves the addresses, the mask and `net_up`, also through the
  -- polls inside it.
  pub net_poll-Keeps : (fuel depth : ℕ) (s : Net S) → Keeps s (net_poll nic fuel depth s).1
  unfolding net_poll
  net_poll-Keeps fuel zero s = Keeps-refl
  net_poll-Keeps fuel (suc depth) s = Keeps-trans (receive-Keeps s) (
      handle_frame-Keeps (λ u. (net_poll nic fuel depth u).1) (λ u. net_poll-Keeps fuel depth u)
        fuel (receive nic s).0 (receive nic s).1)
