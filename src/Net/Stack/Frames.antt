-- ===== src/Net/Stack/Frames.antt =====
-- `net_poll` of net/net.c: what it hands to the upper layers lies in the frame that it received.
use pumpkin_os.Prelude.{
  ℕ, zero, suc, ◌+◌, ◌-◌, ◌*◌, ◌/◌, ◌^◌, ◌≤◌, ◌≡◌, refl, arith, bit_and, Bool, true, false, ltb,
  leb, ltb→le, ◌==◌, ==→≡, not, ◌&&◌, if_cases,
}
use pumpkin_os.Prelude.{List, get_or, Option, none, some, if◌then◌else◌}
use pumpkin_os.Net.Wire.{ntohs, word_at, slice, bytes_to_ip}
use pumpkin_os.Net.State.{Nic, Net, NetRx}
use pumpkin_os.Net.Stack.{
  eth_arp, eth_ipv4, clamp_l4, deliver, handle_ip, handle_frame, receive, net_poll,
}

-- A datagram of the `n` bytes received: its bytes lie behind the Ethernet header and an IP header
-- of at least 20 bytes, and inside the frame; addresses and protocol are the header's.
pub record InFrame (n : ℕ) (f : List ℕ) (rx : NetRx) : Type 0 where
  pub behind : 34 ≤ rx.l4
  pub inside : rx.l4 + rx.l4len ≤ n
  pub source : rx.src_ip ≡ bytes_to_ip (slice 26 4 f)
  pub protocol : rx.proto ≡ get_or f 23 0
  pub ipv4 : ntohs (word_at 12 f) ≡ 0x0800

-- Nothing was delivered, or a datagram in the frame, with the frame still in the buffer.
abbrev pub Delivers : {S : Type 0} → ℕ → Net S → Option NetRx × Net S → Type 0
Delivers n s (none, t) = Unit
Delivers n s (some rx, t) = InFrame n s.rxframe rx × (t ≡ s)

-- A length that fits.
abbrev Clamped : ℕ → ℕ → Option ℕ → Type 0
Clamped n ihl none = Unit
Clamped n ihl (some l4len) = 14 + ihl + l4len ≤ n

clamp_l4-Clamped : (n ihl l4len : ℕ) → Clamped n ihl (clamp_l4 n ihl l4len)
unfolding clamp_l4
clamp_l4-Clamped n ihl l4len =
    if_cases (Clamped n ihl) (ltb n (14 + ihl + l4len))
      (if ltb n (14 + ihl) then none else some (n - 14 - ihl)) (some l4len)
      (λ e.
        if_cases (Clamped n ihl) (ltb n (14 + ihl)) none (some (n - 14 - ihl)) (λ _. tt)
          (λ f. omega (arith, ltb→le _ _ f)))
      (λ e. ltb→le _ _ e)

module _ {S : Type 0} (nic : Nic S) (poll : Net S → Net S) (fuel : ℕ) where
  deliver-Delivers :
      (n ihl : ℕ) (l4len : Option ℕ) (s : Net S)
      → 20 ≤ ihl
      → Clamped n ihl l4len
      → ntohs (word_at 12 s.rxframe) ≡ 0x0800
      → Delivers n s (deliver nic poll fuel ihl l4len s)
  unfolding deliver
  deliver-Delivers n ihl none s h c e = tt
  deliver-Delivers n ihl (some l4len) s h c e =
      if_cases (Delivers n s)
        ((get_or s.rxframe 23 0 == 1) && (leb 8 l4len && (get_or s.rxframe (14 + ihl) 0 == 8))) _ _
        (λ _. tt)
        (λ _. (
          record { behind = omega arith; inside = c; source = refl; protocol = refl; ipv4 = e },
          refl,
        ))

  handle_ip-Delivers :
      (n : ℕ) (s : Net S)
      → ntohs (word_at 12 s.rxframe) ≡ 0x0800
      → Delivers n s (handle_ip nic poll fuel n s)
  unfolding handle_ip
  handle_ip-Delivers n s e =
      let ihl = bit_and (get_or s.rxframe 14 0) 0x0F * 4 in
      let total = ntohs (word_at 16 s.rxframe) in
      if_cases (Delivers n s) (not (get_or s.rxframe 14 0 / 2 ^ 4 == 4)) _ _ (λ _. tt)
        (λ _.
          if_cases (Delivers n s) (ltb ihl 20) _ _ (λ _. tt)
            (λ f.
              if_cases (Delivers n s) (ltb total ihl) _ _ (λ _. tt)
                (λ _.
                  deliver-Delivers n ihl (clamp_l4 n ihl (total - ihl)) s (ltb→le _ _ f)
                    (clamp_l4-Clamped n ihl (total - ihl)) e)))

  -- What a frame of `n` bytes delivers, whatever a poll inside this poll does: nothing, or an IPv4
  -- datagram whose bytes lie behind the headers and inside the `n` bytes, the buffer unchanged.
  pub handle_frame-Delivers : (n : ℕ) (s : Net S) → Delivers n s (handle_frame nic poll fuel n s)
  unfolding handle_frame
  handle_frame-Delivers n s =
      let type = ntohs (word_at 12 s.rxframe) in
      if_cases (Delivers n s) (ltb n 14) _ _ (λ _. tt)
        (λ _.
          if_cases (Delivers n s) (type == eth_arp) _ _ (λ _. tt)
            (λ _.
              if_cases (Delivers n s) (not (type == eth_ipv4)) _ _ (λ _. tt)
                (λ e. handle_ip-Delivers n s (==→≡ _ _ (not_false _ e)))))
    where
      not_false : (b : Bool) → not b ≡ false → b ≡ true
      not_false true e = refl
      not_false false e = absurd (cc e)

-- `net_poll` hands up nothing, or a datagram inside the bytes that the card gave in this call, which
-- stand at the front of the buffer when it returns.
pub net_poll-Delivers :
    {S : Type 0} (nic : Nic S) (fuel depth : ℕ) (s : Net S)
    → Delivers (receive nic s).0 (receive nic s).1 (net_poll nic fuel depth s)
unfolding net_poll
net_poll-Delivers nic fuel zero s = tt
net_poll-Delivers nic fuel (suc depth) s =
    handle_frame-Delivers nic (λ u. (net_poll nic fuel depth u).1) fuel (receive nic s).0
      (receive nic s).1
