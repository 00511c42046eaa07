-- ===== src/Net/State.antt =====
-- The variables of net/net.c, the card and the timer as an interface, and the loops that wait for a
-- frame until a time. A wait loop takes fuel, one unit for each round.
pub mod Wait
mod Tests
use package.pumpkin_os.Prelude.{
  ℕ, zero, suc, ◌+◌, ◌-◌, ◌%◌, ◌^◌, ◌==◌, if◌then◌else◌, Bool, List, Option, none, some,
}
use package.pumpkin_os.Prelude.Int.{ℤ}

-- drivers/rtl8139.c and drivers/timer.c as this code calls them. `rtl8139_poll` takes the size of
-- the buffer and gives the bytes that it copies there.
pub record Nic (S : Type 0) : Type 0 where
  pub rtl8139_poll : ℕ → S → List ℕ × S
  pub rtl8139_send : List ℕ → S → ℤ × S
  pub rtl8139_init : S → S
  pub rtl8139_present : S → Bool
  pub rtl8139_mac : S → List ℕ
  pub rtl8139_reset_rx : S → S
  pub timer_ticks : S → ℕ × S
  pub timer_hz : S → ℕ

-- The variables of net/net.c, the buffer `msg` of `icmp_echo_reply`, the buffer `reply` of
-- `dhcp_configure` in net/dhcp.c, and `ping_seq` of net/icmp.c.
pub record Net (S : Type 0) : Type 0 where
  pub net_mac : List ℕ
  pub net_ip : ℕ
  pub net_gateway : ℕ
  pub net_dns : ℕ
  pub net_mask : ℕ
  pub net_up : Bool
  pub arp_ip : ℕ
  pub arp_mac : List ℕ
  pub arp_valid : Bool
  pub ip_id : ℕ
  pub rxframe : List ℕ
  pub msg : List ℕ
  pub reply : List ℕ
  pub ping_seq : ℕ
  pub dev : S

-- `struct net_rx`, with the index in `rxframe` that `l4` points to.
pub record NetRx : Type 0 where
  pub src_ip : ℕ
  pub proto : ℕ
  pub l4 : ℕ
  pub l4len : ℕ

-- `a - b` of 32-bit numbers.
abbrev pub minus32 : ℕ → ℕ → ℕ
minus32 a b = (a + 2 ^ 32 - b) % 2 ^ 32

-- `uint32_t hz = timer_hz(); if (!hz) hz = 100;`
abbrev pub hz_of : {S : Type 0} → Nic S → Net S → ℕ
hz_of nic s = if nic.timer_hz s.dev == 0 then 100 else nic.timer_hz s.dev

-- A reading of `timer_ticks()`.
abbrev pub ticks : {S : Type 0} → Nic S → Net S → ℕ × Net S
ticks nic s = let (t, d) = nic.timer_ticks s.dev in (t, record s { dev = d })

-- What a round of a wait loop does: it ends the loop with an answer, or goes on.
abbrev pub after_round : {S A : Type 0} → Option A × Net S → Option A × Net S → Option A × Net S
after_round (some a, s) rest = (some a, s)
after_round (none, s) rest = rest

-- `while (more(timer_ticks())) body`, for at most as many rounds as there is fuel.
unfoldable pub wait_loop :
    {S A : Type 0} → Nic S → (ℕ → Bool) → (Net S → Option A × Net S) → ℕ → Net S → Option A × Net S
wait_loop nic more body zero s = (none, s)
wait_loop nic more body (suc n) s =
    let (t, s1) = ticks nic s in
    let round = body s1 in
    let rest = wait_loop nic more body n round.1 in
    if more t then after_round round rest else (none, s1)
