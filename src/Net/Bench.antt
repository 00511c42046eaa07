-- ===== src/Net/Bench.antt =====
-- A card and a clock for the runs: frames that wait, a clock that goes up with every reading, and
-- the frames that were sent, the last one first.
use pumpkin_os.Prelude.{ℕ, ◌+◌, ◌%◌, ◌^◌, List, [], ◌∷◌, true, replicate}
use pumpkin_os.Prelude.Int.{pos}
use pumpkin_os.Net.State.{Nic, Net}

pub record Bench : Type 0 where
  pub waiting : List (List ℕ)
  pub clock : ℕ
  pub sent : List (List ℕ)

abbrev pub next_frame : List (List ℕ) → List ℕ × List (List ℕ)
next_frame [] = ([], [])
next_frame (f ∷ fs) = (f, fs)

abbrev pub bench_nic : Nic Bench
bench_nic = record {
  rtl8139_poll = λ _ b. ((next_frame b.waiting).0, record b { waiting = (next_frame b.waiting).1 });
  rtl8139_send = λ f b. (pos 0, record b { sent = f ∷ b.sent });
  rtl8139_init = λ b. b;
  rtl8139_present = λ _. true;
  rtl8139_mac = λ _. 2 ∷ 0 ∷ 0 ∷ 0 ∷ 0 ∷ 1 ∷ [];
  rtl8139_reset_rx = λ b. b;
  timer_ticks = λ b. (b.clock % 2 ^ 32, record b { clock = b.clock + 1 });
  timer_hz = λ _. 4;
}

-- 10.0.2.15 with its gateway 10.0.2.2 in the cache, and some frames to come.
abbrev pub bench_net : List (List ℕ) → Net Bench
bench_net frames = record {
  net_mac = 2 ∷ 0 ∷ 0 ∷ 0 ∷ 0 ∷ 1 ∷ [];
  net_ip = 0x0A00020F;
  net_gateway = 0x0A000202;
  net_dns = 0x0A000203;
  net_mask = 0xFFFFFF00;
  net_up = true;
  arp_ip = 0x0A000202;
  arp_mac = 2 ∷ 0 ∷ 0 ∷ 0 ∷ 0 ∷ 2 ∷ [];
  arp_valid = true;
  ip_id = 1;
  rxframe = replicate 1600 0;
  msg = replicate 1500 0;
  reply = replicate 548 0;
  ping_seq = 0;
  dev = record { waiting = frames; clock = 0; sent = [] };
}
