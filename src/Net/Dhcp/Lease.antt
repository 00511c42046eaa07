-- ===== src/Net/Dhcp/Lease.antt =====
-- `dhcp_configure` of net/dhcp.c: a lease comes from an ACK of the exchange, or nothing is configured.
use pumpkin_os.Prelude.{ℕ, ◌≡◌, Bool, true, false, List, Option, none, some}
use pumpkin_os.Net.Wire.{slice, bytes_to_ip}
use pumpkin_os.Net.State.{Nic, Net}
use pumpkin_os.Net.Stack.Config.{Keeps}
use pumpkin_os.Net.Dhcp.{is_reply}

-- The buffer holds a reply of the type, which passed the tests of `wait_reply`.
pub record Replied {S : Type 0} (xid : List ℕ) (want_type : ℕ) (t : Net S) : Type 0 where
  pub size : ℕ
  pub tested : is_reply xid want_type size t.reply ≡ true

-- An answer was a reply; the configuration is the same in each case.
abbrev Exchanged : {S : Type 0} → List ℕ → ℕ → Net S → Option (Unit {0}) × Net S → Type 0
Exchanged xid want_type s (none, t) = Keeps s t
Exchanged xid want_type s (some _, t) = Keeps s t × Replied xid want_type t

module _ {S : Type 0} (nic : Nic S) (fuel depth : ℕ) where
  -- A lease: the address of an ACK of this exchange; or no configuration.
  abbrev pub Leased : List ℕ → Bool × Net S → Type 0
  Leased xid (true, t) =
      (t.net_up ≡ true) × (t.net_ip ≡ bytes_to_ip (slice 16 4 t.reply)) × Replied xid 5 t
  Leased xid (false, t) =
      (t.net_up ≡ false) × (t.net_ip ≡ 0) × (t.net_gateway ≡ 0) × (t.net_dns ≡ 0) × (t.net_mask ≡ 0)

  -- The reset configuration.
  abbrev Reset : Net S → Type 0
  Reset s =
      (s.net_up ≡ false) × (s.net_ip ≡ 0) × (s.net_gateway ≡ 0) × (s.net_dns ≡ 0) × (s.net_mask ≡ 0)

-- The state in which `dhcp_configure` reads the clock for the transaction number.
abbrev pub start_of : {S : Type 0} → Nic S → Net S → Net S
start_of nic s = record s {
  dev = nic.rtl8139_reset_rx s.dev;
  net_ip = 0;
  net_gateway = 0;
  net_dns = 0;
  net_mask = 0;
  net_up = false;
}
