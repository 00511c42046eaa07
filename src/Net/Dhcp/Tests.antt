-- ===== src/Net/Dhcp/Tests.antt =====
-- The theorems about net/dhcp.c at concrete inputs.
use pumpkin_os.Prelude.{
  ℕ, ◌≤◌, ◌≡◌, ◌≢◌, refl, arith, List, [], ◌∷◌, ◌++◌, length, some, true, false, drop, get_or,
  replicate,
}
use pumpkin_os.Net.Wire.{htons, bytes_to_ip, ip_to_bytes}
use pumpkin_os.Net.State.{wait_loop}
use pumpkin_os.Net.Bench.{bench_nic, bench_net}
use pumpkin_os.Net.Dhcp.{
  find_from, find_opt, magic, dhcp_message, discover_options, request_options, is_reply,
  option_address, apply_lease, wait_reply, exchange, request, dhcp_configure,
}
use pumpkin_os.Net.Dhcp.Options.{coded, lookup, find_opt-lookup}

abbrev offer : List (ℕ × List ℕ)
offer = (53, 2 ∷ []) ∷ (54, 10 ∷ 0 ∷ 2 ∷ 2 ∷ []) ∷ []

not_zero : (t : ℕ) → 1 ≤ t → t ≢ 0
not_zero t h e = omega arith

not_end : (t : ℕ) → t ≤ 254 → t ≢ 255
not_end t h e = omega arith

find_opt-lookup_example :
    find_opt (magic ++ (coded offer ++ (0 ∷ 0 ∷ []))) 64 54 ≡ lookup 4 54 offer
find_opt-lookup_example =
    find_opt-lookup offer (0 ∷ 0 ∷ []) 64 54
      (
        not_zero 53 (omega arith),
        not_end 53 (omega arith),
        (not_zero 54 (omega arith), not_end 54 (omega arith), tt),
      )
      (omega arith)

-- A discover message of 548 bytes asks for three options, and is no reply.
message-run :
    let m = dhcp_message (2 ∷ 0 ∷ 0 ∷ 0 ∷ 0 ∷ 1 ∷ []) (7 ∷ 8 ∷ 9 ∷ 1 ∷ []) discover_options in
    (length m ≡ 548)
    × (find_opt (drop 236 m) 64 53 ≡ some (6, 1))
    × (get_or (drop 236 m) 6 0 ≡ 1)
    × (find_opt (drop 236 m) 64 55 ≡ some (9, 3))
    × (is_reply (7 ∷ 8 ∷ 9 ∷ 1 ∷ []) 2 300 m ≡ false)
unfolding dhcp_message find_opt find_from is_reply htons
message-run = (refl, refl, refl, refl, refl)

request-run :
    find_opt (magic ++ request_options 0x0A00020F (some (10 ∷ 0 ∷ 2 ∷ 2 ∷ []))) 64 54 ≡ some (15, 4)
unfolding find_opt find_from ip_to_bytes request_options
request-run = refl

-- Without an answer there is no lease.
silent-run : (dhcp_configure bench_nic 0 0 (bench_net [])).0 ≡ false
unfolding dhcp_configure exchange wait_reply request wait_loop
silent-run = refl

-- An ACK with a mask and a router.
lease-run :
    let body =
      dhcp_message
        (replicate 6 1)
        (7 ∷ 8 ∷ 9 ∷ 1 ∷ [])
        (53 ∷ 1 ∷ 5 ∷ 1 ∷ 4 ∷ 255 ∷ 255 ∷ 255 ∷ 0 ∷ 3 ∷ 4 ∷ 10 ∷ 0 ∷ 2 ∷ 2 ∷ 255 ∷ []) in
    let t = apply_lease (record (bench_net []) { reply = body; net_mask = 0 }) in
    (t.net_mask ≡ 0xFFFFFF00) × (t.net_gateway ≡ 0x0A000202) × (t.net_ip ≡ 0) × (t.net_up ≡ true)
unfolding apply_lease option_address dhcp_message find_opt find_from bytes_to_ip htons
lease-run = (refl, refl, refl, refl)
