-- ===== src/Net/Icmp/Pong.antt =====
-- net/icmp.c and net/net.c: the reply that the stack builds for a ping is the one that a ping accepts.
use pumpkin_os.Prelude.{
  ℕ, zero, suc, ◌+◌, ◌^◌, ◌<◌, ◌≡◌, refl, ap, ap₂, ◌∙◌, arith, ◌==◌, ◌&&◌, ==_refl, true, length,
  [], ◌∷◌,
}
use pumpkin_os.Prelude.Bits.{bit_and_mask}
use pumpkin_os.Net.Wire.{ntohs, htons, word, word_at, ip_checksum}
use pumpkin_os.Net.Wire.Order.{htons_lem, ntohs-htons}
use pumpkin_os.Net.Wire.Checksum.{AllBytes, ip_checksum-verifies}
use pumpkin_os.Net.Stack.{echo_reply}
use pumpkin_os.Net.Icmp.{filler, ping_message, ping_body, is_pong}

word-back : (v : ℕ) → v < 2 ^ 16 → ntohs (word_at 0 (word (htons v))) ≡ v
word-back v h = ap ntohs (omega (arith, htons_lem v h)) ∙ ntohs-htons v h

filler-AllBytes : (i n : ℕ) → AllBytes (filler i n)
unfolding filler
filler-AllBytes i zero = tt
filler-AllBytes i (suc n) = (omega (arith, bit_and_mask 4 i), filler-AllBytes (i + 1) n)

-- The message with its checksum field 0.
zeroed-AllBytes : (seq : ℕ) → AllBytes (8 ∷ 0 ∷ 0 ∷ 0 ∷ ping_body seq)
zeroed-AllBytes seq = (
  omega arith,
  (
    omega arith,
    (
      omega arith,
      (
        omega arith,
        (omega arith, (omega arith, (omega arith, (omega arith, filler-AllBytes 0 32)))),
      ),
    ),
  ),
)

filler-length : (i n : ℕ) → length (filler i n) ≡ n
unfolding filler
filler-length i zero = refl
filler-length i (suc n) = ap suc (filler-length (i + 1) n)

id-back : ntohs (word_at 0 (word (htons 0x504B))) ≡ 0x504B
id-back = word-back 0x504B (omega arith)

-- For every sequence number of 16 bits the message of `icmp_ping` has the checksum 0 and 40 bytes,
-- and the reply that `icmp_echo_reply` builds from it passes the tests of `icmp_ping` for that
-- number.
pub ping_message-is_pong :
    (seq : ℕ)
    → seq < 2 ^ 16
    → (ip_checksum (ping_message seq) ≡ 0)
      × (length (ping_message seq) ≡ 40)
      × (is_pong seq 0 (echo_reply (ping_message seq)) ≡ true)
unfolding ping_message is_pong echo_reply
ping_message-is_pong seq h =
    let size = filler-length 0 32 in
    (
      ip_checksum-verifies (8 ∷ 0 ∷ []) (ping_body seq) tt (zeroed-AllBytes seq)
          (omega (arith, size)),
      omega (arith, size),
      ap₂ (λ x y. (x == 0x504B) && (y == seq)) id-back (word-back seq h) ∙ ==_refl seq,
    )
