-- ===== src/Net/Wire/Order.antt =====
-- Byte order and addresses of net/net.h: each conversion undoes its inverse.
use pumpkin_os.Prelude.{ℕ, ◌+◌, ◌*◌, ◌/◌, ◌%◌, ◌^◌, ◌<◌, ◌≡◌, ap, ◌∙◌, arith, bit_or}
use pumpkin_os.Prelude.{[], ◌∷◌}
use pumpkin_os.Prelude.Bits.{bit_or_high, bit_or_fields}
use pumpkin_os.Net.Wire.{htons, ip_to_bytes, bytes_to_ip, ntohs}

pub htons_lem : (x : ℕ) → x < 2 ^ 16 → htons x ≡ x / 256 + x % 256 * 256
unfolding htons
htons_lem x h = ap (λ t. t % 2 ^ 16) (bit_or_fields 8 (x / 2 ^ 8) x (omega arith)) ∙ omega arith

-- Swapping the bytes of a 16-bit number twice gives the number.
pub ntohs-htons : (x : ℕ) → x < 2 ^ 16 → ntohs (htons x) ≡ x
unfolding ntohs
ntohs-htons x h =
    let e = htons_lem x h in
    ap htons e ∙ htons_lem (x / 256 + x % 256 * 256) (omega arith) ∙ omega arith

bytes_to_ip_lem :
    (a b c d : ℕ)
    → b < 256
    → c < 256
    → d < 256
    → bytes_to_ip (a ∷ b ∷ c ∷ d ∷ []) ≡ a * 2 ^ 24 + b * 2 ^ 16 + c * 2 ^ 8 + d
unfolding bytes_to_ip
bytes_to_ip_lem a b c d hb hc hd =
    ap (λ t. bit_or (bit_or t (c * 2 ^ 8)) d) (bit_or_high 24 (b * 2 ^ 16) a (omega arith) ∙ one)
    ∙ ap (λ t. bit_or t d) (bit_or_high 16 (c * 2 ^ 8) (a * 2 ^ 8 + b) (omega arith) ∙ two)
    ∙ bit_or_high 8 d (a * 2 ^ 16 + b * 2 ^ 8 + c) (omega arith)
    ∙ omega arith
  where
    one : b * 2 ^ 16 + a * 2 ^ 24 ≡ (a * 2 ^ 8 + b) * 2 ^ 16
    one = omega arith

    two : c * 2 ^ 8 + (a * 2 ^ 8 + b) * 2 ^ 16 ≡ (a * 2 ^ 16 + b * 2 ^ 8 + c) * 2 ^ 8
    two = omega arith

-- A 32-bit address survives the way through its four bytes on the wire.
pub bytes_to_ip-ip_to_bytes : (ip : ℕ) → ip < 2 ^ 32 → bytes_to_ip (ip_to_bytes ip) ≡ ip
unfolding ip_to_bytes
bytes_to_ip-ip_to_bytes ip h =
    bytes_to_ip_lem _ _ _ _ (omega arith) (omega arith) (omega arith) ∙ omega arith
