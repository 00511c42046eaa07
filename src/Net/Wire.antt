-- ===== src/Net/Wire.antt =====
-- net/net.h and `ip_checksum` of net/net.c: byte order, addresses, and the Internet checksum. A
-- frame is a list of bytes; a 16-bit field of a packed header is its two bytes, the low one first.
pub mod Order
pub mod Checksum
use package.pumpkin_os.Prelude.{
  ℕ, zero, suc, ◌+◌, ◌-◌, ◌*◌, ◌/◌, ◌%◌, ◌^◌, bit_and, bit_or, ◌==◌, if◌then◌else◌,
}
use package.pumpkin_os.Prelude.{List, [], ◌∷◌, ◌++◌, get_or, take, drop}

unfoldable pub htons : ℕ → ℕ
htons x = bit_or (x / 2 ^ 8) (x * 2 ^ 8) % 2 ^ 16

unfoldable pub ntohs : ℕ → ℕ
ntohs x = htons x

unfoldable pub htonl : ℕ → ℕ
htonl x =
    bit_or
      (bit_or (bit_or ((bit_and x 0xFF * 2 ^ 24) % 2 ^ 32) ((bit_and x 0xFF00 * 2 ^ 8) % 2 ^ 32))
        (bit_and (x / 2 ^ 8) 0xFF00))
      (bit_and (x / 2 ^ 24) 0xFF)

unfoldable pub ntohl : ℕ → ℕ
ntohl x = htonl x

unfoldable pub ip_to_bytes : ℕ → List ℕ
ip_to_bytes ip =
    (ip / 2 ^ 24) % 2 ^ 8 ∷ (ip / 2 ^ 16) % 2 ^ 8 ∷ (ip / 2 ^ 8) % 2 ^ 8 ∷ ip % 2 ^ 8 ∷ []

unfoldable pub bytes_to_ip : List ℕ → ℕ
bytes_to_ip b =
    bit_or (bit_or (bit_or (get_or b 0 0 * 2 ^ 24) (get_or b 1 0 * 2 ^ 16)) (get_or b 2 0 * 2 ^ 8))
      (get_or b 3 0)

abbrev pub ip_broadcast : ℕ
ip_broadcast = 0xFFFFFFFF

-- The bytes of a 16-bit and of a 32-bit field in memory.
abbrev pub word : ℕ → List ℕ
word v = v % 2 ^ 8 ∷ (v / 2 ^ 8) % 2 ^ 8 ∷ []

abbrev pub long : ℕ → List ℕ
long v = v % 2 ^ 8 ∷ (v / 2 ^ 8) % 2 ^ 8 ∷ (v / 2 ^ 16) % 2 ^ 8 ∷ (v / 2 ^ 24) % 2 ^ 8 ∷ []

-- The fields at offset `i`, and `n` bytes from there.
abbrev pub word_at : ℕ → List ℕ → ℕ
word_at i f = get_or f i 0 + get_or f (i + 1) 0 * 2 ^ 8

abbrev pub long_at : ℕ → List ℕ → ℕ
long_at i f =
    get_or f i 0
    + get_or f (i + 1) 0 * 2 ^ 8
    + get_or f (i + 2) 0 * 2 ^ 16
    + get_or f (i + 3) 0 * 2 ^ 24

abbrev pub slice : ℕ → ℕ → List ℕ → List ℕ
slice i n f = take n (drop i f)

-- The loop over the 16-bit words and the odd byte at the end.
unfoldable pub sum_words : ℕ → List ℕ → ℕ
sum_words sum [] = sum
sum_words sum (b ∷ []) = (sum + b) % 2 ^ 32
sum_words sum (lo ∷ hi ∷ more) = sum_words ((sum + (lo + hi * 2 ^ 8)) % 2 ^ 32) more

-- `while (sum >> 16)`; a 32-bit sum is folded in three rounds.
unfoldable pub fold : ℕ → ℕ → ℕ
fold zero sum = sum
fold (suc n) sum =
    let more = fold n ((bit_and sum 0xFFFF + sum / 2 ^ 16) % 2 ^ 32) in
    if sum / 2 ^ 16 == 0 then sum else more

unfoldable pub ip_checksum : List ℕ → ℕ
ip_checksum bytes = (2 ^ 32 - 1 - fold 3 (sum_words 0 bytes)) % 2 ^ 16
