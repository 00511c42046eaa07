-- ===== src/Rtl8139/Ring.antt =====
-- drivers/rtl8139.c: the offset in the ring, the bounds of a read, and the descriptors in turn.
use pumpkin_os.Prelude.{
  ℕ, ◌+◌, ◌-◌, ◌%◌, ◌^◌, ◌≤◌, ◌<◌, ◌≡◌, refl, arith, bit_and, ltb, leb, ltb→le, ◌==◌, ◌&&◌, not,
  if_cases,
}
use pumpkin_os.Prelude.{List, [], length, drop, length-take}
use pumpkin_os.Prelude.Bits.{bit_and_high}
use pumpkin_os.Rtl8139.{Card, rtl8139_reset_rx, next_offset, field, packet_length, rtl8139_poll}

-- The offset is that of a double word in the ring, and a descriptor is one of four.
pub record IsValid (s : Card) : Type 0 where
  pub offset : s.rx_offset < 8192
  pub aligned : s.rx_offset % 4 ≡ 0
  pub descriptor : s.tx_cur < 4

next_offset-bounds :
    (offset len : ℕ) → (next_offset offset len < 8192) × (next_offset offset len % 4 ≡ 0)
unfolding next_offset
next_offset-bounds offset len =
    let high = bit_and_high 2 (offset + len + 4 + 3) (2 ^ 30 - 1) in omega (arith, high)

packet_length-bound : (status len maxlen : ℕ) → packet_length status len maxlen ≤ maxlen
unfolding packet_length
packet_length-bound status len maxlen =
    if_cases (λ n. n ≤ maxlen) (not (bit_and status 0x01 == 0) && leb 4 len) _ 0
      (λ _.
        if_cases (λ n. n ≤ maxlen) (ltb maxlen (len - 4)) 0 (len - 4) (λ _. omega arith)
          (λ e. ltb→le _ _ e))
      (λ _. omega arith)

abbrev pub Polled : ℕ → List ℕ × Card → Type 0
Polled maxlen (frame, t) = IsValid t × (length frame ≤ maxlen)

-- Whatever the registers say and the ring holds, a poll keeps the offset inside the ring and on a
-- double word, and gives at most as many bytes as the buffer has room for.
pub rtl8139_poll-IsValid :
    (isr cmd maxlen : ℕ) (s : Card) → IsValid s → Polled maxlen (rtl8139_poll isr cmd maxlen s)
unfolding rtl8139_poll rtl8139_reset_rx
rtl8139_poll-IsValid isr cmd maxlen s v =
    let len = field 2 s in
    let count = packet_length (field 0 s) len maxlen in
    let next = next_offset-bounds s.rx_offset len in
    let nothing : length {A = ℕ} [] ≤ maxlen = omega arith in
    if_cases (Polled maxlen) (not s.present) _ _ (λ _. (v, nothing))
      (λ _.
        if_cases (Polled maxlen) (not (bit_and isr 0x0050 == 0)) _ _
          (λ _. (reset-IsValid s v, nothing))
          (λ _.
            if_cases (Polled maxlen) (not (bit_and cmd 0x01 == 0)) _ _ (λ _. (v, nothing))
              (λ _. (
                record { offset = next.0; aligned = next.1; descriptor = v.descriptor },
                omega (
                  arith,
                  length-take count (drop (s.rx_offset + 4) s.rx_buffer),
                  packet_length-bound (field 0 s) len maxlen,
                ),
              ))))
  where
    reset-IsValid : (s : Card) → IsValid s → IsValid (rtl8139_reset_rx s)
    reset-IsValid s v =
        if_cases IsValid s.present (record s { rx_offset = 0 }) s
          (λ _. record { offset = omega arith; aligned = refl; descriptor = v.descriptor }) (λ _. v)

-- The bytes that a poll copies lie in the buffer, where the caller asks for at most 1548.
pub read_inside :
    (s : Card) (status len maxlen : ℕ)
    → IsValid s
    → maxlen ≤ 1548
    → s.rx_offset + 4 + packet_length status len maxlen ≤ 8192 + 16 + 1536
read_inside s status len maxlen v h =
    let q : s.rx_offset ≤ 8188 = omega (arith, v.offset, v.aligned) in
    omega (arith, packet_length-bound status len maxlen)
