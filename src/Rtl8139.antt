-- ===== src/Rtl8139.antt =====
-- drivers/rtl8139.c: the send buffers and the receive ring of the network card. What a call reads from
-- the registers of the card is an argument; the writes to the ports stay outside.
pub mod Ring
mod Tests
use package.pumpkin_os.Prelude.{
  ℕ, zero, suc, ◌+◌, ◌-◌, ◌*◌, ◌/◌, ◌%◌, ◌^◌, bit_and, bit_or, ltb, leb, ◌==◌, ◌&&◌, ◌||◌, not,
  if◌then◌else◌, Bool, true, false,
}
use package.pumpkin_os.Prelude.{List, [], ◌∷◌, ◌++◌, length, get_or, take, drop, replicate, update}
use package.pumpkin_os.Prelude.Int.{ℤ, pos, negsuc}

abbrev pub rx_buf_size : ℕ
rx_buf_size = 8192

-- The static variables; `tx_buffer` by the number of the descriptor.
pub record Card : Type 0 where
  pub rx_buffer : List ℕ
  pub tx_buffer : ℕ → List ℕ
  pub present : Bool
  pub tx_cur : ℕ
  pub rx_offset : ℕ

-- `padded` bytes of `tx_buffer[n]`: the frame, zeros up to 60 bytes, and what was there.
pub fill_tx : List ℕ → List ℕ → List ℕ
fill_tx frame buffer =
    let padded = frame ++ replicate (60 - length frame) 0 in padded ++ drop (length padded) buffer

pub rtl8139_send : List ℕ → Card → ℤ × Card
rtl8139_send frame s =
    if not s.present || ((length frame == 0) || ltb 1792 (length frame)) then (negsuc 0, s) else (
      pos 0,
      record s {
        tx_buffer = update s.tx_cur (fill_tx frame (s.tx_buffer s.tx_cur)) s.tx_buffer;
        tx_cur = bit_and (s.tx_cur + 1) 3;
      },
    )

pub rtl8139_reset_rx : Card → Card
rtl8139_reset_rx s = if s.present then record s { rx_offset = 0 } else s

-- The next offset behind a packet whose length field is `len`.
pub next_offset : ℕ → ℕ → ℕ
next_offset offset len = bit_and (offset + len + 4 + 3) (2 ^ 32 - 1 - 3) % rx_buf_size

-- A 16-bit field of the packet at the offset.
pub field : ℕ → Card → ℕ
field i s =
    bit_or (get_or s.rx_buffer (s.rx_offset + i) 0)
      (get_or s.rx_buffer (s.rx_offset + i + 1) 0 * 2 ^ 8)

-- `pktlen`
pub packet_length : ℕ → ℕ → ℕ → ℕ
packet_length status len maxlen =
    if not (bit_and status 0x01 == 0) && leb 4 len
    then (if ltb maxlen (len - 4) then 0 else len - 4)
    else 0

-- With the values of the registers ISR and CMD; the bytes that are copied to `out`.
pub rtl8139_poll : ℕ → ℕ → ℕ → Card → List ℕ × Card
rtl8139_poll isr cmd maxlen s =
    let len = field 2 s in
    let count = packet_length (field 0 s) len maxlen in
    if not s.present
    then ([], s)
    else if not (bit_and isr 0x0050 == 0)
    then ([], rtl8139_reset_rx s)
    else if not (bit_and cmd 0x01 == 0)
    then ([], s)
    else (
      take count (drop (s.rx_offset + 4) s.rx_buffer),
      record s { rx_offset = next_offset s.rx_offset len },
    )
