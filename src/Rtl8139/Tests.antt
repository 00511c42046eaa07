-- ===== src/Rtl8139/Tests.antt =====
-- Runs of drivers/rtl8139.c.
use pumpkin_os.Prelude.{◌≡◌, refl, [], ◌∷◌, true, length, replicate}
use pumpkin_os.Prelude.Int.{pos, negsuc}
use pumpkin_os.Rtl8139.{
  Card, fill_tx, rtl8139_send, rtl8139_reset_rx, next_offset, field, packet_length, rtl8139_poll,
}

-- A packet of two bytes and a checksum at the start of the ring.
abbrev card : Card
card = record {
  rx_buffer = 1 ∷ 0 ∷ 6 ∷ 0 ∷ b'h' ∷ b'i' ∷ replicate 20 0;
  tx_buffer = λ n. replicate 64 7;
  present = true;
  tx_cur = 3;
  rx_offset = 0;
}

card-run :
    let (frame, t) = rtl8139_poll 0 0 1600 card in
    let (r, u) = rtl8139_send (1 ∷ 2 ∷ []) card in
    (frame ≡ b'h' ∷ b'i' ∷ [])
    × (t.rx_offset ≡ 12)
    × ((rtl8139_poll 0x10 0 1600 card).0 ≡ [])
    × (r ≡ pos 0)
    × (u.tx_cur ≡ 0)
    × (length (u.tx_buffer 3) ≡ 64)
    × ((rtl8139_send [] card).0 ≡ negsuc 0)
unfolding rtl8139_poll rtl8139_send rtl8139_reset_rx fill_tx next_offset field packet_length
card-run = (refl, refl, refl, refl, refl, refl, refl)
