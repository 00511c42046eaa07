-- ===== src/Net/Tcp/Client.antt =====
-- The calls of net/tcp.c: `tcp_connect`, `tcp_send`, `tcp_recv` and `tcp_close`.
use pumpkin_os.Prelude.{
  ℕ, zero, suc, ◌+◌, ◌*◌, ◌%◌, ◌^◌, min, bit_and, if◌then◌else◌, Bool, true, false,
}
use pumpkin_os.Prelude.{List, [], length, take, drop, none, some}
use pumpkin_os.Prelude.Int.{ℤ, pos, negsuc}
use pumpkin_os.Net.State.{Nic, Net, hz_of, ticks}
use pumpkin_os.Net.Udp.{time_limit}
use pumpkin_os.Net.Tcp.{
  TcpConn, Outcome, Received, tcp_syn, tcp_psh_ack, tcp_ack, tcp_fin, plus32, tcp_xmit,
  each_segment, on_handshake, on_acknowledge, on_data, on_drain,
}

-- After a wait without an answer the next attempt follows.
abbrev pub or_retry : {S A : Type 0} → Outcome S A → (TcpConn → Net S → Outcome S A) → Outcome S A
or_retry (some a, (c, s)) more = (some a, (c, s))
or_retry (none, (c, s)) more = more c s

-- `c` after the `memset` and the three assignments of `tcp_connect`.
abbrev pub new_conn : ℕ → ℕ → ℕ → TcpConn
new_conn ip port now = record {
  dst_ip = ip;
  dst_port = port;
  sport = 40000 + bit_and now 0x3FFF;
  snd_nxt = 0;
  rcv_nxt = 0;
  established = false;
  peer_fin = false;
}

module _ {S : Type 0} (nic : Nic S) (fuel depth : ℕ) where
  -- The `for` of `tcp_connect`, with the attempts that are left.
  unfoldable pub connect_tries : ℕ → ℕ → ℕ → TcpConn → Net S → Outcome S Bool
  connect_tries isn hz zero c s = (none, (c, s))
  connect_tries isn hz (suc attempts) c s =
      let c1 : TcpConn = record c { snd_nxt = isn; rcv_nxt = 0 } in
      let sent = (tcp_xmit nic fuel depth c1 tcp_syn [] s).1 in
      let (t, s1) = ticks nic sent in
      or_retry
        (each_segment nic fuel depth fuel (plus32 t hz) (on_handshake nic fuel depth isn) c1 s1)
        (λ c2 s2. connect_tries isn hz attempts c2 s2)

  unfoldable pub tcp_connect : ℕ → ℕ → Net S → Outcome S Bool
  tcp_connect ip port s =
      let (t, s1) = ticks nic s in
      let (t', s2) = ticks nic s1 in
      let isn = (t' * 2654435761 + 0xC0DE1234) % 2 ^ 32 in
      connect_tries isn (hz_of nic s2) 5 (new_conn ip port t) s2

  -- The `for` of `tcp_send` for one chunk, sent from sequence number `seg_seq`.
  unfoldable pub send_tries : ℕ → ℕ → List ℕ → ℕ → TcpConn → Net S → Outcome S Bool
  send_tries hz seg_seq chunk zero c s = (none, (c, s))
  send_tries hz seg_seq chunk (suc attempts) c s =
      let c1 : TcpConn = record c { snd_nxt = seg_seq } in
      let sent = (tcp_xmit nic fuel depth c1 tcp_psh_ack chunk s).1 in
      let (t, s1) = ticks nic sent in
      let end = plus32 seg_seq (length chunk) in
      or_retry
        (each_segment nic fuel depth fuel (plus32 t hz) (on_acknowledge nic fuel depth end) c1 s1)
        (λ c2 s2. send_tries hz seg_seq chunk attempts c2 s2)

  -- What follows the `for`: on an acknowledgement the rest is sent.
  abbrev pub after_chunk :
      ℕ → ℕ → (TcpConn → Net S → ℤ × (TcpConn × Net S)) → Outcome S Bool → ℤ × (TcpConn × Net S)
  after_chunk seg_seq count more (none, (c, s)) = (negsuc 0, (c, s))
  after_chunk seg_seq count more (some false, (c, s)) = (negsuc 0, (c, s))
  after_chunk seg_seq count more (some true, (c, s)) =
      more (record c { snd_nxt = plus32 seg_seq count }) s

  -- `while (sent < len)`, with fuel; `rest` are the bytes that are left.
  unfoldable pub send_chunks : ℕ → ℕ → ℕ → List ℕ → TcpConn → Net S → ℤ × (TcpConn × Net S)
  send_chunks zero hz sent rest c s = (pos sent, (c, s))
  send_chunks (suc n) hz sent rest c s =
      let count = min 512 (length rest) in
      let answer = send_tries hz c.snd_nxt (take count rest) 6 c s in
      let next =
        after_chunk c.snd_nxt count
          (λ c' s'. send_chunks n hz (sent + count) (drop count rest) c' s') answer in
      elim (length rest) [ zero ↦ (pos sent, (c, s)) | suc _ ↦ next ]

  unfoldable pub tcp_send : List ℕ → TcpConn → Net S → ℤ × (TcpConn × Net S)
  tcp_send bytes c s =
      let sent = send_chunks (length bytes) (hz_of nic s) 0 bytes c s in
      if c.established then sent else (negsuc 0, (c, s))

  -- Without an answer the time is over.
  unfoldable pub tcp_recv : ℕ → ℕ → TcpConn → Net S → Outcome S Received
  tcp_recv maxlen timeout_ms c s =
      let (t, s1) = ticks nic s in
      let deadline = plus32 t (time_limit timeout_ms (hz_of nic s)) in
      let answer = each_segment nic fuel depth fuel deadline (on_data nic fuel depth maxlen) c s1 in
      if c.peer_fin then (some Received.closed, (c, s)) else answer

  unfoldable pub tcp_close : TcpConn → Net S → TcpConn × Net S
  tcp_close c s =
      let sent = (tcp_xmit nic fuel depth c (tcp_fin + tcp_ack) [] s).1 in
      let c1 : TcpConn = record c { snd_nxt = plus32 c.snd_nxt 1 } in
      let (t, s1) = ticks nic sent in
      let drained =
        each_segment nic fuel depth fuel (plus32 t (hz_of nic sent)) (on_drain nic fuel depth) c1
          s1 in
      if c.established then (record (drained.1.0) { established = false }, drained.1.1) else (c, s)
