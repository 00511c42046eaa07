-- ===== src/Net/Tcp/Tests.antt =====
-- The theorems about net/tcp.c at concrete inputs.
use pumpkin_os.Prelude.{ℕ, ◌≡◌, refl, arith, List, [], ◌∷◌, some, none, true, false}
use pumpkin_os.Prelude.Int.{pos, negsuc}
use pumpkin_os.Net.Bench.{bench_nic, bench_net}
use pumpkin_os.Net.Tcp.{
  TcpConn, Segment, got, closed, seq_geq, each_segment, on_handshake, on_acknowledge, on_data,
  on_drain, consume,
}
use pumpkin_os.Net.Tcp.Client.{
  connect_tries, tcp_connect, send_tries, send_chunks, tcp_send, tcp_recv, tcp_close, new_conn,
}
use pumpkin_os.Net.Tcp.Receive.{InOrder, InLoop, tcp_recv-InOrder}
use pumpkin_os.Net.Tcp.Connect.{Handshake, InCall, isn_of, tcp_connect-Handshake}

abbrev conn : TcpConn
conn = record (new_conn 0x0A000202 80 5) { snd_nxt = 100; rcv_nxt = 7; established = true }

tcp_recv-InOrder_example :
    InOrder
      (InLoop bench_nic 3 1 1460 1000 conn (bench_net []))
      1460
      conn
      (tcp_recv bench_nic 3 1 1460 1000 conn (bench_net []))
tcp_recv-InOrder_example =
    tcp_recv-InOrder bench_nic 3 1 1460 1000 conn (bench_net []) (omega arith) (omega arith)

tcp_connect-Handshake_example :
    Handshake
      (InCall bench_nic 3 1 0x0A000202 80 (bench_net []))
      (isn_of bench_nic (bench_net []))
      0x0A000202
      80
      (tcp_connect bench_nic 3 1 0x0A000202 80 (bench_net []))
tcp_connect-Handshake_example = tcp_connect-Handshake bench_nic 3 1 0x0A000202 80 (bench_net [])

abbrev segment : ℕ → ℕ → List ℕ → Segment
segment seq flags bytes = record { seq = seq; ack = 100; flags = flags; bytes = bytes }

-- The next data is returned; a FIN behind it counts; old data is not; with a buffer of one byte the
-- second byte is lost.
data-run :
    let at = bench_net [] in
    ((on_data bench_nic 0 0 9 (segment 7 0x10 (5 ∷ 6 ∷ [])) conn at).0 ≡ some (got (5 ∷ 6 ∷ [])))
    × ((on_data bench_nic 0 0 9 (segment 7 0x11 (5 ∷ [])) conn at).1.0.rcv_nxt ≡ 9)
    × ((on_data bench_nic 0 0 9 (segment 7 0x11 []) conn at).0 ≡ some closed)
    × ((on_data bench_nic 0 0 9 (segment 6 0x10 (4 ∷ [])) conn at).1.0.rcv_nxt ≡ 7)
    × ((on_data bench_nic 0 0 1 (segment 7 0x10 (5 ∷ 6 ∷ [])) conn at).0 ≡ some (got (5 ∷ [])))
    × ((on_data bench_nic 0 0 1 (segment 7 0x10 (5 ∷ 6 ∷ [])) conn at).1.0.rcv_nxt ≡ 9)
unfolding on_data consume
data-run = (refl, refl, refl, refl, refl, refl)

handshake-run :
    let at = bench_net [] in
    ((on_handshake bench_nic 0 0 99 (segment 7 0x12 []) conn at).0 ≡ some true)
    × ((on_handshake bench_nic 0 0 98 (segment 7 0x12 []) conn at).0 ≡ none)
    × ((on_handshake bench_nic 0 0 99 (segment 7 0x14 []) conn at).0 ≡ some false)
    × ((on_acknowledge bench_nic 0 0 100 (segment 7 0x10 []) conn at).0 ≡ some true)
    × ((on_acknowledge bench_nic 0 0 101 (segment 7 0x10 []) conn at).0 ≡ none)
    × ((on_drain bench_nic 0 0 (segment 7 0x11 []) conn at).0 ≡ some tt)
unfolding on_handshake on_acknowledge on_drain consume seq_geq
handshake-run = (refl, refl, refl, refl, refl, refl)

-- Sequence numbers compare across the wrap.
seq-run : (seq_geq 5 0xFFFFFFF0 ≡ true) × (seq_geq 0xFFFFFFF0 5 ≡ false)
unfolding seq_geq
seq-run = (refl, refl)

-- Without an answer every call fails in the end; nothing is left to send for no bytes.
silent-run :
    ((tcp_connect bench_nic 0 0 1 80 (bench_net [])).0 ≡ none)
    × ((tcp_send bench_nic 0 0 (1 ∷ []) conn (bench_net [])).0 ≡ negsuc 0)
    × ((tcp_send bench_nic 0 0 [] conn (bench_net [])).0 ≡ pos 0)
    × ((tcp_close bench_nic 0 0 conn (bench_net [])).0.established ≡ false)
unfolding tcp_connect connect_tries each_segment tcp_send send_chunks send_tries tcp_close
silent-run = (refl, refl, refl, refl)
