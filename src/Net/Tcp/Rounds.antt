-- ===== src/Net/Tcp/Rounds.antt =====
-- The loops over received segments in net/tcp.c: which segments a loop takes.
use pumpkin_os.Prelude.{ℕ, zero, suc, ◌≡◌, ◌⊎◌, none, some}
use pumpkin_os.Net.State.{Nic, Net}
use pumpkin_os.Net.Tcp.{TcpConn, Segment, Outcome, tcp_next}

-- Within `n` rounds from `c` and `s` on, `tcp_next` gives the segment `g`: in this round, or after a
-- round whose segment `handle` did not answer.
abbrev pub Comes :
    {S A : Type 0}
    → Nic S
    → ℕ
    → ℕ
    → (Segment → TcpConn → Net S → Outcome S A)
    → ℕ
    → ℕ
    → TcpConn
    → Net S
    → Segment
    → Type 0
Comes nic fuel depth handle zero deadline c s g = ⊥
Comes {S = S} nic fuel depth handle (suc n) deadline c s g =
    ((t : Net S) × (tcp_next nic fuel depth c deadline s ≡ (some g, t)))
    ⊎ ((h : Segment) × (t : Net S) × (d : TcpConn) × (u : Net S) × (tcp_next nic fuel depth c
            deadline s
          ≡ (some h, t))
        × (handle h c t ≡ (none, (d, u)))
        × Comes nic fuel depth handle n deadline d u g)
