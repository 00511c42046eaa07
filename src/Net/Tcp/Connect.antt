-- ===== src/Net/Tcp/Connect.antt =====
-- `tcp_connect` of net/tcp.c: when the connection is established.
use pumpkin_os.Prelude.{
  ℕ, zero, suc, ◌+◌, ◌*◌, ◌%◌, ◌^◌, ◌≡◌, refl, ◌==◌, ==→≡, if_cases, Bool, true, false, ◌&&◌,
}
use pumpkin_os.Prelude.{[], Option, none, some, ◌⊎◌, inl, inr}
use pumpkin_os.Net.State.{Nic, Net, ticks, hz_of}
use pumpkin_os.Net.Tcp.{
  TcpConn, Segment, Outcome, has, tcp_ack, tcp_syn, tcp_rst, plus32, on_handshake, next_segment,
  unless_done, each_segment, tcp_next, tcp_xmit,
}
use pumpkin_os.Net.Tcp.Rounds.{Comes}
use pumpkin_os.Net.Tcp.Client.{or_retry, new_conn, connect_tries, tcp_connect}

-- A connection that a segment established: a SYN with an ACK of the number after `isn`, no reset.
pub record Established (Came : Segment → Type 0) (isn ip port : ℕ) (c : TcpConn) : Type 0 where
  pub answer : Segment
  pub came : Came answer
  pub syn : has tcp_syn answer ≡ true
  pub ack : has tcp_ack answer ≡ true
  pub no_reset : has tcp_rst answer ≡ false
  pub acknowledges : answer.ack ≡ plus32 isn 1
  pub snd : c.snd_nxt ≡ plus32 isn 1
  pub rcv : c.rcv_nxt ≡ plus32 answer.seq 1
  pub established : c.established ≡ true
  pub peer : (c.dst_ip ≡ ip) × (c.dst_port ≡ port) × (c.peer_fin ≡ false)

-- The connection while there is no answer.
abbrev Waiting : ℕ → ℕ → TcpConn → Type 0
Waiting ip port c =
    (c.dst_ip ≡ ip) × (c.dst_port ≡ port) × (c.peer_fin ≡ false) × (c.established ≡ false)

-- The result of `tcp_connect`: 1 with a connection established, or 0 without one.
abbrev pub Handshake : {S : Type 0} → (Segment → Type 0) → ℕ → ℕ → ℕ → Outcome S Bool → Type 0
Handshake Came isn ip port (some true, (c, s)) = Established Came isn ip port c
Handshake Came isn ip port (some false, (c, s)) = c.established ≡ false
Handshake Came isn ip port (none, (c, s)) = c.established ≡ false

-- The same inside the loops, where waiting goes on.
abbrev Progress : {S : Type 0} → (Segment → Type 0) → ℕ → ℕ → ℕ → Outcome S Bool → Type 0
Progress Came isn ip port (some b, (c, s)) = Handshake Came isn ip port (some b, (c, s))
Progress Came isn ip port (none, (c, s)) = Waiting ip port c

three : (a b c : Bool) → (a && (b && c)) ≡ true → (a ≡ true) × (b ≡ true) × (c ≡ true)
three true true c e = (refl, refl, e)
three true false c e = absurd (cc e)
three false b c e = absurd (cc e)

-- The sequence number and the state with which a try starts to wait.
abbrev start_conn : ℕ → TcpConn → TcpConn
start_conn isn c = record c { snd_nxt = isn; rcv_nxt = 0 }

module _ {S : Type 0} (nic : Nic S) (fuel depth isn ip port : ℕ) where
  -- The clock after the SYN of a try was sent.
  abbrev sent_at : TcpConn → Net S → ℕ × Net S
  sent_at c s = ticks nic (tcp_xmit nic fuel depth (start_conn isn c) tcp_syn [] s).1

  abbrev wait_answer : ℕ → TcpConn → Net S → Outcome S Bool
  wait_answer hz c s =
      each_segment nic fuel depth fuel (plus32 (sent_at c s).0 hz) (on_handshake nic fuel depth isn)
        (start_conn isn c) (sent_at c s).1

  -- `tcp_next` gives this segment in one of the tries: in this one, or after it had no answer.
  abbrev pub InTries : ℕ → ℕ → TcpConn → Net S → Segment → Type 0
  InTries hz zero c s g = ⊥
  InTries hz (suc attempts) c s g =
      Comes nic fuel depth (on_handshake nic fuel depth isn) fuel (plus32 (sent_at c s).0 hz)
        (start_conn isn c) (sent_at c s).1 g
      ⊎ ((d : TcpConn) × (u : Net S) × (wait_answer hz c s ≡ (none, (d, u)))
          × InTries hz attempts d u g)

  on_handshake-Progress :
      (Came : Segment → Type 0) (g : Segment) (c : TcpConn) (s : Net S)
      → Came g
      → Waiting ip port c
      → Progress Came isn ip port (on_handshake nic fuel depth isn g c s)
  unfolding on_handshake
  on_handshake-Progress Came g c s here (i, p, f, e) =
      if_cases (Progress Came isn ip port) (has tcp_rst g) _ _ (λ _. e)
        (λ r.
          if_cases (Progress Came isn ip port)
            (has tcp_syn g && (has tcp_ack g && (g.ack == plus32 isn 1))) _ _
            (λ q.
              let (a, b, d) = three (has tcp_syn g) (has tcp_ack g) (g.ack == plus32 isn 1) q in
              record {
                answer = g;
                came = here;
                syn = a;
                ack = b;
                no_reset = r;
                acknowledges = ==→≡ _ _ d;
                snd = refl;
                rcv = refl;
                established = refl;
                peer = (i, p, f);
              })
            (λ _. (i, p, f, e)))

  Handshake-earlier :
      (Later Came : Segment → Type 0) (x : Outcome S Bool)
      → ((g : Segment) → Later g → Came g)
      → Handshake Later isn ip port x
      → Handshake Came isn ip port x
  Handshake-earlier Later Came (none, (c, s)) k h = h
  Handshake-earlier Later Came (some false, (c, s)) k h = h
  Handshake-earlier Later Came (some true, (c, s)) k h = record {
    answer = h.answer;
    came = k h.answer h.came;
    syn = h.syn;
    ack = h.ack;
    no_reset = h.no_reset;
    acknowledges = h.acknowledges;
    snd = h.snd;
    rcv = h.rcv;
    established = h.established;
    peer = h.peer;
  }

  Progress-earlier :
      (Later Came : Segment → Type 0) (x : Outcome S Bool)
      → ((g : Segment) → Later g → Came g)
      → Progress Later isn ip port x
      → Progress Came isn ip port x
  Progress-earlier Later Came (none, (c, s)) k h = h
  Progress-earlier Later Came (some b, (c, s)) k h =
      Handshake-earlier Later Came (some b, (c, s)) k h

  unless_done-Progress :
      (Came : Segment → Type 0) (x : Outcome S Bool) (more : TcpConn → Net S → Outcome S Bool)
      → Progress Came isn ip port x
      → ((d : TcpConn) (u : Net S)
          → x ≡ (none, (d, u))
          → Waiting ip port d
          → Progress Came isn ip port (more d u))
      → Progress Came isn ip port (unless_done x more)
  unless_done-Progress Came (none, (d, u)) more p h = h d u refl p
  unless_done-Progress Came (some b, (d, u)) more p h = p

  next_segment-Progress :
      (Came : Segment → Type 0) (c : TcpConn) (x y : Option Segment × Net S)
      (handle : Segment → Net S → Outcome S Bool)
      → y ≡ x
      → Waiting ip port c
      → ((g : Segment) (t : Net S) → y ≡ (some g, t) → Progress Came isn ip port (handle g t))
      → Progress Came isn ip port (next_segment handle c x)
  next_segment-Progress Came c (none, t) y handle e w h = w
  next_segment-Progress Came c (some g, t) y handle e w h = h g t e

  each_segment-Progress :
      (n deadline : ℕ) (c : TcpConn) (s : Net S)
      → Waiting ip port c
      → Progress
          (Comes nic fuel depth (on_handshake nic fuel depth isn) n deadline c s)
          isn
          ip
          port
          (each_segment nic fuel depth n deadline (on_handshake nic fuel depth isn) c s)
  unfolding each_segment
  each_segment-Progress zero deadline c s w = w
  each_segment-Progress (suc n) deadline c s w =
      let handle : Segment → TcpConn → Net S → Outcome S Bool = on_handshake nic fuel depth isn in
      let Came : Segment → Type 0 = Comes nic fuel depth handle (suc n) deadline c s in
      next_segment-Progress Came c (tcp_next nic fuel depth c deadline s) _ _ refl w (λ g t e.
        unless_done-Progress Came (handle g c t) _ (on_handshake-Progress Came g c t (inl (t, e)) w)
          (λ d u f w'.
            Progress-earlier (Comes nic fuel depth handle n deadline d u) Came _
              (λ k later. inr (g, t, d, u, e, f, later)) (each_segment-Progress n deadline d u w')))

  or_retry-Handshake :
      (Came : Segment → Type 0) (x : Outcome S Bool) (more : TcpConn → Net S → Outcome S Bool)
      → Progress Came isn ip port x
      → ((d : TcpConn) (u : Net S)
          → x ≡ (none, (d, u))
          → Waiting ip port d
          → Handshake Came isn ip port (more d u))
      → Handshake Came isn ip port (or_retry x more)
  or_retry-Handshake Came (none, (d, u)) more p h = h d u refl p
  or_retry-Handshake Came (some b, (d, u)) more p h = p

  connect_tries-Handshake :
      (hz attempts : ℕ) (c : TcpConn) (s : Net S)
      → Waiting ip port c
      → Handshake
          (InTries hz attempts c s)
          isn
          ip
          port
          (connect_tries nic fuel depth isn hz attempts c s)
  unfolding connect_tries
  connect_tries-Handshake hz zero c s (i, p, f, e) = e
  connect_tries-Handshake hz (suc attempts) c s (i, p, f, e) =
      let deadline = plus32 (sent_at c s).0 hz in
      or_retry-Handshake (InTries hz (suc attempts) c s) (wait_answer hz c s) _
        (Progress-earlier
          (Comes nic fuel depth (on_handshake nic fuel depth isn) fuel deadline (start_conn isn c)
            (sent_at c s).1)
          (InTries hz (suc attempts) c s) _ (λ g came. inl came)
          (each_segment-Progress fuel deadline (start_conn isn c) (sent_at c s).1 (i, p, f, e)))
        (λ d u none_yet w.
          Handshake-earlier (InTries hz attempts d u) (InTries hz (suc attempts) c s) _
            (λ g later. inr (d, u, none_yet, later)) (connect_tries-Handshake hz attempts d u w))

-- The initial sequence number that `tcp_connect` takes of the clock.
abbrev pub isn_of : {S : Type 0} → Nic S → Net S → ℕ
isn_of nic s = ((ticks nic (ticks nic s).1).0 * 2654435761 + 0xC0DE1234) % 2 ^ 32

-- `tcp_next` gives this segment in one of the five tries of this call.
abbrev pub InCall : {S : Type 0} → Nic S → ℕ → ℕ → ℕ → ℕ → Net S → Segment → Type 0
InCall nic fuel depth ip port s =
    let s1 = ticks nic s in
    let s2 = (ticks nic s1.1).1 in
    InTries nic fuel depth (isn_of nic s) ip port (hz_of nic s2) 5 (new_conn ip port s1.0) s2

-- Where `tcp_connect` succeeds, `tcp_next` received in one of its tries a segment with SYN and ACK
-- and without RST that acknowledges the number after the initial one; both sequence numbers of the
-- connection follow that segment, and it is established with the peer asked for. Otherwise the
-- connection is not established.
pub tcp_connect-Handshake :
    {S : Type 0} (nic : Nic S) (fuel depth ip port : ℕ) (s : Net S)
    → Handshake
        (InCall nic fuel depth ip port s)
        (isn_of nic s)
        ip
        port
        (tcp_connect nic fuel depth ip port s)
unfolding tcp_connect
tcp_connect-Handshake nic fuel depth ip port s =
    let s1 = ticks nic s in
    let s2 = (ticks nic s1.1).1 in
    connect_tries-Handshake nic fuel depth (isn_of nic s) ip port (hz_of nic s2) 5
      (new_conn ip port s1.0) s2 (refl, refl, refl, refl)
