-- ===== src/Net/Stack/RoundTrip.antt =====
-- net/net.c against itself: a datagram that `net_send_ip` sends is what `net_poll` delivers.
use pumpkin_os.Prelude.{
  ℕ, ◌+◌, ◌-◌, ◌%◌, ◌^◌, ◌≤◌, ◌<◌, ◌≡◌, ◌≢◌, refl, sym, ap, ap₂, ◌∙◌, arith, subst,
}
use pumpkin_os.Prelude.{≢→==, le→ltb}
use pumpkin_os.Prelude.{List, [], ◌∷◌, ◌++◌, length, take, get_or, some}
use pumpkin_os.Net.Wire.{htons, ntohs, ip_to_bytes, bytes_to_ip, word, word_at, slice}
use pumpkin_os.Net.Wire.Order.{htons_lem, ntohs-htons, bytes_to_ip-ip_to_bytes}
use pumpkin_os.Net.State.{Nic, Net, NetRx}
use pumpkin_os.Net.Stack.{
  eth_ipv4, ip_header, send_datagram, eth_send, clamp_l4, deliver, handle_ip, handle_frame,
}

-- The frame around a datagram.
abbrev pub frame_of : {S : Type 0} → Net S → ℕ → ℕ → List ℕ → List ℕ → List ℕ
frame_of s dst proto l4 dmac =
    dmac
    ++ (s.net_mac
        ++ (word (htons eth_ipv4) ++ (ip_header (20 + length l4) s.ip_id proto s.net_ip dst ++ l4)))

-- What the other side hands up.
abbrev pub delivered : ℕ → ℕ → List ℕ → NetRx
delivered src proto l4 = record { src_ip = src; proto = proto; l4 = 34; l4len = length l4 }

take-length : (xs ys : List ℕ) → take (length xs) (xs ++ ys) ≡ xs
take-length [] ys = refl
take-length (x ∷ xs) ys = ap (λ l. x ∷ l) (take-length xs ys)

clamp_l4-fits : (n len : ℕ) → 34 + len ≤ n → clamp_l4 n 20 (20 + len - 20) ≡ some len
unfolding clamp_l4
clamp_l4-fits n len h =
    let e : 20 + len - 20 ≡ len = omega arith in rw (e, le→ltb n (14 + 20 + len) (omega arith)) refl

-- The length field, read back.
total_lem : (x : ℕ) → x < 2 ^ 16 → ntohs (word_at 0 (word (htons (x % 2 ^ 16)))) ≡ x
total_lem x h =
    let small : x % 2 ^ 16 ≡ x = omega arith in
    let bound = htons_lem x h in
    ap ntohs (ap (λ t. word_at 0 (word (htons t))) small ∙ omega (arith, bound)) ∙ ntohs-htons x h

-- The fields that `net_poll` reads of a received datagram.
record Fields (f : List ℕ) (n src proto len : ℕ) : Type 0 where
  type : ntohs (word_at 12 f) ≡ 0x0800
  version : get_or f 14 0 ≡ 0x45
  total : ntohs (word_at 16 f) ≡ 20 + len
  protocol : get_or f 23 0 ≡ proto
  source : bytes_to_ip (slice 26 4 f) ≡ src
  size : 34 + len ≤ n
  other : proto ≢ 1

-- A hardware address.
abbrev Mac : List ℕ → Type 0
Mac xs =
    (a : ℕ) × (b : ℕ) × (c : ℕ) × (d : ℕ) × (e : ℕ) × (f : ℕ) × (xs ≡ a ∷ b ∷ c ∷ d ∷ e ∷ f ∷ [])

six : (xs : List ℕ) → length xs ≡ 6 → Mac xs
six [] h = absurd (omega arith)
six (a ∷ []) h = absurd (omega arith)
six (a ∷ b ∷ []) h = absurd (omega arith)
six (a ∷ b ∷ c ∷ []) h = absurd (omega arith)
six (a ∷ b ∷ c ∷ d ∷ []) h = absurd (omega arith)
six (a ∷ b ∷ c ∷ d ∷ e ∷ []) h = absurd (omega arith)
six (a ∷ b ∷ c ∷ d ∷ e ∷ f ∷ []) h = (a, b, c, d, e, f, refl)
six (a ∷ b ∷ c ∷ d ∷ e ∷ f ∷ g ∷ xs) h = absurd (omega arith)

-- A frame by its parts.
abbrev whole : List ℕ → List ℕ → ℕ → ℕ → ℕ → ℕ → List ℕ → List ℕ → List ℕ
whole dmac mac id proto src dst l4 rest =
    (dmac
      ++ (mac ++ (word (htons eth_ipv4) ++ (ip_header (20 + length l4) id proto src dst ++ l4))))
    ++ rest

-- What is asked of a frame: its fields, and the bytes at offset 34.
abbrev Reads : ℕ → ℕ → ℕ → List ℕ → List ℕ → Type 0
Reads n src proto l4 f = Fields f n src proto (length l4) × (slice 34 (length l4) f ≡ l4)

whole-Reads :
    (dmac mac : List ℕ) (id proto src dst : ℕ) (l4 rest : List ℕ) (n : ℕ)
    → Mac dmac
    → Mac mac
    → src < 2 ^ 32
    → length l4 ≤ 1480
    → proto ≢ 1
    → 34 + length l4 ≤ n
    → Reads n src proto l4 (whole dmac mac id proto src dst l4 rest)
unfolding ip_header ip_to_bytes htons ntohs
whole-Reads dmac mac id proto src dst l4 rest n (a, b, c, d, e, f, p) (a', b', c', d', e', f', q) hi
      hl ne hn =
    rw (p, q)
      (
        record {
          type = refl;
          version = refl;
          total = total_lem (20 + length l4) (omega arith);
          protocol = refl;
          source = bytes_to_ip-ip_to_bytes src hi;
          size = hn;
          other = ne;
        },
        take-length l4 rest,
      )

module _ {S : Type 0} (nic : Nic S) (poll : Net S → Net S) (fuel : ℕ) where
  deliver-other :
      (u : Net S) (l4len : ℕ)
      → get_or u.rxframe 23 0 ≢ 1
      → deliver nic poll fuel 20 (some l4len) u ≡ (
        some (record {
          src_ip = bytes_to_ip (slice 26 4 u.rxframe);
          proto = get_or u.rxframe 23 0;
          l4 = 34;
          l4len = l4len;
        }),
        u,
      )
  unfolding deliver
  deliver-other u l4len h = rw (≢→== _ _ h) refl

  handle_ip_lem :
      (u : Net S) (n src proto len : ℕ)
      → Fields u.rxframe n src proto len
      → handle_ip nic poll fuel n u
        ≡ (some (record { src_ip = src; proto = proto; l4 = 34; l4len = len }), u)
  unfolding handle_ip
  handle_ip_lem u n src proto len h =
      let not_icmp : get_or u.rxframe 23 0 ≢ 1 = λ e. h.other (sym h.protocol ∙ e) in
      rw (h.version, h.total, le→ltb (20 + len) 20 (omega arith))
        (ap (λ o. deliver nic poll fuel 20 o u) (clamp_l4-fits n len h.size)
          ∙ deliver-other u len not_icmp
          ∙ ap₂ (λ a b. (some (record { src_ip = a; proto = b; l4 = 34; l4len = len }), u)) h.source
              h.protocol)

  handle_frame_lem :
      (u : Net S) (n src proto len : ℕ)
      → Fields u.rxframe n src proto len
      → handle_frame nic poll fuel n u
        ≡ (some (record { src_ip = src; proto = proto; l4 = 34; l4len = len }), u)
  unfolding handle_frame
  handle_frame_lem u n src proto len h =
      let size = h.size in
      rw (h.type, le→ltb n 14 (omega arith)) (handle_ip_lem u n src proto len h)

-- What `net_send_ip` does at the end: the card gets the frame, and the identification goes up.
send_datagram-frame_of :
    {S : Type 0} (nic : Nic S) (s : Net S) (dst proto : ℕ) (l4 dmac : List ℕ)
    → length l4 ≤ 1480
    → send_datagram nic dst proto l4 dmac s ≡ (
        let (r, d) = nic.rtl8139_send (frame_of s dst proto l4 dmac) s.dev in
        (r, record s { ip_id = (s.ip_id + 1) % 2 ^ 16; dev = d }))
unfolding send_datagram eth_send
send_datagram-frame_of nic s dst proto l4 dmac h =
    rw (le→ltb 1500 (20 + length l4) (omega arith)) refl

-- Of a datagram of at most 1480 bytes, of a protocol other than ICMP, for which the hardware address
-- of the next hop is known, `send_datagram` (the part of `net_send_ip` after the address is
-- resolved) hands one frame to the card. Wherever these bytes are the front of a receive buffer,
-- followed by any padding, `handle_frame` (the part of `net_poll` after a frame has come) delivers
-- the datagram, with the sender's address, the protocol and the same bytes.
pub send_datagram-delivered :
    {S T : Type 0} (nic : Nic S) (s : Net S) (dst proto : ℕ) (l4 dmac : List ℕ)
    → (nic' : Nic T) (poll : Net T → Net T) (fuel : ℕ) (u : Net T) (n : ℕ) (padding : List ℕ)
    → length dmac ≡ 6
    → length s.net_mac ≡ 6
    → s.net_ip < 2 ^ 32
    → length l4 ≤ 1480
    → proto ≢ 1
    → 34 + length l4 ≤ n
    → u.rxframe ≡ frame_of s dst proto l4 dmac ++ padding
    → (send_datagram nic dst proto l4 dmac s ≡ (
        let (r, d) = nic.rtl8139_send (frame_of s dst proto l4 dmac) s.dev in
        (r, record s { ip_id = (s.ip_id + 1) % 2 ^ 16; dev = d })))
      × (handle_frame nic' poll fuel n u ≡ (some (delivered s.net_ip proto l4), u))
      × (slice 34 (length l4) u.rxframe ≡ l4)
send_datagram-delivered nic s dst proto l4 dmac nic' poll fuel u n padding hd hm hi hl ne hn e =
    let (fields, same) = subst (Reads n s.net_ip proto l4) (sym e) (
      whole-Reads dmac s.net_mac s.ip_id proto s.net_ip dst l4 padding n (six dmac hd)
        (six s.net_mac hm) hi hl ne hn) in
    (
      send_datagram-frame_of nic s dst proto l4 dmac hl,
      handle_frame_lem nic' poll fuel u n s.net_ip proto (length l4) fields,
      same,
    )
