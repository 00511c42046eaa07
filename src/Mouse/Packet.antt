-- ===== src/Mouse/Packet.antt =====
-- The bytes that drivers/mouse.c reads, as packets: how a stream of them is cut.
use pumpkin_os.Prelude.{
  ℕ, ◌≡◌, refl, arith, ◌++◌, Bool, true, false, ◌==◌, if◌then◌else◌, List, [], ◌∷◌, bit_and,
}
use pumpkin_os.Prelude.{Bool-cases, inl, inr}
use pumpkin_os.Mouse.{Mouse, apply_packet, feed}

-- A packet, and the stray bytes before it.
pub record Frame : Type 0 where
  pub stray : List ℕ
  pub head : ℕ
  pub across : ℕ
  pub down : ℕ

-- A byte that starts a packet has bit 3 set.
abbrev pub starts : ℕ → Bool
starts b = if bit_and b 0x08 == 0 then false else true

abbrev pub all_stray : List ℕ → Bool
all_stray [] = true
all_stray (b ∷ bs) = if starts b then false else all_stray bs

abbrev pub frames_ok : List Frame → Bool
frames_ok [] = true
frames_ok (f ∷ fs) =
    if all_stray f.stray then (if starts f.head then frames_ok fs else false) else false

-- The bytes of the frames, as they arrive.
abbrev pub bytes_of : List Frame → List ℕ
bytes_of [] = []
bytes_of (f ∷ fs) = f.stray ++ (f.head ∷ f.across ∷ f.down ∷ bytes_of fs)

abbrev pub feed_all : List ℕ → Mouse → Mouse
feed_all [] s = s
feed_all (b ∷ bs) s = feed_all bs (feed b s)

-- Each packet applied as a whole.
abbrev pub apply_all : List Frame → Mouse → Mouse
apply_all [] s = s
apply_all (f ∷ fs) s =
    apply_all fs
      (apply_packet (record s { first = f.head; second = f.across; third = f.down; phase = 0 }))

feed-stray : (b : ℕ) (s : Mouse) → s.phase ≡ 0 → starts b ≡ false → feed b s ≡ s
unfolding feed
feed-stray b s p h = ground arith

feed_all-stray :
    (bs rest : List ℕ) (s : Mouse)
    → s.phase ≡ 0
    → all_stray bs ≡ true
    → feed_all (bs ++ rest) s ≡ feed_all rest s
feed_all-stray [] rest s p h = refl
feed_all-stray (b ∷ bs) rest s p h = elim (Bool-cases (starts b)) [
  | inl e ↦ ground (arith, e, h)
  | inr e ↦ rw (feed_all, feed-stray b s p e) (feed_all-stray bs rest s p (ground (arith, e, h)))
]

feed-starts :
    (a : ℕ) (s : Mouse)
    → s.phase ≡ 0
    → starts a ≡ true
    → feed a s ≡ record s { first = a; phase = 1 }
unfolding feed
feed-starts a s p h = ground arith

feed-rest :
    (a b c : ℕ) (s : Mouse)
    → feed c (feed b (record s { first = a; phase = 1 }))
      ≡ apply_packet (record s { first = a; second = b; third = c; phase = 0 })
unfolding feed
feed-rest a b c s = refl

apply_packet-phase : (s : Mouse) → (apply_packet s).phase ≡ s.phase
unfolding apply_packet
apply_packet-phase s = ground arith

-- From between two packets, the bytes move the cursor as their packets do, one after the other,
-- where stray bytes have bit 3 clear and a first byte has it set: stray bytes before a packet are
-- skipped, and the machine is between two packets again.
feed_all-apply_all :
    (fs : List Frame) (s : Mouse)
    → s.phase ≡ 0
    → frames_ok fs ≡ true
    → (feed_all (bytes_of fs) s ≡ apply_all fs s) × ((feed_all (bytes_of fs) s).phase ≡ 0)
feed_all-apply_all [] s p h = (refl, p)
feed_all-apply_all (f ∷ fs) s p h =
    let t = record s { first = f.head; second = f.across; third = f.down; phase = 0 } in
    let stray : all_stray f.stray ≡ true = ground (arith, h) in
    let head : starts f.head ≡ true = ground (arith, h) in
    let rest : frames_ok fs ≡ true = ground (arith, h) in
    rw
      (
        feed_all-stray f.stray (f.head ∷ f.across ∷ f.down ∷ bytes_of fs) s p stray,
        feed_all,
        feed-starts f.head s p head,
        feed-rest f.head f.across f.down s,
      )
      (feed_all-apply_all fs (apply_packet t) (apply_packet-phase t) rest)
