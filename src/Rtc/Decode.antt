-- ===== src/Rtc/Decode.antt =====
-- drivers/rtc.c against the data formats of the clock.
use pumpkin_os.Prelude.{
  ℕ, ◌+◌, ◌*◌, ◌/◌, ◌%◌, ◌^◌, ◌<◌, ◌≤◌, ◌≡◌, refl, ap, ◌∙◌, arith, bit_and, Bool, true, false, ◌==◌,
  leb, if◌then◌else◌, Bool-cases, inl, inr, ==→≡, ==_refl, all_below, all_below_sound,
}
use pumpkin_os.Prelude.{Option, none, some, List, [], ◌∷◌, ◌++◌}
use pumpkin_os.Rtc.{RtcTime, Raw, bcd2bin, same_raw, settle, binary, hour_of, decode, rtc_read}

-- Two decimal digits in a byte.
abbrev pub bcd : ℕ → ℕ
bcd v = v / 10 * 16 + v % 10

-- A register of the clock for a number below 100, in the format that bit 2 of `regb` selects.
abbrev pub register : ℕ → ℕ → ℕ
register regb v = if bit_and regb 0x04 == 0 then bcd v else v

-- The register for an hour: of 24 where bit 1 of `regb` is set; otherwise 12, 1, ..., 11, with bit 7
-- for the afternoon.
abbrev pub hour_register : ℕ → ℕ → ℕ
hour_register regb h =
    if bit_and regb 0x02 == 0
    then register regb (if h % 12 == 0 then 12 else h % 12) + (if leb 12 h then 0x80 else 0)
    else register regb h

-- The registers of a clock that shows this time.
abbrev pub shows : ℕ → RtcTime → Raw
shows regb t = record {
  s = register regb t.second;
  m = register regb t.minute;
  h = hour_register regb t.hour;
  d = register regb t.day;
  mo = register regb t.month;
  y = register regb (t.year % 100);
}

pub record IsTime (t : RtcTime) : Type 0 where
  pub from_2000 : 2000 ≤ t.year
  pub to_2099 : t.year < 2100
  pub months : t.month < 100
  pub days : t.day < 100
  pub hours : t.hour < 24
  pub minutes : t.minute < 100
  pub seconds : t.second < 100

bcd2bin-bcd : (v : ℕ) → v < 100 → bcd2bin (bcd v) ≡ v
unfolding bcd2bin all_below
bcd2bin-bcd v h =
    ==→≡ (bcd2bin (bcd v)) v (all_below_sound 100 (λ x. bcd2bin (bcd x) == x) v refl h)

binary-register : (regb v : ℕ) → v < 100 → binary regb (register regb v) ≡ v
binary-register regb v h = elim (Bool-cases (bit_and regb 0x04 == 0)) [
  | inl e ↦ rw e (bcd2bin-bcd v h)
  | inr e ↦ rw e refl
]

-- The same two functions of an hour, by the two flags of the format.
abbrev read_hour : Bool → Bool → ℕ → ℕ
read_hour is_bcd is_12h h =
    let low = bit_and h 0x7F in
    let b = if is_bcd then bcd2bin low else low in
    let b' = if b == 12 then 0 else b in
    if is_12h then (if bit_and h 0x80 == 0 then b' else (b' + 12) % 2 ^ 8) else b

abbrev write_hour : Bool → Bool → ℕ → ℕ
write_hour is_bcd is_12h h =
    let twelve = if h % 12 == 0 then 12 else h % 12 in
    if is_12h
    then (if is_bcd then bcd twelve else twelve) + (if leb 12 h then 0x80 else 0)
    else (if is_bcd then bcd h else h)

all_hours :
    (is_bcd is_12h : Bool)
    → all_below 24 (λ h. read_hour is_bcd is_12h (write_hour is_bcd is_12h h) == h) ≡ true
unfolding bcd2bin all_below
all_hours true true = refl
all_hours true false = refl
all_hours false true = refl
all_hours false false = refl

hour_of-hour_register : (regb h : ℕ) → h < 24 → hour_of regb (hour_register regb h) ≡ h
unfolding hour_of
hour_of-hour_register regb h lt =
    let is_bcd = bit_and regb 0x04 == 0 in
    let is_12h = bit_and regb 0x02 == 0 in
    ==→≡ (read_hour is_bcd is_12h (write_hour is_bcd is_12h h)) h (
      all_below_sound 24 (λ x. read_hour is_bcd is_12h (write_hour is_bcd is_12h x) == x) h
        (all_hours is_bcd is_12h) lt)

decode-shows : (regb : ℕ) (t : RtcTime) → IsTime t → decode regb (shows regb t) ≡ t
unfolding decode
decode-shows regb t v =
    let short : t.year % 100 < 100 = omega arith in
    let year : (2000 + t.year % 100) % 2 ^ 16 ≡ t.year = omega (arith, v.from_2000, v.to_2099) in
    rw
      (
        binary-register regb (t.year % 100) short,
        year,
        binary-register regb t.month v.months,
        binary-register regb t.day v.days,
        hour_of-hour_register regb t.hour v.hours,
        binary-register regb t.minute v.minutes,
        binary-register regb t.second v.seconds,
      )
      refl

-- No read agrees with the one before it.
abbrev pub all_differ : Raw → List Raw → Bool
all_differ last [] = true
all_differ last (r ∷ rs) = if same_raw r last then false else all_differ r rs

same_raw_refl : (r : Raw) → same_raw r r ≡ true
same_raw_refl r =
    rw (==_refl r.s, ==_refl r.m, ==_refl r.h, ==_refl r.d, ==_refl r.mo, ==_refl r.y) refl

settle-twice :
    (last : Raw) (torn : List Raw) (r : Raw) (rest : List Raw)
    → all_differ last torn ≡ true
    → settle last (torn ++ r ∷ r ∷ rest) ≡ some r
unfolding settle
settle-twice last [] r rest h = elim (Bool-cases (same_raw r last)) [
  | inl e ↦ rw e refl
  | inr e ↦ rw (e, same_raw_refl r) refl
]
settle-twice last (x ∷ torn) r rest h = elim (Bool-cases (same_raw x last)) [
  | inl e ↦ ground (arith, e, h)
  | inr e ↦ rw e (settle-twice x torn r rest (ground (arith, e, h)))
]

-- A clock that shows a time of this century, in any of the four formats that its status register
-- selects, is read as that time, as soon as two reads in a row see it, where no two reads in a row
-- agreed before.
pub rtc_read-shows :
    (regb : ℕ) (t : RtcTime) (first : Raw) (torn rest : List Raw)
    → IsTime t
    → all_differ first torn ≡ true
    → rtc_read regb first (torn ++ shows regb t ∷ shows regb t ∷ rest) ≡ some t
unfolding rtc_read
rtc_read-shows regb t first torn rest v h =
    ap (λ (o : Option Raw). elim o [ none ↦ none | some r ↦ some (decode regb r) ])
      (settle-twice first torn (shows regb t) rest h)
    ∙ ap some (decode-shows regb t v)
