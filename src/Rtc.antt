-- ===== src/Rtc.antt =====
-- drivers/rtc.c: the date and time from the registers of the clock, which are what the ports give.
pub mod Decode
mod Tests
use package.pumpkin_os.Prelude.{
  ℕ, suc, ◌+◌, ◌*◌, ◌/◌, ◌%◌, ◌^◌, bit_and, Bool, true, false, not, ◌&&◌, ◌==◌, if◌then◌else◌,
}
use package.pumpkin_os.Prelude.{Option, none, some, List, [], ◌∷◌}

-- `struct rtc_time`.
pub record RtcTime : Type 0 where
  pub year : ℕ
  pub month : ℕ
  pub day : ℕ
  pub hour : ℕ
  pub minute : ℕ
  pub second : ℕ

-- What `read_raw` reads.
pub record Raw : Type 0 where
  pub s : ℕ
  pub m : ℕ
  pub h : ℕ
  pub d : ℕ
  pub mo : ℕ
  pub y : ℕ

pub bcd2bin : ℕ → ℕ
bcd2bin v = (bit_and v 0x0F + v / 2 ^ 4 * 10) % 2 ^ 8

abbrev pub same_raw : Raw → Raw → Bool
same_raw a b =
    a.s == b.s && (a.m == b.m && (a.h == b.h && (a.d == b.d && (a.mo == b.mo && a.y == b.y))))

-- The loop of `rtc_read` after it has read `last`, where the list holds what it reads next.
pub settle : Raw → List Raw → Option Raw
settle last [] = none
settle last (r ∷ rs) = let again = settle r rs in if same_raw r last then some r else again

-- `bcd2bin` where the status register says BCD.
abbrev pub binary : ℕ → ℕ → ℕ
binary regb v = if bit_and regb 0x04 == 0 then bcd2bin v else v

-- The hour of a register, of 24.
pub hour_of : ℕ → ℕ → ℕ
unfolding bcd2bin
hour_of regb h =
    let b = binary regb (bit_and h 0x7F) in
    let b' = if b == 12 then 0 else b in
    if bit_and regb 0x02 == 0 then (if bit_and h 0x80 == 0 then b' else (b' + 12) % 2 ^ 8) else b

pub decode : ℕ → Raw → RtcTime
unfolding bcd2bin hour_of
decode regb r = record {
  year = (2000 + binary regb r.y) % 2 ^ 16;
  month = binary regb r.mo;
  day = binary regb r.d;
  hour = hour_of regb r.h;
  minute = binary regb r.m;
  second = binary regb r.s;
}

-- `rtc_read` with the status register `regb`; `none` is a list that ends before two reads agree.
pub rtc_read : ℕ → Raw → List Raw → Option RtcTime
unfolding settle decode
rtc_read regb first reads = elim (settle first reads) [
  | none ↦ none
  | some r ↦ some (decode regb r)
]
