-- ===== src/Rtc/Tests.antt =====
-- A run of `rtc_read` of drivers/rtc.c.
use pumpkin_os.Prelude.{◌≡◌, refl, arith, some, [], ◌∷◌}
use pumpkin_os.Rtc.{RtcTime, Raw, rtc_read}
use pumpkin_os.Rtc.Decode.{IsTime, shows, rtc_read-shows}

abbrev evening : RtcTime
evening = record { year = 2024; month = 10; day = 31; hour = 21; minute = 59; second = 58 }

evening-IsTime : IsTime evening
evening-IsTime = record {
  from_2000 = omega arith;
  to_2099 = omega arith;
  months = omega arith;
  days = omega arith;
  hours = omega arith;
  minutes = omega arith;
  seconds = omega arith;
}

-- A read that the update of the registers tore.
abbrev torn : Raw
torn = record { s = 0x57; m = 0x59; h = 0x89; d = 0x31; mo = 0x10; y = 0x24 }

rtc_read-shows_example : rtc_read 0 torn (shows 0 evening ∷ shows 0 evening ∷ []) ≡ some evening
rtc_read-shows_example = rtc_read-shows 0 evening torn [] [] evening-IsTime refl

nine_pm : (shows 0 evening).h ≡ 0x89
nine_pm = refl
