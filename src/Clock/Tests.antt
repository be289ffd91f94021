-- ===== src/Clock/Tests.antt =====
-- A time of the clock, packed and read back.
use nekonix.Base.{◌+◌, ◌≡◌, true, ◌∷◌, [], arith, refl}
use nekonix.Clock.{
  Registers, TimePoint, bcd2bin, rtc_get, get_rtc_timestamp, stamp_year, stamp_month, stamp_day,
  stamp_hours, stamp_minutes, stamp_seconds,
}
use nekonix.Clock.Stamp.{IsBytes, get_rtc_timestamp_lem}

-- 2025-02-28 23:59:30, in decimal digits.
abbrev registers : Registers
registers = record {
  seconds = 0x30;
  minutes = 0x59;
  hours = 0x23;
  day_of_week = 0x05;
  day = 0x28;
  month = 0x02;
  year = 0x25;
}

registers-IsBytes : IsBytes registers
registers-IsBytes = record {
  seconds = omega arith;
  minutes = omega arith;
  hours = omega arith;
  day = omega arith;
  month = omega arith;
  year = omega arith;
}

time_runs : (rtc_get true registers).full ≡ 30 ∷ 59 ∷ 23 ∷ 28 ∷ 2 ∷ 25 ∷ []
unfolding rtc_get bcd2bin
time_runs = refl

get_rtc_timestamp_lem_example :
    (stamp_year (get_rtc_timestamp true registers) ≡ bcd2bin true 0x25 + 2000)
    × (stamp_month (get_rtc_timestamp true registers) ≡ bcd2bin true 0x02)
    × (stamp_day (get_rtc_timestamp true registers) ≡ bcd2bin true 0x28)
    × (stamp_hours (get_rtc_timestamp true registers) ≡ bcd2bin true 0x23)
    × (stamp_minutes (get_rtc_timestamp true registers) ≡ bcd2bin true 0x59)
    × (stamp_seconds (get_rtc_timestamp true registers) ≡ bcd2bin true 0x30)
get_rtc_timestamp_lem_example = get_rtc_timestamp_lem true registers registers-IsBytes

abbrev noon : TimePoint
noon = record {
  seconds = 0;
  minutes = 0;
  hours = 12;
  day_of_week = 5;
  day_of_month = 28;
  month = 2;
  year = 25;
  full = [];
}

abbrev later : TimePoint
later = record noon { minutes = 30 }
