-- ===== src/Clock.antt =====
-- The real-time clock, kernel/src/dev/rtc.c, and the fields that vfs_debug_ls of kernel/src/dev/vfs.c
-- takes from a time stamp. What the registers of the clock hold is an argument.
pub mod Stamp
mod Tests
use nekonix.Base.{
  ℕ, ◌+◌, ◌*◌, ◌/◌, ◌%◌, ◌^◌, ◌≡◌, Bool, true, false, if◌then◌else◌, bit_and, bit_or, u8, u32, u64,
  sub_u64, List, [], ◌∷◌,
}

-- The registers that the time is read from.
pub record Registers : Type 0 where
  pub seconds : ℕ
  pub minutes : ℕ
  pub hours : ℕ
  pub day_of_week : ℕ
  pub day : ℕ
  pub month : ℕ
  pub year : ℕ

-- `bcd` says whether the clock counts in decimal digits.
unfoldable pub bcd2bin : Bool → ℕ → ℕ
bcd2bin bcd in_bcd = if bcd then u8 ((in_bcd / 2 ^ 4) * 10 + bit_and in_bcd 0x0F) else in_bcd

unfoldable pub get_rtc_timestamp : Bool → Registers → ℕ
get_rtc_timestamp bcd r =
    let t0 = bit_or 0 (u64 ((bcd2bin bcd r.year + 2000) * 2 ^ 40)) in
    let t1 = bit_or t0 (u64 (bcd2bin bcd r.month * 2 ^ 32)) in
    let t2 = bit_or t1 (u64 (bcd2bin bcd r.day * 2 ^ 24)) in
    let t3 = bit_or t2 (u64 (bcd2bin bcd r.hours * 2 ^ 16)) in
    let t4 = bit_or t3 (u64 (bcd2bin bcd r.minutes * 2 ^ 8)) in bit_or t4 (bcd2bin bcd r.seconds)

-- The arguments of the format of vfs_debug_ls, from the year down.
unfoldable pub stamp_year : ℕ → ℕ
stamp_year t = bit_and (t / 2 ^ 40) 0xFFFF

unfoldable pub stamp_month : ℕ → ℕ
stamp_month t = bit_and (t / 2 ^ 32) 0xFF

unfoldable pub stamp_day : ℕ → ℕ
stamp_day t = bit_and (t / 2 ^ 24) 0xFF

unfoldable pub stamp_hours : ℕ → ℕ
stamp_hours t = bit_and (t / 2 ^ 16) 0xFF

unfoldable pub stamp_minutes : ℕ → ℕ
stamp_minutes t = bit_and (t / 2 ^ 8) 0xFF

unfoldable pub stamp_seconds : ℕ → ℕ
stamp_seconds t = bit_and t 0xFF

-- `rtc_time_point`; the code sets no milliseconds.
pub record TimePoint : Type 0 where
  pub seconds : ℕ
  pub minutes : ℕ
  pub hours : ℕ
  pub day_of_week : ℕ
  pub day_of_month : ℕ
  pub month : ℕ
  pub year : ℕ
  pub full : List ℕ

unfoldable pub rtc_get : Bool → Registers → TimePoint
rtc_get bcd r =
    let seconds = bcd2bin bcd r.seconds in
    let minutes = bcd2bin bcd r.minutes in
    let hours = bcd2bin bcd r.hours in
    let day_of_month = bcd2bin bcd r.day in
    let month = bcd2bin bcd r.month in
    let year = bcd2bin bcd r.year in
    record {
      seconds = seconds;
      minutes = minutes;
      hours = hours;
      day_of_week = bcd2bin bcd r.day_of_week;
      day_of_month = day_of_month;
      month = month;
      year = year;
      full = seconds ∷ minutes ∷ hours ∷ day_of_month ∷ month ∷ year ∷ [];
    }

unfoldable pub time_diff_seconds : TimePoint → TimePoint → ℕ
time_diff_seconds start end =
    let start_seconds = start.seconds + start.minutes * 60 + start.hours * 3600 in
    let end_seconds = end.seconds + end.minutes * 60 + end.hours * 3600 in
    sub_u64 end_seconds start_seconds
