-- ===== src/Clock/Stamp.antt =====
-- The packing and the unpacking of a time stamp, get_rtc_timestamp and vfs_debug_ls.
use native.Mathlib.Nat.{one-le-pow, mod-eq_of_lt, div-eq_of_lt, mul-div_left, mul-mod_left}
use nekonix.Base.{
  ℕ, ◌+◌, ◌*◌, ◌/◌, ◌^◌, ◌-◌, ◌≤◌, ◌≡◌, ◌<◌, ◌∙◌, ap, Bool, true, false, bit_or, arith, u64,
}
use nekonix.Base.Bits.{bit_or_split, bit_or-zero, zero-bit_or, bit_and_mask}
use nekonix.Clock.{
  Registers, TimePoint, time_diff_seconds, bcd2bin, get_rtc_timestamp, stamp_year, stamp_month,
  stamp_day, stamp_hours, stamp_minutes, stamp_seconds,
}

-- Words whose bits do not meet are added.
bit_or-add : (k a b : ℕ) → b < 2 ^ k → bit_or (a * 2 ^ k) b ≡ a * 2 ^ k + b
bit_or-add k a b h =
    let pos : 0 < 2 ^ k = one-le-pow k 2 (omega arith) in
    rw
      (
        bit_or_split k (a * 2 ^ k) b,
        mul-div_left a pos,
        mul-mod_left a (2 ^ k),
        div-eq_of_lt h,
        mod-eq_of_lt h,
        bit_or-zero a,
      )
      (ap (λ x. a * 2 ^ k + x) (zero-bit_or b))

-- One more byte below the bits that are there.
module _ (a b : ℕ) (small : b < 256) where
  byte32 : bit_or (a * 2 ^ 40) (u64 (b * 2 ^ 32)) ≡ (a * 256 + b) * 2 ^ 32
  byte32 = bit_or-add 40 a (u64 (b * 2 ^ 32)) (omega arith) ∙ omega arith

  byte24 : bit_or (a * 2 ^ 32) (u64 (b * 2 ^ 24)) ≡ (a * 256 + b) * 2 ^ 24
  byte24 = bit_or-add 32 a (u64 (b * 2 ^ 24)) (omega arith) ∙ omega arith

  byte16 : bit_or (a * 2 ^ 24) (u64 (b * 2 ^ 16)) ≡ (a * 256 + b) * 2 ^ 16
  byte16 = bit_or-add 24 a (u64 (b * 2 ^ 16)) (omega arith) ∙ omega arith

  byte8 : bit_or (a * 2 ^ 16) (u64 (b * 2 ^ 8)) ≡ (a * 256 + b) * 2 ^ 8
  byte8 = bit_or-add 16 a (u64 (b * 2 ^ 8)) (omega arith) ∙ omega arith

  byte0 : bit_or (a * 2 ^ 8) b ≡ a * 256 + b
  byte0 = bit_or-add 8 a b small

-- Each register holds a byte.
pub record IsBytes (r : Registers) : Type 0 where
  pub seconds : r.seconds < 256
  pub minutes : r.minutes < 256
  pub hours : r.hours < 256
  pub day : r.day < 256
  pub month : r.month < 256
  pub year : r.year < 256

bcd2bin_lt : (bcd : Bool) (n : ℕ) → n < 256 → bcd2bin bcd n < 256
unfolding bcd2bin
bcd2bin_lt true n h = omega arith
bcd2bin_lt false n h = h

-- A byte that holds two decimal digits is read as their number.
pub bcd2bin-digits : (t u : ℕ) → t < 10 → u < 10 → bcd2bin true (t * 16 + u) ≡ t * 10 + u
unfolding bcd2bin
bcd2bin-digits t u ht hu = omega (arith, bit_and_mask 4 (t * 16 + u), ht, hu)

stamp_sum :
    (bcd : Bool) (r : Registers)
    → IsBytes r
    → get_rtc_timestamp bcd r
      ≡ (((((bcd2bin bcd r.year + 2000) * 256 + bcd2bin bcd r.month) * 256 + bcd2bin bcd r.day)
                  * 256
                + bcd2bin bcd r.hours)
              * 256
            + bcd2bin bcd r.minutes)
          * 256
        + bcd2bin bcd r.seconds
unfolding get_rtc_timestamp
stamp_sum bcd r ok =
    rw
      (
        zero-bit_or (u64 ((bcd2bin bcd r.year + 2000) * 2 ^ 40)),
        year_fits,
        byte32 _ _ (bcd2bin_lt bcd r.month ok.month),
        byte24 _ _ (bcd2bin_lt bcd r.day ok.day),
        byte16 _ _ (bcd2bin_lt bcd r.hours ok.hours),
        byte8 _ _ (bcd2bin_lt bcd r.minutes ok.minutes),
      )
      (byte0 _ _ (bcd2bin_lt bcd r.seconds ok.seconds))
  where
    year_fits : u64 ((bcd2bin bcd r.year + 2000) * 2 ^ 40) ≡ (bcd2bin bcd r.year + 2000) * 2 ^ 40
    year_fits = omega (arith, bcd2bin_lt bcd r.year ok.year)

-- The fields that a directory listing shows of a time stamp are those that the clock read, when its
-- registers hold bytes, with 2000 added to the year.
pub get_rtc_timestamp_lem :
    (bcd : Bool) (r : Registers)
    → IsBytes r
    → (stamp_year (get_rtc_timestamp bcd r) ≡ bcd2bin bcd r.year + 2000)
      × (stamp_month (get_rtc_timestamp bcd r) ≡ bcd2bin bcd r.month)
      × (stamp_day (get_rtc_timestamp bcd r) ≡ bcd2bin bcd r.day)
      × (stamp_hours (get_rtc_timestamp bcd r) ≡ bcd2bin bcd r.hours)
      × (stamp_minutes (get_rtc_timestamp bcd r) ≡ bcd2bin bcd r.minutes)
      × (stamp_seconds (get_rtc_timestamp bcd r) ≡ bcd2bin bcd r.seconds)
unfolding stamp_year stamp_month stamp_day stamp_hours stamp_minutes stamp_seconds
get_rtc_timestamp_lem bcd r ok =
    let t = get_rtc_timestamp bcd r in
    let all = stamp_sum bcd r ok in
    let y = bcd2bin_lt bcd r.year ok.year in
    let mo = bcd2bin_lt bcd r.month ok.month in
    let d = bcd2bin_lt bcd r.day ok.day in
    let h = bcd2bin_lt bcd r.hours ok.hours in
    let mi = bcd2bin_lt bcd r.minutes ok.minutes in
    let s = bcd2bin_lt bcd r.seconds ok.seconds in
    (
      omega (arith, bit_and_mask 16 (t / 2 ^ 40), all, y, mo, d, h, mi, s),
      omega (arith, bit_and_mask 8 (t / 2 ^ 32), all, y, mo, d, h, mi, s),
      omega (arith, bit_and_mask 8 (t / 2 ^ 24), all, y, mo, d, h, mi, s),
      omega (arith, bit_and_mask 8 (t / 2 ^ 16), all, y, mo, d, h, mi, s),
      omega (arith, bit_and_mask 8 (t / 2 ^ 8), all, y, mo, d, h, mi, s),
      omega (arith, bit_and_mask 8 t, all, y, mo, d, h, mi, s),
    )

abbrev pub day_seconds : TimePoint → ℕ
day_seconds t = t.seconds + t.minutes * 60 + t.hours * 3600

-- The difference of two times of a day, added to the first, is the second, on 64 bits; it is the
-- seconds between them when the second is not the earlier one.
pub time_diff_seconds_lem :
    (start end : TimePoint)
    → day_seconds start < 2 ^ 64
    → day_seconds end < 2 ^ 64
    → (u64 (day_seconds start + time_diff_seconds start end) ≡ day_seconds end)
      × (day_seconds start ≤ day_seconds end
          → time_diff_seconds start end ≡ day_seconds end - day_seconds start)
unfolding time_diff_seconds
time_diff_seconds_lem start end hs he = (omega arith, λ le. omega arith)
