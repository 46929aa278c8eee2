-- ===== src/Clock/Laws.antt =====
-- The date that the real-time clock shows, and the unit of a size.
use deputy_kernel.Base.{ℕ, ◌+◌, ◌*◌, ◌/◌, ◌%◌, ◌^◌, ◌<◌, ◌≤◌, ◌≡◌, refl, arith}
use deputy_kernel.Utils.Numbers.{bcd2dec}
use deputy_kernel.CoreFs.{Date}
use deputy_kernel.Hw.Ports.{Ports}
use deputy_kernel.Clock.{rtc_register, read_rtc, date, unit_from}

-- Two decimal digits, four bits each.
abbrev pub bcd : ℕ → ℕ
bcd n = n / 10 * 16 + n % 10

bcd2dec-bcd : (n : ℕ) → n < 100 → bcd2dec (bcd n) ≡ n
unfolding bcd2dec
bcd2dec-bcd n h = omega arith

shown : (x n : ℕ) → x ≡ bcd n → n < 100 → bcd2dec x ≡ n
shown x n e h = rw e (bcd2dec-bcd n h)

shown_year : (x y : ℕ) → x ≡ bcd (y % 100) → 2000 ≤ y → y < 2100 → bcd2dec x + 2000 ≡ y
shown_year x y e h k = omega (arith, shown x (y % 100) e (omega arith))

module _ {S : Type 0} (p : Ports S) where
  -- Whatever has been done, the clock shows the date.
  pub record Shows (d : Date) : Type 0 where
    pub sec : (s : S) → (rtc_register p 0 s).0 ≡ bcd d.sec
    pub min : (s : S) → (rtc_register p 2 s).0 ≡ bcd d.min
    pub hour : (s : S) → (rtc_register p 4 s).0 ≡ bcd d.hour
    pub day : (s : S) → (rtc_register p 7 s).0 ≡ bcd d.day
    pub mon : (s : S) → (rtc_register p 8 s).0 ≡ bcd d.mon
    pub year : (s : S) → (rtc_register p 9 s).0 ≡ bcd (d.year % 100)

  -- If whatever is done before, the registers of the real-time clock hold the two digits of each
  -- field of a date from 2000 to 2099, four bits each, `date` gives that date.
  pub date-Shows :
      (d : Date) (s : S)
      → Shows d
      → d.sec < 100
      → d.min < 100
      → d.hour < 100
      → d.day < 100
      → d.mon < 100
      → 2000 ≤ d.year
      → d.year < 2100
      → (date p s).0 ≡ d
  unfolding date read_rtc
  date-Shows d s h a b c e f g k =
      let s1 = (rtc_register p 0 s).1 in
      let s2 = (rtc_register p 2 s1).1 in
      let s3 = (rtc_register p 4 s2).1 in
      let s4 = (rtc_register p 7 s3).1 in
      let s5 = (rtc_register p 8 s4).1 in
      rw
        (
          shown _ d.sec (h.sec s) a,
          shown _ d.min (h.min s1) b,
          shown _ d.hour (h.hour s2) c,
          shown _ d.day (h.day s3) e,
          shown _ d.mon (h.mon s4) f,
          shown_year _ d.year (h.year s5) g k,
        )
        refl

pub unit_from-lem :
    (size : ℕ)
    → size < 2 ^ 32
    → ((unit_from 5 size 0).0 < 1024)
      × ((unit_from 5 size 0).1 ≤ 3)
      × ((unit_from 5 size 0).0 ≡ size / 1024 ^ (unit_from 5 size 0).1)
      × (0 < (unit_from 5 size 0).1 → 0 < (unit_from 5 size 0).0)
unfolding unit_from
unit_from-lem size h = ground arith
