-- ===== src/Clock.antt =====
-- What source/kernel/utils.c reads from clocks: the date of the real-time clock, and the waits. It
-- stands here for the ports that it uses. The time stamp counter and what passes while the code
-- waits are parameters.
pub mod Laws
mod Tests
use deputy_kernel.Base.{
  ℕ, zero, suc, ◌+◌, ◌*◌, ◌/◌, ◌%◌, ◌^◌, Bool, true, false, not, ◌==◌, ltb, leb, if◌then◌else◌,
  Option, none, some, List, [], ◌∷◌, Run, ok, ◌>>=◌, load, replicate, pos,
}
use deputy_kernel.Utils.Numbers.{bcd2dec, to_int}
use deputy_kernel.Utils.Format.{Arg, int, str, snprintf}
use deputy_kernel.CoreFs.{Date}
use deputy_kernel.Hw.Ports.{Ports, port_inb, port_outb}

abbrev pub rtc_index_port : ℕ
rtc_index_port = 0x70

abbrev pub rtc_data_port : ℕ
rtc_data_port = 0x71

module _ {S : Type 0} (p : Ports S) where
  -- One register of the clock.
  unfoldable pub rtc_register : ℕ → S → ℕ × S
  rtc_register r s = port_inb p rtc_data_port (port_outb p rtc_index_port r s)

  unfoldable pub read_rtc : S → Date × S
  read_rtc s =
      let (sec, s1) = rtc_register 0 s in
      let (min, s2) = rtc_register 2 s1 in
      let (hour, s3) = rtc_register 4 s2 in
      let (day, s4) = rtc_register 7 s3 in
      let (mon, s5) = rtc_register 8 s4 in
      let (year, s6) = rtc_register 9 s5 in
      (
        record {
          sec = bcd2dec sec;
          min = bcd2dec min;
          hour = bcd2dec hour;
          day = bcd2dec day;
          mon = bcd2dec mon;
          year = bcd2dec year + 2000;
        },
        s6,
      )

  unfoldable pub date : S → Date × S
  date s = read_rtc s

  -- The seconds since the start of the month.
  unfoldable pub month_seconds : Date → ℕ
  month_seconds d = d.day * 24 * 60 * 60 + d.hour * 60 * 60 + d.min * 60 + d.sec

  -- The loop of `sleep`, on fuel: `none` is a run that has not ended. `idle` is what passes between
  -- two looks at the clock: the instruction `pause`, and the other processes.
  unfoldable pub sleep_until : (idle : S → S) → (fuel target : ℕ) → S → Option S
  sleep_until idle zero target s = none
  sleep_until idle (suc n) target s =
      let (current, t) = date s in
      let rest = sleep_until idle n target (idle t) in
      if leb target (month_seconds current) then some t else rest

  unfoldable pub sleep : (idle : S → S) → (fuel sec : ℕ) → S → Option S
  sleep idle fuel sec s =
      let (start, t) = date s in sleep_until idle fuel ((month_seconds start + sec) % 2 ^ 32) t

-- The counter is read if the processor has one; `tick` reads it.
module _ {S : Type 0} (tick : S → ℕ × S) where
  unfoldable pub rdtsc : (has_tsc : ℕ) → S → ℕ × S
  rdtsc has_tsc s = if has_tsc == 0 then (0, s) else (let (v, t) = tick s in (v % 2 ^ 64, t))

  unfoldable pub delay_until : (idle : S → S) → (has_tsc fuel end : ℕ) → S → Option S
  delay_until idle has_tsc zero end s = none
  delay_until idle has_tsc (suc n) end s =
      let (now, t) = rdtsc has_tsc s in
      let rest = delay_until idle has_tsc n end (idle t) in if ltb now end then rest else some t

  unfoldable pub delay : (idle : S → S) → (has_tsc frequency fuel ms : ℕ) → S → Option S
  delay idle has_tsc frequency fuel ms s =
      if has_tsc == 0
      then some s
      else let (now, t) = rdtsc has_tsc s in
        delay_until idle has_tsc fuel ((frequency * ms % 2 ^ 64 / 1024 + now) % 2 ^ 64) t

-- The loop of `unit`: the number to print and the index of its unit.
unfoldable pub unit_from : (left size index : ℕ) → ℕ × ℕ
unit_from zero size index = (size, index)
unit_from (suc n) size index =
    let rest = unit_from n (size / 1024) (suc index) in
    if leb 1024 size then rest else (size, index)

-- "B", "KB", "MB", "GB", "TB", "PB", with their ends.
abbrev pub units : List (List ℕ)
units =
    (66 ∷ 0 ∷ [])
    ∷ (75 ∷ 66 ∷ 0 ∷ [])
    ∷ (77 ∷ 66 ∷ 0 ∷ [])
    ∷ (71 ∷ 66 ∷ 0 ∷ [])
    ∷ (84 ∷ 66 ∷ 0 ∷ [])
    ∷ (80 ∷ 66 ∷ 0 ∷ [])
    ∷ []

-- The text, in the buffer of 64 bytes.
unfoldable pub unit : ℕ → Run (List ℕ)
unit size = do
  let (number, index) = unit_from 5 size 0
  name ← load units index
  (n, buffer) ←
      snprintf (replicate 64 0) 64 (37 ∷ 100 ∷ 37 ∷ 115 ∷ 0 ∷ [])
        (int (to_int number) ∷ str name ∷ [])
  ok buffer
