-- ===== src/Clock/Tests.antt =====
-- A clock that shows the last second of a year.
use deputy_kernel.Base.{ℕ, ◌≡◌, refl, arith, ◌==◌, if◌then◌else◌}
use deputy_kernel.CoreFs.{Date}
use deputy_kernel.Hw.Ports.{Ports, port_inb, port_outb}
use deputy_kernel.Clock.{rtc_register, date}
use deputy_kernel.Clock.Laws.{bcd, Shows, date-Shows}

abbrev silvester : Date
silvester = record { sec = 59; min = 59; hour = 23; day = 31; mon = 12; year = 2025 }

-- The state is the index of the register that is read next.
abbrev rtc : Ports ℕ
rtc = record {
  input = λ width port s. (
    if s == 0
        then bcd 59
        else if s == 2
        then bcd 59
        else if s == 4
        then bcd 23
        else if s == 7
        then bcd 31
        else if s == 8
        then bcd 12
        else bcd 25,
    s,
  );
  output = λ width port v s. v;
  pause = λ s. s;
}

silvester-Shows : Shows rtc silvester
unfolding rtc_register port_inb port_outb
silvester-Shows = record {
  sec = λ s. refl;
  min = λ s. refl;
  hour = λ s. refl;
  day = λ s. refl;
  mon = λ s. refl;
  year = λ s. refl;
}

date-Shows_example : (date rtc 0).0 ≡ silvester
date-Shows_example =
    date-Shows rtc silvester 0 silvester-Shows (omega arith) (omega arith) (omega arith)
      (omega arith) (omega arith) (omega arith) (omega arith)
