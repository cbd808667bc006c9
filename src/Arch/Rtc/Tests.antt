-- ===== src/Arch/Rtc/Tests.antt =====
-- kernel/arch/x86_64/rtc.c on single times.
use sol_os.Base.{◌+◌, ◌≡◌, refl, true, false, some, arith, ◌==◌, if◌then◌else◌}
use sol_os.Arch.Rtc.{
  Datetime, read_registers, rtc_read, rtc_read_ist, update_done, to_ist, roll_date, days_in_month,
}
use sol_os.Arch.Rtc.Read.{InCentury, registers, read_registers-registers, rtc_read_lem}
use sol_os.Arch.Rtc.Ist.{IsValid, minutes, month_end, month_start, to_ist_lem}

-- 31 December 2024, 19:45:09
abbrev evening : Datetime
evening = record { year = 2024; month = 12; day = 31; hour = 19; minute = 45; second = 9 }

evening-InCentury : InCentury evening
evening-InCentury = omega arith

evening-IsValid : IsValid evening
unfolding month_end month_start
evening-IsValid = omega arith

-- It is next year in India.
new_year :
    rtc_read_ist (λ i. 0) (registers false true evening)
    ≡ some (record { year = 2025; month = 1; day = 1; hour = 1; minute = 15; second = 9 })
unfolding rtc_read_ist rtc_read update_done read_registers to_ist roll_date days_in_month
new_year = refl

read_registers-registers_example : read_registers (registers false true evening) ≡ evening
read_registers-registers_example =
    read_registers-registers false true evening evening-InCentury refl

rtc_read_lem_example :
    rtc_read (λ i. if i == 0 then 128 else 0) (registers false false evening)
    ≡ some (read_registers (registers false false evening))
rtc_read_lem_example =
    rtc_read_lem (λ i. if i == 0 then 128 else 0) (registers false false evening) 1 (omega arith)
      refl

to_ist_lem_example : IsValid (to_ist evening) × (minutes (to_ist evening) ≡ minutes evening + 330)
to_ist_lem_example = to_ist_lem evening evening-IsValid
