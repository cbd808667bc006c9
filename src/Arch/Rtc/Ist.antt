-- ===== src/Arch/Rtc/Ist.antt =====
-- kernel/arch/x86_64/rtc.c, rtc_read_ist: the shift by five and a half hours moves the time by
-- exactly that, over the ends of days, months and years.
use sol_os.Base.{
  ℕ, zero, suc, ◌+◌, ◌-◌, ◌*◌, ◌/◌, ◌%◌, ◌≤◌, ◌<◌, ◌≡◌, refl, ap, ◌∙◌, arith, dec_lt, leb, ◌==◌,
  if◌then◌else◌, get_or_All,
}
use sol_os.Arch.Rtc.{Datetime, days_in_month, roll_date, to_ist, month_lengths}

-- Days before the first of month `m` of year `y`, 1 to 12, in the Gregorian calendar, from a fixed day
-- 400 years before year 0: a year counts from March on, so that the leap day is its last and five
-- months have 153 days. It takes nothing of the code's tables.
unfoldable pub month_start : ℕ → ℕ → ℕ
month_start y m =
    let a = if leb m 2 then y + 399 else y + 400 in
    let k = if leb m 2 then m + 9 else m - 3 in
    365 * a + a / 4 + a / 400 - a / 100 + (153 * k + 2) / 5

-- The same for the first of the month after.
unfoldable pub month_end : ℕ → ℕ → ℕ
unfolding month_start
month_end y m = if m == 12 then month_start (y + 1) 1 else month_start y (m + 1)

-- A date of the calendar with a time of the day.
pub record IsValid (t : Datetime) : Type 0 where
  pub month_from : 1 ≤ t.month
  pub month_to : t.month ≤ 12
  pub day_from : 1 ≤ t.day
  pub day_to : month_start t.year t.month + t.day ≤ month_end t.year t.month
  pub hour_in : t.hour < 24
  pub minute_in : t.minute < 60

-- Minutes since the fixed day.
abbrev pub minutes : Datetime → ℕ
minutes t = (month_start t.year t.month + t.day) * 1440 + t.hour * 60 + t.minute

-- The code's month lengths are those of the calendar.
days_in_month_lem : (m y : ℕ) → 1 ≤ m → m ≤ 12 → month_end y m ≡ month_start y m + days_in_month m y
unfolding days_in_month month_end month_start
days_in_month_lem zero y l h = absurd (omega arith)
days_in_month_lem (suc zero) y l h = ground arith
days_in_month_lem (suc (suc zero)) y l h = ground arith
days_in_month_lem (suc (suc (suc zero))) y l h = ground arith
days_in_month_lem (suc (suc (suc (suc zero)))) y l h = ground arith
days_in_month_lem (suc (suc (suc (suc (suc zero))))) y l h = ground arith
days_in_month_lem (suc (suc (suc (suc (suc (suc zero)))))) y l h = ground arith
days_in_month_lem (suc (suc (suc (suc (suc (suc (suc zero))))))) y l h = ground arith
days_in_month_lem (suc (suc (suc (suc (suc (suc (suc (suc zero)))))))) y l h = ground arith
days_in_month_lem (suc (suc (suc (suc (suc (suc (suc (suc (suc zero))))))))) y l h = ground arith
days_in_month_lem (suc (suc (suc (suc (suc (suc (suc (suc (suc (suc zero)))))))))) y l h =
    ground arith
days_in_month_lem (suc (suc (suc (suc (suc (suc (suc (suc (suc (suc (suc zero))))))))))) y l h =
    ground arith
days_in_month_lem (suc (suc (suc (suc (suc (suc (suc (suc (suc (suc (suc (suc zero)))))))))))) y l
      h =
    ground arith
days_in_month_lem (suc (suc (suc (suc (suc (suc (suc (suc (suc (suc (suc (suc (suc m))))))))))))) y
      l h =
    absurd (omega arith)

days_pos : (m y : ℕ) → 1 ≤ days_in_month m y
unfolding days_in_month
days_pos m y = elim (dec_lt (m - 1) 12) [
  | yes l ↦ ground (arith, get_or_All (λ n. 1 ≤ n) month_lengths (m - 1) 0 (omega arith) l)
  | no g ↦ ground arith
]

month_end_year : (y : ℕ) → month_end y 12 ≡ month_start (y + 1) 1
unfolding month_end
month_end_year y = refl

month_end_month : (y m : ℕ) → m < 12 → month_end y m ≡ month_start y (m + 1)
unfolding month_end
month_end_month y m l = ground arith

roll_date-minutes : (t : Datetime) → IsValid t → minutes (roll_date t) ≡ minutes t + 1440
unfolding roll_date
roll_date-minutes t v = ground (
  arith,
  days_in_month_lem t.month t.year v.month_from v.month_to,
  λ (e : t.month ≡ 12). ap (month_end t.year) e ∙ month_end_year t.year,
  λ (l : t.month < 12). month_end_month t.year t.month l,
  v.day_to,
)

roll_date-IsValid : (t : Datetime) → IsValid t → IsValid (roll_date t)
unfolding roll_date
roll_date-IsValid t v = ground (
  arith,
  days_in_month_lem t.month t.year v.month_from v.month_to,
  days_in_month_lem 1 (t.year + 1) (omega arith) (omega arith),
  λ (l : t.month < 12). days_in_month_lem (t.month + 1) t.year (omega arith) (omega arith),
  days_pos 1 (t.year + 1),
  days_pos (t.month + 1) t.year,
)

-- The new time on the old date.
abbrev shifted : Datetime → Datetime
shifted t =
    let total = t.hour * 60 + t.minute + 330 in
    record t { hour = total / 60 % 24; minute = total % 60 }

shifted-IsValid : (t : Datetime) → IsValid t → IsValid (shifted t)
shifted-IsValid t v = omega arith

-- A valid time of the Gregorian calendar is shifted to a valid one that is 330 minutes later.
pub to_ist_lem :
    (t : Datetime) → IsValid t → IsValid (to_ist t) × (minutes (to_ist t) ≡ minutes t + 330)
unfolding to_ist
to_ist_lem t v = ground (
  arith,
  roll_date-IsValid (shifted t) (shifted-IsValid t v),
  roll_date-minutes (shifted t) (shifted-IsValid t v),
)
