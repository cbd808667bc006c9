-- ===== src/Arch/Rtc.antt =====
-- kernel/arch/x86_64/rtc.c: reading the clock chip in each of its modes, and the shift to IST.
pub mod Read
pub mod Ist
mod Tests
use sol_os.Base.{
  ℕ, zero, suc, ◌+◌, ◌-◌, ◌*◌, ◌/◌, ◌%◌, Bool, true, false, ◌&&◌, ◌||◌, not, Option, none, some,
  List, [], ◌∷◌, ltb, leb, ◌==◌, if◌then◌else◌, get_or, bit,
}

-- The bytes that the chip's registers give during one read.
pub record Cmos : Type 0 where
  pub sec : ℕ
  pub min : ℕ
  pub hour : ℕ
  pub day : ℕ
  pub month : ℕ
  pub year : ℕ
  pub stat_b : ℕ

pub record Datetime : Type 0 where
  pub year : ℕ
  pub month : ℕ
  pub day : ℕ
  pub hour : ℕ
  pub minute : ℕ
  pub second : ℕ

-- `polls i` is status A at the i-th poll; bit 7 means that an update is in progress.
unfoldable pub update_done : ℕ → ℕ → (ℕ → ℕ) → Bool
update_done zero i polls = false
update_done (suc n) i polls =
    let rest = update_done n (i + 1) polls in if bit (polls i) 7 == 1 then rest else true

abbrev pub poll_limit : ℕ
poll_limit = 100000

abbrev pub bcd_to_bin : ℕ → ℕ
bcd_to_bin v = v / 16 % 16 * 10 + v % 16

-- A register's number: as it stands in binary mode, else two decimal digits.
abbrev pub decode : Bool → ℕ → ℕ
decode binary v = if binary then v else bcd_to_bin v

-- The hour on a 24-hour clock.
abbrev pub to_24 : Bool → Bool → ℕ → ℕ
to_24 hour12 pm h =
    if hour12
    then if pm && not (h == 12) then h + 12 else if not pm && (h == 12) then 0 else h
    else h

unfoldable pub read_registers : Cmos → Datetime
read_registers c =
    let binary = bit c.stat_b 2 == 1 in
    let hour12 = bit c.stat_b 1 == 0 in
    let h = if binary then c.hour else bcd_to_bin (c.hour % 128) in
    record {
      year = 2000 + decode binary c.year;
      month = decode binary c.month;
      day = decode binary c.day;
      hour = to_24 hour12 (bit c.hour 7 == 1) h;
      minute = decode binary c.min;
      second = decode binary c.sec;
    }

-- `none`: the chip stayed in an update.
unfoldable pub rtc_read : (ℕ → ℕ) → Cmos → Option Datetime
unfolding update_done read_registers
rtc_read polls c = if update_done poll_limit 0 polls then some (read_registers c) else none

abbrev pub ist_offset_min : ℕ
ist_offset_min = 330

abbrev pub is_leap : ℕ → Bool
is_leap year = (year % 4 == 0) && (not (year % 100 == 0) || (year % 400 == 0))

abbrev pub month_lengths : List ℕ
month_lengths = 31 ∷ 28 ∷ 31 ∷ 30 ∷ 31 ∷ 30 ∷ 31 ∷ 31 ∷ 30 ∷ 31 ∷ 30 ∷ 31 ∷ []

unfoldable pub days_in_month : ℕ → ℕ → ℕ
days_in_month month year =
    if ltb month 1 || ltb 12 month
    then 31
    else if (month == 2) && is_leap year
    then 29
    else get_or month_lengths (month - 1) 0

-- The day after: the roll over midnight.
unfoldable pub roll_date : Datetime → Datetime
roll_date dt =
    if ltb (days_in_month dt.month dt.year) (dt.day + 1)
    then if ltb 12 (dt.month + 1)
      then record dt { day = 1; month = 1; year = dt.year + 1 }
      else record dt { day = 1; month = dt.month + 1 }
    else record dt { day = dt.day + 1 }

unfoldable pub to_ist : Datetime → Datetime
unfolding roll_date
to_ist dt =
    let total = dt.hour * 60 + dt.minute + ist_offset_min in
    let shifted = record dt { hour = total / 60 % 24; minute = total % 60 } in
    if leb (24 * 60) total then roll_date shifted else shifted

unfoldable pub rtc_read_ist : (ℕ → ℕ) → Cmos → Option Datetime
unfolding rtc_read to_ist
rtc_read_ist polls c = elim (rtc_read polls c) [ none ↦ none | some dt ↦ some (to_ist dt) ]
