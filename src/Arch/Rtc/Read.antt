-- ===== src/Arch/Rtc/Read.antt =====
-- kernel/arch/x86_64/rtc.c, rtc_read: the four register formats of the chip.
use sol_os.Base.{
  ℕ, zero, suc, ◌+◌, ◌-◌, ◌*◌, ◌/◌, ◌%◌, ◌≤◌, ◌<◌, ◌≡◌, refl, Bool, true, false, ◌&&◌, some, arith,
  ℕ_discrete, leb, ◌==◌, if◌then◌else◌, bit,
}
use sol_os.Arch.Rtc.{
  Cmos, Datetime, decode, to_24, bcd_to_bin, read_registers, rtc_read, update_done, poll_limit,
}

-- Two decimal digits, as the chip stores them.
abbrev pub bcd : ℕ → ℕ
bcd v = v / 10 * 16 + v % 10

abbrev pub encode : Bool → ℕ → ℕ
encode binary v = if binary then v else bcd v

-- 12, 1, 2, …, 11 on each half of the day.
abbrev pub clock_face : ℕ → ℕ
clock_face h = if h % 12 == 0 then 12 else h % 12

abbrev pub encode_hour : Bool → Bool → ℕ → ℕ
encode_hour binary hour12 h =
    if hour12 then encode binary (clock_face h) + (if leb 12 h then 128 else 0) else encode binary h

-- The registers of a chip in the given mode that shows the given time.
abbrev pub registers : Bool → Bool → Datetime → Cmos
registers binary hour12 t = record {
  sec = encode binary t.second;
  min = encode binary t.minute;
  hour = encode_hour binary hour12 t.hour;
  day = encode binary t.day;
  month = encode binary t.month;
  year = encode binary (t.year - 2000);
  stat_b = (if binary then 4 else 0) + (if hour12 then 0 else 2);
}

pub record InCentury (t : Datetime) : Type 0 where
  pub year_from : 2000 ≤ t.year
  pub year_to : t.year < 2100
  pub month_in : t.month < 13
  pub day_in : t.day < 32
  pub hour_in : t.hour < 24
  pub minute_in : t.minute < 60
  pub second_in : t.second < 60

decode-encode : (binary : Bool) (v : ℕ) → v < 100 → decode binary (encode binary v) ≡ v
decode-encode true v h = refl
decode-encode false v h = omega arith

-- The hour that the registers show, in each format.
hour_shown :
    (binary hour12 : Bool) (h : ℕ)
    → h < 24
    → (binary && hour12 && leb 12 h) ≡ false
    → let r = encode_hour binary hour12 h in
      to_24 hour12 (bit r 7 == 1) (if binary then r else bcd_to_bin (r % 128)) ≡ h
hour_shown true true h l ok = ground arith
hour_shown true false h l ok = ground arith
hour_shown false true h l ok = ground arith
hour_shown false false h l ok = ground arith

hour_read :
    (binary hour12 : Bool) (t : Datetime)
    → InCentury t
    → (binary && hour12 && leb 12 t.hour) ≡ false
    → (read_registers (registers binary hour12 t)).hour ≡ t.hour
unfolding read_registers
hour_read true true t v ok = hour_shown true true t.hour v.hour_in ok
hour_read true false t v ok = hour_shown true false t.hour v.hour_in ok
hour_read false true t v ok = hour_shown false true t.hour v.hour_in ok
hour_read false false t v ok = hour_shown false false t.hour v.hour_in ok

year_read :
    (binary hour12 : Bool) (t : Datetime)
    → InCentury t
    → (read_registers (registers binary hour12 t)).year ≡ t.year
unfolding read_registers
year_read true true t v = omega arith
year_read true false t v = omega arith
year_read false true t v = omega arith
year_read false false t v = omega arith

-- The fields that are plain numbers.
rest_read :
    (binary hour12 : Bool) (t : Datetime)
    → InCentury t
    → let r = read_registers (registers binary hour12 t) in
      (r.month ≡ t.month) × (r.day ≡ t.day) × (r.minute ≡ t.minute) × (r.second ≡ t.second)
unfolding read_registers
rest_read true true t v = omega arith
rest_read true false t v = omega arith
rest_read false true t v = omega arith
rest_read false false t v = omega arith

-- `rtc_read` gives back the time that the chip shows, in binary or decimal digits, on a 12-hour or a
-- 24-hour clock, except for the afternoon in the binary 12-hour format.
pub read_registers-registers :
    (binary hour12 : Bool) (t : Datetime)
    → InCentury t
    → (binary && hour12 && leb 12 t.hour) ≡ false
    → read_registers (registers binary hour12 t) ≡ t
read_registers-registers binary hour12 t v ok =
    let (month, day, minute, second) = rest_read binary hour12 t v in
    λ i. record {
      year = year_read binary hour12 t v i;
      month = month i;
      day = day i;
      hour = hour_read binary hour12 t v ok i;
      minute = minute i;
      second = second i;
    }

-- In the binary 12-hour format the code does not take the afternoon bit off: every afternoon hour
-- reads as 140 or more.
pub binary_afternoon :
    (t : Datetime) → t.hour < 24 → 12 ≤ t.hour → 140 ≤ (read_registers (registers true true t)).hour
unfolding read_registers
binary_afternoon t l noon = ground arith

-- The wait ends well if one of its polls shows no update.
update_done_lem :
    (n i : ℕ) (polls : ℕ → ℕ) (k : ℕ)
    → i ≤ k
    → k < i + n
    → bit (polls k) 7 ≡ 0
    → update_done n i polls ≡ true
unfolding update_done
update_done_lem zero i polls k l h z = absurd (omega arith)
update_done_lem (suc n) i polls k l h z = elim (ℕ_discrete i k) [
  | yes e ↦ ground arith
  | no ne ↦ ground (arith, update_done_lem n (i + 1) polls k (omega arith) (omega arith) z)
]

-- If some poll before the limit shows no update, `rtc_read` returns what the registers hold.
pub rtc_read_lem :
    (polls : ℕ → ℕ) (c : Cmos) (k : ℕ)
    → k < poll_limit
    → bit (polls k) 7 ≡ 0
    → rtc_read polls c ≡ some (read_registers c)
unfolding rtc_read
rtc_read_lem polls c k h z = rw (update_done_lem poll_limit 0 polls k (omega arith) (omega arith) z)
