-- ===== src/Klog.antt =====
-- kernel/klog.c: what the kernel's log writes to the serial port, as a list of characters.
pub mod Digits
mod Tests
use sol_os.Base.{
  ℕ, zero, suc, ◌+◌, ◌/◌, ◌%◌, Bool, true, false, ◌||◌, not, Option, none, some, List, [], ◌∷◌,
  ◌++◌, ltb, ◌==◌, if◌then◌else◌, drop,
}
use sol_os.Base.Int.{ℤ, pos, negsuc}

-- `digits[d]`
unfoldable pub digit : Bool → ℕ → ℕ
digit upper d = if ltb d 10 then 48 + d else if upper then 55 + d else 87 + d

-- The loop over `buf`, of at most `n` digits, before the characters `acc`.
unfoldable pub digits_from : ℕ → Bool → ℕ → ℕ → List ℕ → List ℕ
unfolding digit
digits_from zero upper base v acc = acc
digits_from (suc n) upper base v acc =
    let rest = digits_from n upper base (v / base) (digit upper (v % base) ∷ acc) in
    if v == 0 then acc else rest

-- `sizeof buf`
abbrev pub buf_size : ℕ
buf_size = 32

unfoldable pub klog_putuint : ℕ → ℕ → Bool → List ℕ
unfolding digits_from
klog_putuint v base upper = if v == 0 then 48 ∷ [] else digits_from buf_size upper base v []

unfoldable pub klog_putint : ℤ → List ℕ
klog_putint (pos n) = klog_putuint n 10 false
klog_putint (negsuc n) = 45 ∷ klog_putuint (n + 1) 10 false

abbrev pub cr : ℕ
cr = 13

abbrev pub lf : ℕ
lf = 10

-- A character, with a carriage return before a line feed.
abbrev pub put_text : ℕ → List ℕ
put_text c = if c == lf then cr ∷ c ∷ [] else c ∷ []

unfoldable pub klog_puts : List ℕ → List ℕ
klog_puts [] = []
klog_puts (c ∷ cs) = put_text c ++ klog_puts cs

-- An argument of `klog`, as the conversion that reads it takes it.
pub data KlogArg : Type 0 where
  text : List ℕ → KlogArg
  signed : ℤ → KlogArg
  unsigned : ℕ → KlogArg

abbrev pub as_text : KlogArg → List ℕ
as_text (text s) = s
as_text _ = []

abbrev pub as_signed : KlogArg → ℤ
as_signed (signed n) = n
as_signed _ = pos 0

abbrev pub as_unsigned : KlogArg → ℕ
as_unsigned (unsigned n) = n
as_unsigned _ = 0

-- What the conversions without `l` write, and whether they take an argument; `none` for others.
unfoldable pub plain_conversion : ℕ → KlogArg → Option (List ℕ × Bool)
plain_conversion c a =
    if c == 115
    then some (klog_puts (as_text a), true)
    else if c == 100
    then some (klog_putint (as_signed a), true)
    else if c == 117
    then some (klog_putuint (as_unsigned a) 10 false, true)
    else if c == 120 || (c == 112)
    then some (klog_putuint (as_unsigned a) 16 false, true)
    else if c == 88
    then some (klog_putuint (as_unsigned a) 16 true, true)
    else if c == 99
    then some (as_unsigned a ∷ [], true)
    else if c == 37
    then some (37 ∷ [], false)
    else none

-- The conversions after `l`.
unfoldable pub long_conversion : ℕ → KlogArg → Option (List ℕ)
long_conversion c a =
    if c == 100
    then some (klog_putint (as_signed a))
    else if c == 117
    then some (klog_putuint (as_unsigned a) 10 false)
    else if c == 120
    then some (klog_putuint (as_unsigned a) 16 false)
    else if c == 88
    then some (klog_putuint (as_unsigned a) 16 true)
    else none

abbrev pub first_arg : List KlogArg → KlogArg
first_arg [] = unsigned 0
first_arg (a ∷ args) = a

-- The loop of `klog` over the format. For a format that ends within a conversion it has what the code
-- writes before it runs past the end, and a missing argument is 0.
unfoldable pub klog : List ℕ → List KlogArg → List ℕ
unfolding plain_conversion long_conversion
klog [] args = []
klog (c ∷ []) args = if c == 37 then 37 ∷ 0 ∷ [] else put_text c
klog (c ∷ d ∷ []) args =
    let arg = first_arg args in
    if c == 37
    then elim (plain_conversion d arg) [
      | some (out, b) ↦ out
      | none ↦ if d == 108 then 37 ∷ 108 ∷ 0 ∷ [] else 37 ∷ d ∷ []
    ]
    else put_text c ++ klog (d ∷ []) args
klog (c ∷ d ∷ e ∷ fmt) args =
    let arg = first_arg args in
    let others = drop 1 args in
    let after_d = klog (e ∷ fmt) args in
    let after_d_arg = klog (e ∷ fmt) others in
    let after_e = klog fmt args in
    let after_e_arg = klog fmt others in
    let after_c = klog (d ∷ e ∷ fmt) args in
    if not (c == 37)
    then put_text c ++ after_c
    else if d == 108
    then elim (long_conversion e arg) [
      | some out ↦ out ++ after_e_arg
      | none ↦ 37 ∷ 108 ∷ e ∷ after_e
    ]
    else elim (plain_conversion d arg) [
      | some (out, true) ↦ out ++ after_d_arg
      | some (out, false) ↦ out ++ after_d
      | none ↦ 37 ∷ d ∷ after_d
    ]
