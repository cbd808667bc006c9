-- ===== src/Libc.antt =====
-- libc/string.c over a byte memory. Pointers are addresses, and buffers do not wrap round the
-- address space.
pub mod Copy
pub mod Text
mod Tests
use sol_os.Base.{ℕ, zero, suc, ◌+◌, ◌%◌, ◌||◌, Option, none, some, ltb, ◌==◌, if◌then◌else◌}
use sol_os.Base.Int.{ℤ, sub_ℕ, pos}

-- The byte at each address.
abbrev pub Memory : Type 0
Memory = ℕ → ℕ

-- *a = v
abbrev pub store : Memory → ℕ → ℕ → Memory
store m a v b = if a == b then v else m b

-- for (i = i; i < i + n; i++) d[i] = s[i]
unfoldable pub copy_up : ℕ → ℕ → Memory → ℕ → ℕ → Memory
copy_up zero i m d s = m
copy_up (suc n) i m d s = copy_up n (i + 1) (store m (d + i) (m (s + i))) d s

unfoldable pub memcpy : Memory → ℕ → ℕ → ℕ → Memory
unfolding copy_up
memcpy m dest src n = copy_up n 0 m dest src

-- for (i = n; i > 0; i--) d[i - 1] = s[i - 1]
unfoldable pub copy_down : ℕ → Memory → ℕ → ℕ → Memory
copy_down zero m d s = m
copy_down (suc i) m d s = copy_down i (store m (d + i) (m (s + i))) d s

unfoldable pub memmove : Memory → ℕ → ℕ → ℕ → Memory
unfolding copy_up copy_down
memmove m dest src n =
    if dest == src || n == 0
    then m
    else if ltb dest src
    then copy_up n 0 m dest src
    else copy_down n m dest src

-- d[i] = (uint8_t)c
fill_from : ℕ → ℕ → Memory → ℕ → ℕ → Memory
fill_from zero i m d c = m
fill_from (suc n) i m d c = fill_from n (i + 1) (store m (d + i) (c % 256)) d c

unfoldable pub memset : Memory → ℕ → ℕ → ℕ → Memory
unfolding fill_from
memset m dest c n = fill_from n 0 m dest c

-- `while (s[len]) len++`, with fuel; `none` means that the fuel ran out.
unfoldable pub strlen_from : ℕ → Memory → ℕ → ℕ → Option ℕ
strlen_from zero m s len = none
strlen_from (suc f) m s len =
    let rest = strlen_from f m s (len + 1) in if m (s + len) == 0 then some len else rest

unfoldable pub strlen : ℕ → Memory → ℕ → Option ℕ
unfolding strlen_from
strlen fuel m s = strlen_from fuel m s 0

compare_from : ℕ → ℕ → Memory → ℕ → ℕ → ℤ
compare_from zero i m a b = pos 0
compare_from (suc n) i m a b =
    let rest = compare_from n (i + 1) m a b in
    if m (a + i) == m (b + i) then rest else sub_ℕ (m (a + i)) (m (b + i))

unfoldable pub memcmp : Memory → ℕ → ℕ → ℕ → ℤ
unfolding compare_from
memcmp m a b n = compare_from n 0 m a b

-- `while (*a && (*a == *b)) { a++; b++; }`, with fuel.
unfoldable pub strcmp : ℕ → Memory → ℕ → ℕ → Option ℤ
strcmp zero m a b = none
strcmp (suc f) m a b =
    let rest = strcmp f m (a + 1) (b + 1) in
    if m a == 0
    then some (sub_ℕ (m a) (m b))
    else if m a == m b
    then rest
    else some (sub_ℕ (m a) (m b))

-- `while ((*dest++ = *src++)) { }`, with fuel.
unfoldable pub strcpy : ℕ → Memory → ℕ → ℕ → Option Memory
strcpy zero m dest src = none
strcpy (suc f) m dest src =
    let m' : Memory = store m dest (m src) in
    let rest = strcpy f m' (dest + 1) (src + 1) in if m src == 0 then some m' else rest
