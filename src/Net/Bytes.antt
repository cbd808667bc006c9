-- ===== src/Net/Bytes.antt =====
-- kernel/netstack.c: bytes in network order and the Internet checksum.
pub mod Checksum
use sol_os.Base.{
  ℕ, zero, suc, ◌+◌, ◌-◌, ◌*◌, ◌/◌, ◌%◌, ◌^◌, List, [], ◌∷◌, ◌++◌, ◌==◌, if◌then◌else◌, get_or,
}

-- Memory from a pointer on.
abbrev pub Bytes : Type 0
Bytes = ℕ → ℕ

abbrev pub from : Bytes → ℕ → Bytes
from p off i = p (off + i)

unfoldable pub b16 : Bytes → ℕ
b16 p = p 0 * 256 + p 1

unfoldable pub b32 : Bytes → ℕ
unfolding b16
b32 p = b16 p * 65536 + b16 (from p 2)

-- The bytes that `w16` and `w32` store, from the pointer on.
unfoldable pub w16 : ℕ → List ℕ
w16 v = v / 256 % 256 ∷ v % 256 ∷ []

unfoldable pub w32 : ℕ → List ℕ
unfolding w16
w32 v = w16 (v / 65536 % 65536) ++ w16 (v % 65536)

abbrev pub ip4 : List ℕ → ℕ
ip4 p = get_or p 0 0 * 16777216 + get_or p 1 0 * 65536 + get_or p 2 0 * 256 + get_or p 3 0

-- The sum of the 16-bit words, on `uint32_t`; an odd last byte is the high half of a word.
unfoldable pub sum16 : List ℕ → ℕ → ℕ
sum16 [] sum = sum
sum16 (a ∷ []) sum = (sum + a * 256) % 2 ^ 32
sum16 (a ∷ b ∷ xs) sum = sum16 xs ((sum + (a * 256 + b)) % 2 ^ 32)

-- `while (sum >> 16) sum = (uint16_t)sum + (uint16_t)(sum >> 16)`, at most `n` times.
unfoldable pub fold_carries : ℕ → ℕ → ℕ
fold_carries zero sum = sum
fold_carries (suc n) sum =
    let rest = fold_carries n (sum % 65536 + sum / 65536 % 65536) in
    if sum / 65536 == 0 then sum else rest

-- Two rounds are enough for 32 bits.
abbrev pub fold_fuel : ℕ
fold_fuel = 2

unfoldable pub csum : List ℕ → ℕ → ℕ
unfolding sum16 fold_carries
csum xs extra = 65535 - fold_carries fold_fuel (sum16 xs extra) % 65536

-- The folded sum of the pseudo header.
unfoldable pub pseudo : List ℕ → List ℕ → ℕ → ℕ → ℕ
unfolding sum16 fold_carries
pseudo src dst proto tlen =
    fold_carries fold_fuel ((sum16 dst (sum16 src 0) + proto + tlen) % 2 ^ 32) % 65536
