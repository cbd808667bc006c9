-- ===== src/Net/Tcp/Stream.antt =====
-- kernel/netstack.c: the data of a plain transfer is the peer's byte stream.
use sol_os.Base.{
  ℕ, zero, suc, ◌+◌, ◌-◌, ◌%◌, ◌^◌, ◌≤◌, ◌<◌, ◌≡◌, refl, ap, ◌∙◌, List, [], ◌∷◌, ◌++◌, arith, ltb,
  ◌==◌, if◌then◌else◌, length, length-append, get_or, take,
}
use sol_os.Net.Bytes.{Bytes}
use sol_os.Net.World.{World, Conn, transfer, estab}
use sol_os.Net.Send.{ns_emit}
use sol_os.Net.Send.Keeps.{ns_emit-Kept}
use sol_os.Net.Http.{scan_header}
use sol_os.Net.Tcp.{room, taken, write_body, store_body}

-- A receiver of a byte stream: what it has, and the sequence number that it waits for.
pub record Stream : Type 0 where
  pub bytes : List ℕ
  pub next : ℕ

unfoldable pub accept : Stream → ℕ → List ℕ → Stream
accept s seq dp =
    if length dp == 0
    then s
    else if seq == s.next
    then record { bytes = s.bytes ++ dp; next = (s.next + length dp) % 2 ^ 32 }
    else s

-- The connection is open and transfers in plain, and its buffer holds what the receiver has.
pub record Receives (w : World) (s : Stream) : Type 0 where
  pub plain : w.conn.phase ≡ transfer
  pub is_open : w.conn.tcp_state ≡ estab
  pub counted : w.conn.got ≡ length s.bytes
  pub stored : (i : ℕ) → i < length s.bytes → w.body i ≡ get_or s.bytes i 0
  pub expects : w.conn.rcv_nxt ≡ s.next

-- The parts of the state that `Receives` reads, and the size of the buffer.
abbrev pub Alike : World → World → Type 0
Alike w v =
    (v.conn.phase ≡ w.conn.phase)
    × (v.conn.got ≡ w.conn.got)
    × (v.body ≡ w.body)
    × (v.conn.rcv_nxt ≡ w.conn.rcv_nxt)
    × (v.conn.cap ≡ w.conn.cap)
    × (v.conn.tcp_state ≡ w.conn.tcp_state)

pub Alike-Receives : (w v : World) (s : Stream) → Alike w v → Receives w s → Receives v s
Alike-Receives w v s (a, b, c, d, e, o) r = record {
  is_open = o ∙ r.is_open;
  plain = a ∙ r.plain;
  counted = b ∙ r.counted;
  stored = λ i h. ap (λ (f : Bytes). f i) c ∙ r.stored i h;
  expects = d ∙ r.expects;
}

pub ns_emit-Alike :
    (w : World) (flags seq ack : ℕ) (pay : List ℕ) → Alike w (ns_emit w flags seq ack pay)
ns_emit-Alike w flags seq ack pay =
    let k = ns_emit-Kept w flags seq ack pay in
    (
      ap (λ (c : Conn). c.phase) k.0,
      ap (λ (c : Conn). c.got) k.0,
      k.1,
      ap (λ (c : Conn). c.rcv_nxt) k.0,
      ap (λ (c : Conn). c.cap) k.0,
      ap (λ (c : Conn). c.tcp_state) k.0,
    )

pub scan_header-Alike : (w : World) → Alike w (scan_header w)
unfolding scan_header
scan_header-Alike w = ground arith

get_or-append :
    (xs ys : List ℕ) (i : ℕ)
    → get_or (xs ++ ys) i 0
      ≡ (if ltb i (length xs) then get_or xs i 0 else get_or ys (i - length xs) 0)
get_or-append [] ys i = ground arith
get_or-append (x ∷ xs) ys zero = ground arith
get_or-append (x ∷ xs) ys (suc i) = ground (arith, get_or-append xs ys i)

take-all : (n : ℕ) (xs : List ℕ) → length xs ≤ n → take n xs ≡ xs
take-all zero [] h = refl
take-all zero (x ∷ xs) h = absurd (omega arith)
take-all (suc n) [] h = refl
take-all (suc n) (x ∷ xs) h = ap (λ t. x ∷ t) (take-all n xs (omega arith))

pub taken-all :
    (c : Conn) (dp : List ℕ) → c.cap < 2 ^ 64 → c.got + length dp ≤ c.cap → taken c dp ≡ dp
taken-all c dp h l = take-all (room c) dp (omega arith)

write_body-append :
    (b : Bytes) (xs ys : List ℕ) (i : ℕ)
    → (i < length xs → b i ≡ get_or xs i 0)
    → i < length xs + length ys
    → write_body b (length xs) ys i ≡ get_or (xs ++ ys) i 0
unfolding write_body
write_body-append b xs ys i h l = ground (arith, get_or-append xs ys i)

-- What the receiver has after `xs`.
abbrev pub extend : Stream → List ℕ → Stream
extend s xs = record { bytes = s.bytes ++ xs; next = (s.next + length xs) % 2 ^ 32 }

pub store_body-Receives :
    (w : World) (s : Stream) (xs : List ℕ) → Receives w s → Receives (store_body w xs) (extend s xs)
unfolding store_body
store_body-Receives w s xs r = record {
  is_open = r.is_open;
  plain = r.plain;
  counted = omega (arith, r.counted, length-append s.bytes xs);
  stored = λ i g. rw (r.counted) (
      write_body-append w.body s.bytes xs i (r.stored i) (omega (arith, length-append s.bytes xs)));
  expects = rw (r.expects) refl;
}
