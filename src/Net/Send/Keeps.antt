-- ===== src/Net/Send/Keeps.antt =====
-- kernel/netstack.c: sending changes neither the connection nor the buffer.
use sol_os.Base.{ℕ, ◌≡◌, refl, inl, inr, Option, none, some, List, arith, ltb, Bool-cases, length}
use sol_os.Net.World.{World}
use sol_os.Net.Send.{net_send, ip_send, ns_emit, udp_send}

-- The parts of the state that a frame does not touch.
abbrev pub Kept : World → World → Type 0
Kept w v =
    (v.conn ≡ w.conn)
    × (v.body ≡ w.body)
    × (v.calls ≡ w.calls)
    × (v.arp ≡ w.arp)
    × (v.ticks ≡ w.ticks)

ip_send-Kept :
    (w : World) (proto : ℕ) (dst : List ℕ) (mac : Option (List ℕ)) (pay : List ℕ)
    → Kept w (ip_send w proto dst mac pay)
unfolding ip_send net_send
ip_send-Kept w proto dst none pay = ground arith
ip_send-Kept w proto dst (some m) pay = ground arith

pub ns_emit-Kept :
    (w : World) (flags seq ack : ℕ) (pay : List ℕ) → Kept w (ns_emit w flags seq ack pay)
unfolding ns_emit
ns_emit-Kept w flags seq ack pay = elim (Bool-cases (ltb 1500 (length pay))) [
  | inl t ↦ rw (t, ns_emit) (refl, refl, refl, refl, refl)
  | inr t ↦ rw (t, ns_emit) (ip_send-Kept w _ _ _ _)
]

pub udp_send-Kept :
    (w : World) (sport dport : ℕ) (dst : List ℕ) (mac : Option (List ℕ)) (pay : List ℕ)
    → Kept w (udp_send w sport dport dst mac pay)
unfolding udp_send
udp_send-Kept w sport dport dst mac pay = elim (Bool-cases (ltb 1500 (length pay))) [
  | inl t ↦ rw (t, udp_send) (refl, refl, refl, refl, refl)
  | inr t ↦ rw (t, udp_send) (ip_send-Kept w _ _ _ _)
]
