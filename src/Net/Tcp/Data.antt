-- ===== src/Net/Tcp/Data.antt =====
-- kernel/netstack.c: the data of one segment of a plain transfer.
use sol_os.Base.{
  ℕ, ◌+◌, ◌^◌, ◌≤◌, ◌<◌, ◌≡◌, refl, ap, ◌∙◌, inl, inr, true, false, none, some, List, [], arith,
  ◌==◌, Bool-cases, if_true, if_false, ltb-same, length,
}
use sol_os.Net.World.{World}
use sol_os.Net.Send.{ns_emit}
use sol_os.Net.Http.{scan_header}
use sol_os.Net.Tcp.{TlsOps, is_tls, plain_with, tcp_data, data_plain, store_body}
use sol_os.Net.Tcp.Stream.{
  Stream, Receives, accept, extend, Alike-Receives, ns_emit-Alike, scan_header-Alike, taken-all,
  store_body-Receives,
}

plain_with-all :
    (w : World) (xs : List ℕ)
    → plain_with w xs (length xs) ≡ (scan_header (store_body w xs), some (length xs))
unfolding plain_with
plain_with-all w xs = if_false _ _ (ltb-same (length xs))

data_plain_fits :
    (w : World) (dp : List ℕ)
    → w.conn.cap < 2 ^ 64
    → w.conn.got + length dp ≤ w.conn.cap
    → data_plain w dp ≡ (scan_header (store_body w dp), some (length dp))
unfolding data_plain
data_plain_fits w dp h l =
    ap (λ xs. plain_with w xs (length dp)) (taken-all w.conn dp h l) ∙ plain_with-all w dp

abbrev pub reply : World → World
reply w = ns_emit w 16 w.conn.snd_nxt w.conn.rcv_nxt []

tcp_data-none :
    (ops : TlsOps) (w : World) (seq : ℕ) (dp : List ℕ)
    → (length dp == 0) ≡ true
    → tcp_data ops w seq dp ≡ (w, some 0)
unfolding tcp_data
tcp_data-none ops w seq dp e = if_true _ _ e

tcp_data-next :
    (ops : TlsOps) (w : World) (seq : ℕ) (dp : List ℕ)
    → (length dp == 0) ≡ false
    → (seq == w.conn.rcv_nxt) ≡ true
    → is_tls w.conn.phase ≡ false
    → tcp_data ops w seq dp ≡ data_plain w dp
unfolding tcp_data
tcp_data-next ops w seq dp e f g = if_false _ _ e ∙ if_true _ _ f ∙ if_false _ _ g

tcp_data-other :
    (ops : TlsOps) (w : World) (seq : ℕ) (dp : List ℕ)
    → (length dp == 0) ≡ false
    → (seq == w.conn.rcv_nxt) ≡ false
    → tcp_data ops w seq dp ≡ (reply w, none)
unfolding tcp_data
tcp_data-other ops w seq dp e f = if_false _ _ e ∙ if_false _ _ f

accept-next :
    (s : Stream) (seq : ℕ) (dp : List ℕ)
    → (length dp == 0) ≡ false
    → (seq == s.next) ≡ true
    → accept s seq dp ≡ extend s dp
unfolding accept
accept-next s seq dp e f = if_false _ _ e ∙ if_true _ _ f

accept-other :
    (s : Stream) (seq : ℕ) (dp : List ℕ)
    → (length dp == 0) ≡ false
    → (seq == s.next) ≡ false
    → accept s seq dp ≡ s
unfolding accept
accept-other s seq dp e f = if_false _ _ e ∙ if_false _ _ f

accept-none : (s : Stream) (seq : ℕ) (dp : List ℕ) → (length dp == 0) ≡ true → accept s seq dp ≡ s
unfolding accept
accept-none s seq dp e = if_true _ _ e

-- The state agrees with the receiver, and the buffer has kept its size.
abbrev pub Took : World → World → Stream → Type 0
Took w v s = Receives v s × (v.conn.cap ≡ w.conn.cap)

store_body-Took :
    (w : World) (s : Stream) (dp : List ℕ)
    → Receives w s
    → Took w (scan_header (store_body w dp)) (extend s dp)
unfolding store_body
store_body-Took w s dp r =
    let a = scan_header-Alike (store_body w dp) in
    (Alike-Receives (store_body w dp) _ _ a (store_body-Receives w s dp r), a.4)

pub reply-Took : (w : World) (s : Stream) → Receives w s → Took w (reply w) s
reply-Took w s r =
    let a = ns_emit-Alike w 16 w.conn.snd_nxt w.conn.rcv_nxt [] in (Alike-Receives w _ s a r, a.4)

pub tcp_data-Took :
    (ops : TlsOps) (w : World) (s : Stream) (seq : ℕ) (dp : List ℕ)
    → Receives w s
    → w.conn.cap < 2 ^ 64
    → length s.bytes + length dp ≤ w.conn.cap
    → Took w (tcp_data ops w seq dp).0 (accept s seq dp)
tcp_data-Took ops w s seq dp r h l = elim (Bool-cases (length dp == 0)) [
  | inl e ↦ rw (tcp_data-none ops w seq dp e, accept-none s seq dp e) (r, refl)
  | inr e ↦ elim (Bool-cases (seq == s.next)) [
    | inl f ↦
        let g : (seq == w.conn.rcv_nxt) ≡ true = ap (λ n. seq == n) r.expects ∙ f in
        rw
          (
            tcp_data-next ops w seq dp e g (ap is_tls r.plain),
            data_plain_fits w dp h (omega (arith, r.counted)),
            accept-next s seq dp e f,
          )
          (store_body-Took w s dp r)
    | inr f ↦
        let g : (seq == w.conn.rcv_nxt) ≡ false = ap (λ n. seq == n) r.expects ∙ f in
        rw (tcp_data-other ops w seq dp e g, accept-other s seq dp e f) (reply-Took w s r)
  ]
]
