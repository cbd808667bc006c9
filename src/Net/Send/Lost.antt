-- ===== src/Net/Send/Lost.antt =====
-- kernel/netstack.c, ns_tls_send: the largest payloads are not sent.
use sol_os.Base.{
  ℕ, ◌+◌, ◌%◌, ◌^◌, ◌<◌, min, ◌≡◌, refl, ap, ◌∙◌, inl, inr, true, ◌&&◌, Option, List, arith, ltb,
  lt→ltb, Bool-cases, if_true, if_false, length, take, length-take,
}
use sol_os.Net.Bytes.{w16, w32}
use sol_os.Net.World.{World, Conn, estab, is_estab}
use sol_os.Net.Send.{
  segment, tcp_front, checked_segment, ip_send, ns_emit, ns_tls_send, max_payload,
}

length-segment :
    (c : Conn) (flags seq ack : ℕ) (pay : List ℕ)
    → length (checked_segment c flags seq ack pay) ≡ 20 + length pay
unfolding checked_segment segment tcp_front w16 w32
length-segment c flags seq ack pay = omega arith

ip_send-large :
    (w : World) (proto : ℕ) (dst : List ℕ) (mac : Option (List ℕ)) (pay : List ℕ)
    → max_payload < length pay
    → ip_send w proto dst mac pay ≡ w
unfolding ip_send
ip_send-large w proto dst mac pay h = if_true _ _ (lt→ltb _ _ h)

ns_emit-large :
    (w : World) (flags seq ack : ℕ) (pay : List ℕ)
    → 1480 < length pay
    → ns_emit w flags seq ack pay ≡ w
unfolding ns_emit
ns_emit-large w flags seq ack pay h = elim (Bool-cases (ltb max_payload (length pay))) [
  | inl t ↦ if_true _ _ t
  | inr t ↦
      if_false _ _ t
      ∙ ip_send-large w 6 _ _ _ (omega (arith, length-segment w.conn flags seq ack pay))
]

-- On an open connection, ns_tls_send of more than 1480 bytes sends no frame, yet moves the next
-- sequence number over the bytes, at most 1500, that it takes for sent.
pub ns_tls_send_lost :
    (w : World) (bytes : List ℕ)
    → w.conn.active ≡ true
    → w.conn.tcp_state ≡ estab
    → 1480 < length bytes
    → ((ns_tls_send w bytes).sent ≡ w.sent)
      × ((ns_tls_send w bytes).conn.snd_nxt
          ≡ (w.conn.snd_nxt + min max_payload (length bytes)) % 2 ^ 32)
unfolding ns_tls_send
ns_tls_send_lost w bytes a e h =
    let big =
      ns_emit-large w 24 w.conn.snd_nxt w.conn.rcv_nxt (take max_payload bytes)
        (omega (arith, length-take max_payload bytes)) in
    let open_now : (w.conn.active && is_estab w.conn.tcp_state) ≡ true = rw (a, e) refl in
    let t = if_true _ w open_now in
    (
      ap (λ (v : World). v.sent) t ∙ ap (λ (v : World). v.sent) big,
      ap (λ (v : World). v.conn.snd_nxt) t
          ∙ ap (λ n. (w.conn.snd_nxt + n) % 2 ^ 32) (length-take max_payload bytes),
    )
