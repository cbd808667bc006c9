-- ===== src/Net/Tcp/Segments.antt =====
-- kernel/netstack.c: what tcp_handle does with the segments of a plain transfer.
use sol_os.Base.{
  subst, ℕ, ◌+◌, ◌-◌, ◌*◌, ◌/◌, ◌%◌, ◌^◌, ◌≤◌, ◌<◌, ◌≡◌, sym, ap, ◌∙◌, inl, inr, false, ◌||◌, not,
  Option, none, some, List, [], ◌∷◌, arith, ltb, ◌==◌, Bool-cases, if_true, if_false, length,
  length-append, bit, All,
}
use sol_os.Net.Bytes.{Bytes, from, b32}
use sol_os.Net.World.{World, TcpState, is_estab, is_syn_sent, estab}
use sol_os.Net.Send.{with_conn}
use sol_os.Net.Tcp.{TlsOps, tcp_open, after_data, tcp_handle, mark_acked, bytes_of}
use sol_os.Net.Tcp.Stream.{Stream, Receives, accept, Alike, Alike-Receives}
use sol_os.Net.Tcp.Data.{Took, reply-Took, tcp_data-Took}

after_data-Took :
    (ops : TlsOps) (w v : World) (s : Stream) (flags : ℕ) (o : Option ℕ)
    → (bit flags 0 == 1) ≡ false
    → Took w v s
    → Took w (after_data ops flags v o) s
unfolding after_data
after_data-Took ops w v s flags none e t = t
after_data-Took ops w v s flags (some adv) e t = elim (Bool-cases (adv == 0)) [
  | inl f ↦ subst (λ x. Took w x s) (sym (if_false _ _ e ∙ if_true _ _ f)) t
  | inr f ↦
      let a = reply-Took v s t.0 in
      subst (λ x. Took w x s) (sym (if_false _ _ e ∙ if_false _ _ f)) (a.0, a.1 ∙ t.1)
]

-- A received segment: where it starts, and its length.
abbrev pub Seg : Type 0
Seg = Bytes × ℕ

abbrev pub flags_of : Seg → ℕ
flags_of (p, n) = p 13 % 64

abbrev pub doff_of : Seg → ℕ
doff_of (p, n) = p 12 / 16 * 4

abbrev pub data_of : Seg → List ℕ
data_of (p, n) = bytes_of (n - p 12 / 16 * 4) (from p (p 12 / 16 * 4))

-- A whole segment, without RST and FIN.
abbrev pub IsData : Seg → Type 0
IsData (p, n) =
    ((ltb n 20 || ltb n (p 12 / 16 * 4)) ≡ false)
    × ((bit (p 13 % 64) 2 == 1) ≡ false)
    × ((bit (p 13 % 64) 0 == 1) ≡ false)

mark_acked-Alike : (w : World) (flags ack : ℕ) → Alike w (with_conn w (mark_acked w.conn flags ack))
unfolding mark_acked
mark_acked-Alike w flags ack = ground arith

tcp_handle-open :
    (ops : TlsOps) (w : World) (p : Bytes) (n : ℕ)
    → IsData (p, n)
    → w.conn.tcp_state ≡ estab
    → tcp_handle ops w p n
      ≡ tcp_open ops
          (with_conn w (mark_acked w.conn (p 13 % 64) (b32 (from p 8))))
          (p 13 % 64)
          (b32 (from p 4))
          (data_of (p, n))
unfolding tcp_handle
tcp_handle-open ops w p n d e =
    if_false _ _ d.0
    ∙ if_false _ _ (ap is_syn_sent e)
    ∙ if_false _ _ (ap (λ (t : TcpState). not (is_estab t)) e)
    ∙ if_false _ _ d.1

tcp_handle-Took :
    (ops : TlsOps) (w : World) (s : Stream) (p : Bytes) (n : ℕ)
    → IsData (p, n)
    → Receives w s
    → w.conn.cap < 2 ^ 64
    → length s.bytes + length (data_of (p, n)) ≤ w.conn.cap
    → Took w (tcp_handle ops w p n) (accept s (b32 (from p 4)) (data_of (p, n)))
unfolding tcp_open
tcp_handle-Took ops w s p n d r h l =
    let v = with_conn w (mark_acked w.conn (p 13 % 64) (b32 (from p 8))) in
    let a = mark_acked-Alike w (p 13 % 64) (b32 (from p 8)) in
    let t =
      tcp_data-Took ops v s (b32 (from p 4)) (data_of (p, n)) (Alike-Receives w v s a r)
        (omega (arith, a.4)) (omega (arith, a.4)) in
    let u = after_data-Took ops v _ _ (p 13 % 64) _ d.2 t in
    rw (tcp_handle-open ops w p n d r.is_open) (u.0, u.1 ∙ a.4)

unfoldable pub rx_segments : TlsOps → World → List Seg → World
rx_segments ops w [] = w
rx_segments ops w (g ∷ gs) = rx_segments ops (tcp_handle ops w g.0 g.1) gs

-- The same segments, for the receiver.
unfoldable pub accept_all : Stream → List Seg → Stream
accept_all s [] = s
accept_all s (g ∷ gs) = accept_all (accept s (b32 (from g.0 4)) (data_of g)) gs

unfoldable pub total_data : List Seg → ℕ
total_data [] = 0
total_data (g ∷ gs) = length (data_of g) + total_data gs

length-accept :
    (s : Stream) (seq : ℕ) (dp : List ℕ)
    → length (accept s seq dp).bytes ≤ length s.bytes + length dp
unfolding accept
length-accept s seq dp = ground (arith, length-append s.bytes dp)

-- Whatever segments without RST and FIN arrive, in whatever order and how often, when the buffer has
-- room for their data together: the connection stays open and its buffer and next sequence number
-- are those of a receiver that takes the data of exactly those segments it waits for.
pub rx_segments_refines :
    (ops : TlsOps) (w : World) (s : Stream) (gs : List Seg)
    → All IsData gs
    → Receives w s
    → w.conn.cap < 2 ^ 64
    → length s.bytes + total_data gs ≤ w.conn.cap
    → Receives (rx_segments ops w gs) (accept_all s gs)
unfolding rx_segments accept_all total_data
rx_segments_refines ops w s [] d r h l = r
rx_segments_refines ops w s ((p, n) ∷ gs) (d, ds) r h l =
    let t = tcp_handle-Took ops w s p n d r h (omega arith) in
    rx_segments_refines ops (tcp_handle ops w p n) _ gs ds t.0 (omega (arith, t.1))
      (omega (arith, t.1, length-accept s (b32 (from p 4)) (data_of (p, n))))
