-- ===== src/Net/Send/Verifies.antt =====
-- kernel/netstack.c: what is sent carries checksums that the receiver accepts.
use sol_os.Base.{
  ℕ, ◌+◌, ◌/◌, ◌%◌, ◌^◌, ◌≤◌, ◌<◌, ◌≡◌, refl, ap, ◌∙◌, List, [], ◌∷◌, ◌++◌, arith, length,
  length-append, All,
}
use sol_os.Net.Bytes.{w16, w32, sum16, csum, pseudo}
use sol_os.Net.Bytes.Checksum.{
  IsByte, total16, csum_verifies, csum-Accepted, Accepted, total16-lt, total16-append,
  fold_carries_lem, sum16-total16,
}
use sol_os.Net.World.{Conn}
use sol_os.Net.Send.{
  ip_front, ip_header, tcp_front, segment, checked_segment, my_ip, tcp_hlen, max_payload,
}

All-w16 : (v : ℕ) (ys : List ℕ) → All IsByte ys → All IsByte (w16 v ++ ys)
unfolding w16
All-w16 v ys h = (omega arith, (omega arith, h))

All-word : (v : ℕ) → All IsByte (w16 v)
unfolding w16
All-word v = (omega arith, (omega arith, tt))

All-w32 : (v : ℕ) (ys : List ℕ) → All IsByte ys → All IsByte (w32 v ++ ys)
unfolding w32 w16
All-w32 v ys h = (omega arith, (omega arith, (omega arith, (omega arith, h))))

ip_front-All : (proto id plen : ℕ) → proto < 256 → All IsByte (ip_front proto id plen)
unfolding ip_front
ip_front-All proto id plen h =
    (omega arith, (omega arith, All-w16 _ _ (All-w16 id _ (All-w16 0 _ (omega arith, (h, tt))))))

-- The IP header that ip_send builds, with the checksum that it computes, sums to 0 for the receiver:
-- for every protocol and identification, and every address of four bytes.
pub ip_header_verifies :
    (proto id plen : ℕ) (dst : List ℕ)
    → proto < 256
    → All IsByte dst
    → length dst ≡ 4
    → csum (ip_header proto id plen dst (csum (ip_header proto id plen dst 0) 0)) 0 ≡ 0
unfolding ip_header ip_front w16 total16
ip_header_verifies proto id plen dst hp hd hl =
    csum_verifies 5 0 (ip_front proto id plen) (my_ip ++ dst) refl (ip_front-All proto id plen hp)
      (omega arith, (omega arith, (omega arith, (omega arith, hd)))) (omega arith) (omega arith)
      (omega arith)

tcp_front-All :
    (c : Conn) (flags seq ack : ℕ) → flags < 256 → All IsByte (tcp_front c flags seq ack)
unfolding tcp_front
tcp_front-All c flags seq ack h =
    All-w16 c.sport _
      (All-w16 _ _ (All-w32 seq _ (All-w32 ack _ (omega arith, (h, All-word 65535)))))

-- The 12 bytes that RFC 793 puts in front of a segment of `len` bytes: the addresses, a zero, the
-- protocol 6 and the length.
abbrev pub pseudo_header : List ℕ → ℕ → List ℕ
pseudo_header dst len = my_ip ++ (dst ++ (0 ∷ 6 ∷ len / 256 ∷ len % 256 ∷ []))

total16-pseudo_header :
    (dst : List ℕ) (len : ℕ)
    → length dst ≡ 4
    → total16 (pseudo_header dst len) ≡ total16 my_ip + total16 dst + 6 + len
unfolding total16
total16-pseudo_header dst len h =
    omega (arith, total16-append 2 dst (0 ∷ 6 ∷ len / 256 ∷ len % 256 ∷ []) h)

-- The folded sum that the code starts from is that of the header, up to carries.
pseudo_lem :
    (dst : List ℕ) (len : ℕ)
    → All IsByte dst
    → length dst ≡ 4
    → len < 65536
    → (pseudo my_ip dst 6 len < 65536)
      × (pseudo my_ip dst 6 len % 65535 ≡ total16 (pseudo_header dst len) % 65535)
unfolding pseudo total16
pseudo_lem dst len hd hl small =
    let low = total16-lt dst hd in
    let whole = total16-pseudo_header dst len hl in
    let mine : sum16 my_ip 0 ≡ total16 my_ip = sum16-total16 my_ip 0 (omega arith) in
    let both : sum16 dst (total16 my_ip) ≡ total16 dst + total16 my_ip =
      sum16-total16 dst (total16 my_ip) (omega arith) in
    let sum : (sum16 dst (sum16 my_ip 0) + 6 + len) % 2 ^ 32 ≡ total16 (pseudo_header dst len) =
      ap (λ t. (sum16 dst t + 6 + len) % 2 ^ 32) mine ∙ omega arith in
    let f = fold_carries_lem (total16 (pseudo_header dst len)) (omega arith) in
    rw sum (omega arith, omega arith)

-- A TCP segment that ns_emit builds is accepted by a receiver as RFC 793 and RFC 1071 describe it:
-- with the pseudo header of 12 bytes in front, its 16-bit words add up to -0 in the arithmetic that
-- carries around. The flags are a byte, the destination four bytes, and the payload at most 1500
-- bytes.
pub segment_verifies :
    (c : Conn) (flags seq ack : ℕ) (pay : List ℕ)
    → flags < 256
    → All IsByte c.dst_ip
    → length c.dst_ip ≡ 4
    → All IsByte pay
    → length pay ≤ max_payload
    → Accepted (pseudo_header c.dst_ip (20 + length pay) ++ checked_segment c flags seq ack pay)
unfolding checked_segment segment tcp_front w16 w32 total16
segment_verifies c flags seq ack pay hf hd h4 hp hl =
    let len : (tcp_hlen + length pay) % 65536 ≡ 20 + length pay = omega arith in
    let ps = pseudo_lem c.dst_ip (20 + length pay) hd h4 (omega arith) in
    let front = tcp_front c flags seq ack in
    let lows = total16-lt front (tcp_front-All c flags seq ack hf) in
    let highs = total16-lt (w16 0 ++ pay) (All-w16 0 pay hp) in
    rw len (
      csum-Accepted 6 8 (pseudo my_ip c.dst_ip 6 (20 + length pay))
        (pseudo_header c.dst_ip (20 + length pay)) front (w16 0 ++ pay)
        (omega (
          arith,
          length-append c.dst_ip (0 ∷ 6 ∷ (20 + length pay) / 256 ∷ (20 + length pay) % 256 ∷ []),
        ))
        refl (omega arith) ps.1 (omega arith))
