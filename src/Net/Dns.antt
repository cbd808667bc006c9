-- ===== src/Net/Dns.antt =====
-- kernel/netstack.c: DNS queries and answers.
pub mod Skip
pub mod Names
use sol_os.Base.{
  ℕ, zero, suc, ◌+◌, ◌%◌, Bool, true, false, ◌&&◌, ◌||◌, not, Option, none, some, List, [], ◌∷◌,
  ◌++◌, ltb, leb, ◌==◌, if◌then◌else◌, length, take, drop, bit,
}
use sol_os.Net.Bytes.{Bytes, from, b16, w16, ip4}
use sol_os.Net.Arp.{arp_lookup}
use sol_os.Net.World.{World, ns_finish, connect, err_dns}
use sol_os.Net.Send.{udp_send, with_conn, dns_ip}

-- The number of characters before a dot, the end, or the limit.
unfoldable pub label_len : ℕ → List ℕ → ℕ
label_len zero cs = 0
label_len (suc n) [] = 0
label_len (suc n) (c ∷ cs) = if c == 46 then 0 else 1 + label_len n cs

abbrev pub starts_with_dot : List ℕ → Bool
starts_with_dot [] = false
starts_with_dot (c ∷ cs) = c == 46

abbrev pub is_empty : List ℕ → Bool
is_empty [] = true
is_empty _ = false

-- One round of the loop, on a label of `part` characters: `rest` is what follows it, `more` what the
-- later rounds write.
unfoldable pub one_label : ℕ → ℕ → List ℕ → ℕ → List ℕ → List ℕ → List ℕ
one_label cap off name part rest more =
    if is_empty name || leb cap off
    then []
    else if ltb 63 part || leb cap (off + part + 1)
    then []
    else part ∷ (take part name ++ (if starts_with_dot rest then more else []))

-- The labels that `dns_build_name` writes from `off` on, in at most `n` rounds of its loop.
unfoldable pub dns_labels : ℕ → ℕ → ℕ → List ℕ → List ℕ
unfolding label_len one_label
dns_labels zero cap off name = []
dns_labels (suc n) cap off name =
    let part = label_len 64 name in
    let rest = drop part name in
    one_label cap off name part rest (dns_labels n cap (off + part + 1) (drop 1 rest))

-- What `dns_build_name` writes, the final 0 included. Each round takes a character or ends.
unfoldable pub dns_build_name : ℕ → List ℕ → List ℕ
unfolding dns_labels
dns_build_name cap name =
    let labels = dns_labels (length name) cap 0 name in
    labels ++ (if ltb (length labels) cap then 0 ∷ [] else [])

-- `strlen` of the bytes, which end with 0.
unfoldable pub name_len : List ℕ → ℕ
name_len [] = 0
name_len (c ∷ cs) = if c == 0 then 0 else 1 + name_len cs

-- The query that `dns_send_query` builds in 512 bytes of 0.
unfoldable pub dns_query : ℕ → List ℕ → List ℕ
unfolding dns_build_name name_len
dns_query id host =
    let name = dns_build_name 500 host in
    w16 id
    ++ (w16 0x0100
        ++ (w16 1 ++ (0 ∷ 0 ∷ 0 ∷ 0 ∷ 0 ∷ 0 ∷ (take (name_len name + 1) name ++ (w16 1 ++ w16 1)))))

unfoldable pub dns_send_query : World → World
dns_send_query w =
    let c = w.conn in
    let sent =
      udp_send w c.dns_sport 53 dns_ip (arp_lookup w.arp (ip4 dns_ip))
        (dns_query c.dns_id c.host) in
    with_conn sent (record sent.conn { last_send = w.ticks })

-- The recursion of `dns_skip_name`, at most `fuel` deep: each call moves on by two bytes or more and
-- stays below `n`.
unfoldable pub dns_skip_name : ℕ → Bytes → ℕ → ℕ → ℕ
dns_skip_name zero p n off = 0
dns_skip_name (suc fuel) p n off =
    let rest = dns_skip_name fuel p n (off + 1 + p off) in
    if p off == 0
    then off + 1
    else if leb 192 (p off)
    then off + 2
    else if leb 64 (p off)
    then 0
    else if leb n (off + 1 + p off)
    then 0
    else rest

-- The offset after `count` questions, unless the message is cut short.
unfoldable pub skip_questions : ℕ → Bytes → ℕ → ℕ → Option ℕ
unfolding dns_skip_name
skip_questions zero q n off = some off
skip_questions (suc count) q n off =
    let next = dns_skip_name (n + 1) q n off in
    let rest = skip_questions count q n (next + 4) in
    if next == 0 then none else if leb n (next + 4) then none else rest

-- How the loop over the answers ends.
pub data Answer : Type 0 where
  found : ℕ → Answer
  malformed : Answer
  exhausted : Answer

-- `found` has the offset of the record that matched, after its name.
unfoldable pub scan_answers : ℕ → Bytes → ℕ → ℕ → Answer
unfolding dns_skip_name
scan_answers zero q n off = exhausted
scan_answers (suc count) q n off =
    let at = dns_skip_name (n + 1) q n off in
    let rd = b16 (from q (at + 8)) in
    let rest = scan_answers count q n (at + 10 + rd) in
    if at == 0 || ltb n (at + 10)
    then malformed
    else if b16 (from q at) == 1 && (b16 (from q (at + 2)) == 1) && (rd == 4) && leb (at + 14) n
    then found at
    else if ltb n (at + 10 + rd)
    then malformed
    else rest

unfoldable pub dns_answer : World → Bytes → Answer → World
dns_answer w q (found at) = with_conn w (record w.conn {
  dst_ip = q (at + 10) ∷ q (at + 11) ∷ q (at + 12) ∷ q (at + 13) ∷ [];
  phase = connect;
})
dns_answer w q malformed = w
dns_answer w q exhausted = ns_finish w err_dns

unfoldable pub dns_records : World → Bytes → ℕ → World
unfolding skip_questions scan_answers dns_answer
dns_records w q n = elim (skip_questions (b16 (from q 4)) q n 12) [
  | none ↦ w
  | some off ↦ dns_answer w q (scan_answers (b16 (from q 6)) q n off)
]

unfoldable pub dns_handle : World → Bytes → ℕ → World
unfolding dns_records
dns_handle w q n =
    let flags = b16 (from q 2) in
    if ltb n 12 || not (b16 q == w.conn.dns_id) || not (bit flags 15 == 1)
    then w
    else if not (flags % 16 == 0)
    then ns_finish w err_dns
    else dns_records w q n
