-- ===== src/Net/Poll.antt =====
-- kernel/netstack.c: ns_poll.
pub mod Retries
use sol_os.Base.{
  ℕ, ◌+◌, ◌-◌, ◌%◌, ◌^◌, Bool, true, false, ◌&&◌, not, none, some, List, [], ◌∷◌, ltb, leb,
  if◌then◌else◌, length,
}
use sol_os.Net.Bytes.{Bytes, ip4}
use sol_os.Net.Arp.{arp_lookup}
use sol_os.Net.World.{
  World, dns, connect, tls, transfer, syn_sent, is_syn_sent, err_dns, err_conn, err_tls, ns_finish,
}
use sol_os.Net.Send.{ns_emit, arp_request, with_conn, dns_ip, gw_ip}
use sol_os.Net.Dns.{dns_send_query}
use sol_os.Net.Tcp.{TlsOps, ns_send_request}
use sol_os.Net.Api.{rx_frame}

-- `net_receive` until there is no frame left.
unfoldable pub rx_all : TlsOps → World → List (Bytes × ℕ) → World
rx_all ops w [] = w
rx_all ops w ((f, n) ∷ fs) = rx_all ops (rx_frame ops w f n) fs

-- `(int)(now - ns_conn.last_send) >= NS_RETRY`
unfoldable pub due : World → Bool
due w = let d = (w.ticks + 2 ^ 64 - w.conn.last_send) % 2 ^ 32 in ltb d (2 ^ 31) && leb 50 d

abbrev pub known : World → List ℕ → Bool
known w ip = elim (arp_lookup w.arp (ip4 ip)) [ none ↦ false | some m ↦ true ]

abbrev pub set_last_send : World → World
set_last_send w = with_conn w (record w.conn { last_send = w.ticks })

abbrev pub set_retries : World → ℕ → World
set_retries w n = with_conn w (record w.conn { retries = n })

unfoldable pub ask_arp : World → List ℕ → World
unfolding due
ask_arp w ip = if due w then set_last_send (arp_request w ip) else w

unfoldable pub poll_dns : World → World
unfolding due ask_arp
poll_dns w0 =
    let w = set_retries w0 0 in
    let asked = dns_send_query w in
    let again = set_retries w (w.conn.retries + 1) in
    if not w.conn.dns_sent
    then if known w dns_ip
      then with_conn asked (record asked.conn { dns_sent = true })
      else ask_arp w dns_ip
    else if due w
    then if ltb 8 again.conn.retries then ns_finish again err_dns else dns_send_query again
    else w

-- SYN, and the time of it
abbrev pub emit_syn : World → World
emit_syn w = set_last_send (ns_emit w 2 w.conn.isn 0 [])

unfoldable pub poll_connect : World → World
unfolding due ask_arp
poll_connect w0 =
    let w = set_retries w0 0 in
    let again = set_retries w (w.conn.retries + 1) in
    if not (known w gw_ip)
    then ask_arp w gw_ip
    else if not (is_syn_sent w.conn.tcp_state)
    then emit_syn (with_conn w (record w.conn { tcp_state = syn_sent }))
    else if due w
    then if ltb 24 again.conn.retries then ns_finish again err_conn else emit_syn again
    else w

unfoldable pub poll_tls : TlsOps → World → World
poll_tls ops w =
    let polled = ops.tls_poll w in
    let sent = ns_send_request ops polled in
    if w.conn.tls_sent
    then if leb w.conn.deadline w.ticks then ns_finish w err_conn else w
    else if ops.tls_is_established polled
    then with_conn sent (record sent.conn { tls_sent = true; retries = 0 })
    else if not (ops.tls_is_active polled)
    then ns_finish polled err_tls
    else polled

unfoldable pub poll_transfer : World → World
unfolding due
poll_transfer w =
    let again = set_retries w (w.conn.retries + 1) in
    let c = again.conn in
    if c.req_sent && not c.req_acked && due w
    then if ltb 10 c.retries
      then ns_finish again err_conn
      else set_last_send
          (ns_emit again 16 ((c.snd_nxt + 2 ^ 32 - length c.req) % 2 ^ 32) c.rcv_nxt c.req)
    else w

unfoldable pub poll_phase : TlsOps → World → World
unfolding poll_dns poll_connect poll_tls poll_transfer
poll_phase ops w = elim w.conn.phase [
  | dns ↦ poll_dns w
  | connect ↦ poll_connect w
  | tls ↦ poll_tls ops w
  | transfer ↦ poll_transfer w
]

-- `frames` is what the card has received.
unfoldable pub ns_poll : TlsOps → World → List (Bytes × ℕ) → World
unfolding rx_all poll_phase
ns_poll ops w frames =
    let v = rx_all ops w frames in
    if not v.conn.active
    then v
    else if leb v.conn.deadline v.ticks
    then ns_finish v err_conn
    else poll_phase ops v
