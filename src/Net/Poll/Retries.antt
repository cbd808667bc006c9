-- ===== src/Net/Poll/Retries.antt =====
-- kernel/netstack.c, ns_poll: the limits on retries are never reached.
use sol_os.Base.{ℕ, ◌≡◌, ap, List, [], arith}
use sol_os.Net.World.{World, Conn, syn_sent}
use sol_os.Net.Send.{arp_request, net_send, with_conn, dns_ip, gw_ip}
use sol_os.Net.Send.Keeps.{ns_emit-Kept, udp_send-Kept}
use sol_os.Net.Dns.{dns_send_query}
use sol_os.Net.Poll.{poll_dns, poll_connect, ask_arp, set_retries, emit_syn}

-- The connection is still open and nothing was reported.
abbrev pub Still : World → World → Type 0
Still w v =
    (v.calls ≡ w.calls) × (v.conn.active ≡ w.conn.active) × (v.conn.deadline ≡ w.conn.deadline)

dns_send_query-Still : (w : World) → Still w (dns_send_query w)
unfolding dns_send_query
dns_send_query-Still w =
    let k = udp_send-Kept w w.conn.dns_sport 53 _ _ _ in
    (k.2, ap (λ (c : Conn). c.active) k.0, ap (λ (c : Conn). c.deadline) k.0)

ask_arp-Still : (w : World) (ip : List ℕ) → Still w (ask_arp w ip)
unfolding ask_arp arp_request net_send
ask_arp-Still w ip = ground arith

emit_syn-Still : (w : World) → Still w (emit_syn w)
emit_syn-Still w =
    let k = ns_emit-Kept w 2 w.conn.isn 0 [] in
    (k.2, ap (λ (c : Conn). c.active) k.0, ap (λ (c : Conn). c.deadline) k.0)

poll_dns-Still : (w : World) → Still w (poll_dns w)
unfolding poll_dns
poll_dns-Still w0 =
    let w = set_retries w0 0 in
    let q = dns_send_query-Still w in
    let r = dns_send_query-Still (set_retries w 1) in let s = ask_arp-Still w dns_ip in ground arith

poll_connect-Still : (w : World) → Still w (poll_connect w)
unfolding poll_connect
poll_connect-Still w0 =
    let w = set_retries w0 0 in
    let q = emit_syn-Still (with_conn w (record w.conn { tcp_state = syn_sent })) in
    let r = emit_syn-Still (set_retries w 1) in let s = ask_arp-Still w gw_ip in ground arith

-- Whatever the count of retries is, a poll in the DNS phase (poll_dns) and a poll while connecting
-- (poll_connect) report nothing to the callback, leave the connection active as it was, and keep its
-- deadline: the limits on retries never end a request there.
pub retries_never_end : (w : World) → Still w (poll_dns w) × Still w (poll_connect w)
retries_never_end w = (poll_dns-Still w, poll_connect-Still w)
