-- ===== src/Net/Api.antt =====
-- kernel/netstack.c: received frames, and the functions that the browser calls.
pub mod Start
use sol_os.Base.{
  ℕ, ◌+◌, ◌-◌, ◌*◌, ◌%◌, ◌^◌, min, Bool, true, false, ◌&&◌, ◌||◌, not, Option, none, some, List, [],
  ◌∷◌, ltb, leb, ◌==◌, if◌then◌else◌, length, take,
}
use sol_os.Net.Bytes.{Bytes, from, b16, ip4}
use sol_os.Net.Arp.{arp_update}
use sol_os.Net.World.{World, Conn, Phase, dns, err_nonet, zero_conn}
use sol_os.Net.Send.{with_conn, ethertype_ipv4, ethertype_arp}
use sol_os.Net.Dns.{dns_handle}
use sol_os.Net.Tcp.{TlsOps, tcp_handle, bytes_of}

abbrev pub is_dns : Phase → Bool
is_dns dns = true
is_dns _ = false

-- The transport part of a packet: `plen` bytes from `pay` on.
unfoldable pub rx_transport : TlsOps → World → ℕ → Bytes → ℕ → World
rx_transport ops w proto pay plen =
    let dport = b16 (from pay 2) in
    if proto == 0x11 && leb 8 plen
    then if (dport == w.conn.dns_sport) && is_dns w.conn.phase
      then dns_handle w (from pay 8) (plen - 8)
      else w
    else if proto == 0x06 && leb 20 plen
    then if w.conn.active && (dport == w.conn.sport) then tcp_handle ops w pay plen else w
    else w

unfoldable pub rx_ipv4 : TlsOps → World → Bytes → ℕ → World
unfolding rx_transport
rx_ipv4 ops w p n =
    let ihl = p 0 % 16 * 4 in
    let tlen = b16 (from p 2) in
    let plen = min (tlen - ihl) (n - ihl) in
    if ltb n 20 || ltb ihl 20 || ltb n ihl || ltb tlen ihl
    then w
    else rx_transport ops w (p 9) (from p ihl) plen

unfoldable pub rx_frame : TlsOps → World → Bytes → ℕ → World
unfolding rx_ipv4
rx_frame ops w f n =
    let type = b16 (from f 12) in
    let p = from f 14 in
    if ltb n 14
    then w
    else if type == ethertype_ipv4
    then rx_ipv4 ops w p (n - 14)
    else if (type == ethertype_arp) && leb 28 (n - 14) && (b16 (from p 6) == 2)
    then record w { arp = arp_update w.arp (ip4 (bytes_of 4 (from p 14))) (bytes_of 6 (from p 8)) }
    else w

-- `xs` without the prefix, if it starts with it.
unfoldable pub strip_prefix : List ℕ → List ℕ → Option (List ℕ)
strip_prefix [] xs = some xs
strip_prefix (p ∷ ps) [] = none
strip_prefix (p ∷ ps) (x ∷ xs) = let rest = strip_prefix ps xs in if p == x then rest else none

abbrev pub scheme_https : List ℕ
scheme_https = 104 ∷ 116 ∷ 116 ∷ 112 ∷ 115 ∷ 58 ∷ 47 ∷ 47 ∷ []

abbrev pub scheme_http : List ℕ
scheme_http = 104 ∷ 116 ∷ 116 ∷ 112 ∷ 58 ∷ 47 ∷ 47 ∷ []

-- Whether TLS is used, and the text after the scheme.
unfoldable pub split_scheme : List ℕ → Bool × List ℕ
unfolding strip_prefix
split_scheme url = elim (strip_prefix scheme_https url) [
  | some rest ↦ (true, rest)
  | none ↦ elim (strip_prefix scheme_http url) [ some rest ↦ (false, rest) | none ↦ (false, url) ]
]

-- The characters before the first slash, question mark or hash.
unfoldable pub host_part : List ℕ → List ℕ
host_part [] = []
host_part (c ∷ cs) = if c == 47 || (c == 63) || (c == 35) then [] else c ∷ host_part cs

abbrev pub max_host : ℕ
max_host = 96

abbrev pub max_path : ℕ
max_path = 256

-- What the caller of ns_http_get hands over, and the card's address.
pub record Request : Type 0 where
  pub host : List ℕ
  pub path : List ℕ
  pub cap : ℕ
  pub has_cb : Bool
  pub ctx : ℕ

-- `ns_port_ctr` after its increment
abbrev pub next_port : World → ℕ
next_port w = (w.port_ctr + 1) % 65536

unfoldable pub new_conn : World → Request → Conn
unfolding split_scheme host_part
new_conn w r =
    let port = next_port w in
    let isn = (0x12345678 + w.ticks * 97 + port * 7919) % 2 ^ 32 in
    record zero_conn {
      active = true;
      cap = r.cap;
      has_cb = r.has_cb;
      ctx = r.ctx;
      use_tls = (split_scheme r.host).0;
      host = host_part (split_scheme r.host).1;
      path = take (max_path - 1) r.path;
      sport = 40000 + port % 15000;
      dns_sport = 50000 + port % 10000;
      dns_id = 0x1000 + port % 0x7000;
      isn = isn;
      snd_nxt = (isn + 1) % 2 ^ 32;
      deadline = w.ticks + 1500;
    }

-- `none`: the loop that copies the host has no bound and writes past `host`. `present` is whether
-- there is a card and a link, `body` the caller's buffer.
unfoldable pub ns_http_get : World → Bool → List ℕ → Bytes → Request → Option World
unfolding new_conn
ns_http_get w present mac body r =
    let c = new_conn w r in
    if not present
    then some (
        if r.has_cb
        then record w {
          calls = record { ctx = r.ctx; status = err_nonet; off = 0; len = 0 } ∷ w.calls;
        }
        else w)
    else if leb max_host (length c.host)
    then none
    else some (record w { conn = c; port_ctr = next_port w; my_mac = mac; body = body })

unfoldable pub ns_abort : World → ℕ → World
ns_abort w ctx = if w.conn.active && (w.conn.ctx == ctx) then with_conn w zero_conn else w
