-- ===== src/Net/Send.antt =====
-- kernel/netstack.c: the frames that the stack sends.
pub mod Verifies
pub mod Keeps
pub mod Lost
use sol_os.Base.{
  ℕ, ◌+◌, ◌%◌, ◌^◌, ◌&&◌, Option, none, some, List, [], ◌∷◌, ◌++◌, ltb, if◌then◌else◌, length, take,
}
use sol_os.Net.Bytes.{w16, w32, csum, pseudo, ip4}
use sol_os.Net.Arp.{arp_lookup}
use sol_os.Net.World.{World, Conn, is_estab}

abbrev pub my_ip : List ℕ
my_ip = 10 ∷ 0 ∷ 2 ∷ 15 ∷ []

abbrev pub gw_ip : List ℕ
gw_ip = 10 ∷ 0 ∷ 2 ∷ 2 ∷ []

abbrev pub dns_ip : List ℕ
dns_ip = 10 ∷ 0 ∷ 2 ∷ 3 ∷ []

abbrev pub bcast : List ℕ
bcast = 255 ∷ 255 ∷ 255 ∷ 255 ∷ 255 ∷ 255 ∷ []

abbrev pub ethertype_ipv4 : ℕ
ethertype_ipv4 = 0x0800

abbrev pub ethertype_arp : ℕ
ethertype_arp = 0x0806

abbrev pub ipv4_hlen : ℕ
ipv4_hlen = 20

abbrev pub tcp_hlen : ℕ
tcp_hlen = 20

abbrev pub udp_hlen : ℕ
udp_hlen = 8

abbrev pub max_payload : ℕ
max_payload = 1500

unfoldable pub net_send : World → List ℕ → World
net_send w f = record w { sent = f ∷ w.sent }

unfoldable pub arp_packet : List ℕ → List ℕ → List ℕ
arp_packet mac ip =
    bcast
    ++ (mac
        ++ (w16 ethertype_arp
            ++ (w16 1
                ++ (w16 ethertype_ipv4
                    ++ (6 ∷ 4 ∷ [])
                    ++ (w16 1 ++ (mac ++ (my_ip ++ ((0 ∷ 0 ∷ 0 ∷ 0 ∷ 0 ∷ 0 ∷ []) ++ ip))))))))

unfoldable pub arp_request : World → List ℕ → World
arp_request w ip = net_send w (arp_packet w.my_mac ip)

-- The IP header before its checksum field.
unfoldable pub ip_front : ℕ → ℕ → ℕ → List ℕ
ip_front proto id plen =
    0x45 ∷ 0 ∷ (w16 ((ipv4_hlen + plen) % 65536) ++ (w16 id ++ (w16 0 ++ (64 ∷ proto ∷ []))))

-- The IP header, with `sum` in the checksum field.
unfoldable pub ip_header : ℕ → ℕ → ℕ → List ℕ → ℕ → List ℕ
ip_header proto id plen dst sum = ip_front proto id plen ++ (w16 sum ++ (my_ip ++ dst))

unfoldable pub ip_frame : World → ℕ → List ℕ → List ℕ → List ℕ → List ℕ
ip_frame w proto dst mac pay =
    let header = ip_header proto w.ip_id (length pay) dst in
    mac ++ (w.my_mac ++ (w16 ethertype_ipv4 ++ (header (csum (header 0) 0) ++ pay)))

-- The identification of the packet is the counter after `++g_ip_id`.
abbrev pub next_id : World → World
next_id w = record w { ip_id = (w.ip_id + 1) % 65536 }

unfoldable pub ip_send : World → ℕ → List ℕ → Option (List ℕ) → List ℕ → World
ip_send w proto dst mac pay = if ltb max_payload (length pay) then w else elim mac [
  | none ↦ record (next_id w) { faults = w.faults + 1 }
  | some m ↦ net_send (next_id w) (ip_frame (next_id w) proto dst m pay)
]

unfoldable pub udp_datagram : ℕ → ℕ → List ℕ → ℕ → List ℕ
udp_datagram sport dport pay sum =
    w16 sport ++ (w16 dport ++ (w16 ((udp_hlen + length pay) % 65536) ++ (w16 sum ++ pay)))

unfoldable pub udp_send : World → ℕ → ℕ → List ℕ → Option (List ℕ) → List ℕ → World
udp_send w sport dport dst mac pay =
    let ps = pseudo my_ip dst 0x11 ((udp_hlen + length pay) % 65536) in
    let datagram = udp_datagram sport dport pay in
    if ltb max_payload (length pay)
    then w
    else ip_send w 0x11 dst mac (datagram (csum (datagram 0) ps))

-- The TCP header before its checksum field.
unfoldable pub tcp_front : Conn → ℕ → ℕ → ℕ → List ℕ
tcp_front c flags seq ack =
    w16 c.sport
    ++ (w16 (if c.use_tls then 443 else 80) ++ (w32 seq ++ (w32 ack ++ (80 ∷ flags ∷ w16 65535))))

-- A TCP segment of the connection, with `sum` in the checksum field.
unfoldable pub segment : Conn → ℕ → ℕ → ℕ → List ℕ → ℕ → List ℕ
segment c flags seq ack pay sum = tcp_front c flags seq ack ++ (w16 sum ++ (w16 0 ++ pay))

-- The segment with its checksum.
unfoldable pub checked_segment : Conn → ℕ → ℕ → ℕ → List ℕ → List ℕ
checked_segment c flags seq ack pay =
    let ps = pseudo my_ip c.dst_ip 6 ((tcp_hlen + length pay) % 65536) in
    segment c flags seq ack pay (csum (segment c flags seq ack pay 0) ps)

unfoldable pub ns_emit : World → ℕ → ℕ → ℕ → List ℕ → World
ns_emit w flags seq ack pay =
    if ltb max_payload (length pay)
    then w
    else ip_send w 6 w.conn.dst_ip (arp_lookup w.arp (ip4 gw_ip))
        (checked_segment w.conn flags seq ack pay)

abbrev pub with_conn : World → Conn → World
with_conn w c = record w { conn = c }

-- `ns_tls_send`, which kernel/tls.c calls.
unfoldable pub ns_tls_send : World → List ℕ → World
ns_tls_send w bytes =
    let c = w.conn in
    let pay = take max_payload bytes in
    let sent = ns_emit w 24 c.snd_nxt c.rcv_nxt pay in
    if c.active && is_estab c.tcp_state
    then with_conn sent
        (record sent.conn { snd_nxt = (c.snd_nxt + length pay) % 2 ^ 32; last_send = w.ticks })
    else w
