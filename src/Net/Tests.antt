-- ===== src/Net/Tests.antt =====
-- kernel/netstack.c: the theorems on concrete packets.
use sol_os.Base.{
  ℕ, zero, suc, ◌+◌, ◌%◌, ◌^◌, ◌≤◌, ◌<◌, min, ◌≡◌, refl, ◌⊎◌, true, false, some, List, [], ◌∷◌,
  ◌++◌, arith, ltb→lt, leb→le, length, get_or,
}
use sol_os.Net.Bytes.{Bytes}
use sol_os.Net.Arp.{ArpEnt, arp_lookup, arp_update, arp_lookup-arp_update}
use sol_os.Net.World.{World, Conn, transfer, estab, ok, zero_conn, ns_finish, Done}
use sol_os.Net.World.Finish.{ns_finish_lem}
use sol_os.Net.Send.{checked_segment, ns_tls_send}
use sol_os.Net.Bytes.Checksum.{Accepted}
use sol_os.Net.Send.Verifies.{pseudo_header, segment_verifies}
use sol_os.Net.Send.Lost.{ns_tls_send_lost}
use sol_os.Net.Dns.{dns_skip_name, dns_build_name}
use sol_os.Net.Dns.Skip.{Landed, dns_skip_name_lem}
use sol_os.Net.Dns.Names.{encoded, dotted, dns_build_name_lem}
use sol_os.Net.Tcp.{TlsOps, bytes_of}
use sol_os.Net.Tcp.Stream.{Stream, Receives}
use sol_os.Net.Tcp.Segments.{Seg, rx_segments, accept_all, total_data, rx_segments_refines}
use sol_os.Net.Poll.{poll_dns, poll_connect}
use sol_os.Net.Poll.Retries.{Still, retries_never_end}

abbrev gateway : List ℕ
gateway = 10 ∷ 0 ∷ 2 ∷ 2 ∷ []

abbrev open_conn : Conn
open_conn = record zero_conn {
  active = true;
  phase = transfer;
  tcp_state = estab;
  cap = 16;
  has_cb = true;
  dst_ip = 1 ∷ 2 ∷ 3 ∷ 4 ∷ [];
  rcv_nxt = 100;
  snd_nxt = 500;
}

segment_verifies_example : Accepted (
    pseudo_header (1 ∷ 2 ∷ 3 ∷ 4 ∷ []) 23
    ++ checked_segment open_conn 16 500 100 (71 ∷ 69 ∷ 84 ∷ []))
segment_verifies_example =
    segment_verifies open_conn 16 500 100 (71 ∷ 69 ∷ 84 ∷ []) (omega arith)
      (omega arith, (omega arith, (omega arith, (omega arith, tt)))) refl
      (omega arith, (omega arith, (omega arith, tt))) (omega arith)

abbrev free_entry : ArpEnt
free_entry = record { ip = 0; mac = []; valid = false }

abbrev card : List ℕ
card = 82 ∷ 84 ∷ 0 ∷ 18 ∷ 52 ∷ 86 ∷ []

arp_lookup-arp_update_example :
    arp_lookup (arp_update (free_entry ∷ free_entry ∷ []) 7 card) 7 ≡ some card
arp_lookup-arp_update_example = arp_lookup-arp_update free_entry (free_entry ∷ []) 7 card

abbrev world : World
world = record {
  conn = open_conn;
  arp = free_entry ∷ [];
  ip_id = 0;
  port_ctr = 0;
  my_mac = card;
  body = λ i. 0;
  sent = [];
  calls = [];
  ticks = 10;
  faults = 0;
  tls_memory = λ i. 0;
}

-- A TLS layer that does nothing.
abbrev no_tls : TlsOps
no_tls = record {
  tls_connect = λ h w. w;
  tls_feed = λ xs w. w;
  tls_poll = λ w. w;
  tls_send_app_data = λ xs w. w;
  tls_app_ready = λ w. false;
  tls_app_len = λ w. 0;
  tls_copy_app_data = λ n w. [];
  tls_clear_app_ready = λ w. w;
  tls_clear_app_len = λ w. w;
  tls_is_established = λ w. false;
  tls_is_active = λ w. false;
}

-- Sequence number 100 and the data "ok"; the same once more; then 102 and "!".
abbrev data_segment : ℕ → List ℕ → Bytes
data_segment seq xs i =
    get_or (0 ∷ 80 ∷ 0 ∷ 9 ∷ 0 ∷ 0 ∷ 0 ∷ seq ∷ 0 ∷ 0 ∷ 0 ∷ 0 ∷ 80 ∷ 16 ∷ 0 ∷ 0 ∷ 0 ∷ 0 ∷ 0 ∷ 0 ∷ xs)
      i 0

abbrev segments : List Seg
segments =
    (data_segment 100 (111 ∷ 107 ∷ []), 22)
    ∷ (data_segment 100 (111 ∷ 107 ∷ []), 22)
    ∷ (data_segment 102 (33 ∷ []), 21)
    ∷ []

abbrev nothing_yet : Stream
nothing_yet = record { bytes = []; next = 100 }

rx_segments_refines_example :
    Receives (rx_segments no_tls world segments) (accept_all nothing_yet segments)
unfolding total_data bytes_of
rx_segments_refines_example =
    rx_segments_refines no_tls world nothing_yet segments
      ((refl, refl, refl), ((refl, refl, refl), ((refl, refl, refl), tt)))
      (record {
        plain = refl;
        is_open = refl;
        counted = refl;
        stored = λ i h. absurd (omega arith);
        expects = refl;
      })
      (omega arith) (leb→le _ _ refl)

abbrev name_bytes : Bytes
name_bytes i = get_or (1 ∷ 97 ∷ 2 ∷ 98 ∷ 99 ∷ 0 ∷ 0 ∷ []) i 0

dns_skip_name_lem_example :
    (dns_skip_name 12 name_bytes 7 0 ≡ dns_skip_name 8 name_bytes 7 0)
    × Landed 7 0 (dns_skip_name 8 name_bytes 7 0)
dns_skip_name_lem_example = dns_skip_name_lem 4 name_bytes 7 0 (omega arith)

dns_build_name_lem_example :
    dns_build_name 500 (dotted (97 ∷ []) ((98 ∷ 99 ∷ []) ∷ []))
    ≡ encoded (97 ∷ []) ((98 ∷ 99 ∷ []) ∷ []) ++ (0 ∷ [])
unfolding encoded
dns_build_name_lem_example =
    dns_build_name_lem 500 (97 ∷ []) ((98 ∷ 99 ∷ []) ∷ []) (omega arith, omega arith, (refl, tt))
      ((omega arith, omega arith, (refl, (refl, tt))), tt) (leb→le _ _ refl)

abbrev zeros : ℕ → List ℕ
zeros zero = []
zeros (suc n) = 0 ∷ zeros n

ns_tls_send_lost_example :
    ((ns_tls_send world (zeros 1490)).sent ≡ [])
    × ((ns_tls_send world (zeros 1490)).conn.snd_nxt
        ≡ (500 + min 1500 (length (zeros 1490))) % 2 ^ 32)
ns_tls_send_lost_example = ns_tls_send_lost world (zeros 1490) refl refl (ltb→lt _ _ refl)

retries_never_end_example : Still world (poll_dns world) × Still world (poll_connect world)
retries_never_end_example = retries_never_end world

abbrev answered : World
answered = record world { conn = record open_conn { hdr_done = true; hdr_end = 4; got = 9 } }

ns_finish_lem_example :
    ((ns_finish answered ok).conn ≡ zero_conn)
    × ((d : Done) × (d.ctx ≡ 0)
        × (d.status ≡ ok)
        × (d.off + d.len ≤ 9)
        × (true ≡ true → true ≡ true → 4 ≤ 9 → (d.off ≡ 4) × (d.off + d.len ≡ 9))
        × ((true ≡ false) ⊎ (true ≡ false) ⊎ (9 < 4) → (d.off ≡ 0) × (d.len ≡ 0))
        × ((ns_finish answered ok).calls ≡ d ∷ []))
ns_finish_lem_example = ns_finish_lem answered ok
