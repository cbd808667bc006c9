-- ===== src/Net/Tcp.antt =====
-- kernel/netstack.c: the TCP client.
pub mod Stream
pub mod Data
pub mod Segments
use sol_os.Base.{
  ℕ, zero, suc, ◌+◌, ◌-◌, ◌*◌, ◌/◌, ◌%◌, ◌^◌, Bool, true, false, ◌&&◌, ◌||◌, not, Option, none,
  some, List, [], ◌∷◌, ltb, leb, ◌==◌, if◌then◌else◌, length, get_or, take, bit,
}
use sol_os.Net.Bytes.{Bytes, from, b32}
use sol_os.Net.World.{
  World, Conn, Phase, tls, transfer, estab, is_estab, is_syn_sent, Status, ok, err_conn, err_http,
  ns_finish,
}
use sol_os.Net.Send.{ns_emit, with_conn}
use sol_os.Net.Http.{build_request, scan_header}

-- The functions of kernel/tls.c that the stack calls, as they change the state that the two share.
pub record TlsOps : Type 0 where
  pub tls_connect : List ℕ → World → World
  pub tls_feed : List ℕ → World → World
  pub tls_poll : World → World
  pub tls_send_app_data : List ℕ → World → World
  pub tls_app_ready : World → Bool
  pub tls_app_len : World → ℕ
  pub tls_copy_app_data : ℕ → World → List ℕ
  pub tls_clear_app_ready : World → World
  pub tls_clear_app_len : World → World
  pub tls_is_established : World → Bool
  pub tls_is_active : World → Bool

abbrev pub is_tls : Phase → Bool
is_tls tls = true
is_tls _ = false

abbrev pub fin : ℕ
fin = 1

abbrev pub ack_flag : ℕ
ack_flag = 16

unfoldable pub ns_send_request : TlsOps → World → World
ns_send_request ops w =
    let built = with_conn w (build_request w.conn) in
    let c = built.conn in
    let plain = ns_emit built ack_flag c.snd_nxt c.rcv_nxt c.req in
    let sent =
      if c.use_tls
      then ops.tls_send_app_data c.req built
      else with_conn plain (record plain.conn { snd_nxt = (c.snd_nxt + length c.req) % 2 ^ 32 }) in
    with_conn sent (record sent.conn { req_sent = true; last_send = w.ticks })

-- The `n` bytes from a pointer on.
unfoldable pub bytes_of : ℕ → Bytes → List ℕ
bytes_of zero p = []
bytes_of (suc n) p = p 0 ∷ bytes_of n (from p 1)

-- memcpy into the buffer at `off`
unfoldable pub write_body : Bytes → ℕ → List ℕ → Bytes
write_body b off xs i = if leb off i && ltb i (off + length xs) then get_or xs (i - off) 0 else b i

-- Take the plain text that TLS has ready.
unfoldable pub take_app_data : TlsOps → World → World
unfolding write_body scan_header
take_app_data ops w =
    let ready = ops.tls_clear_app_ready w in
    let len = ops.tls_app_len ready in
    let text =
      ops.tls_copy_app_data (if ltb len ready.conn.cap then len else ready.conn.cap) ready in
    let copied = record ready { body = write_body ready.body 0 text } in
    let counted = with_conn copied (record copied.conn { got = length text }) in
    let cleared = ops.tls_clear_app_len counted in
    if leb 4 cleared.conn.got then scan_header cleared else cleared

-- The state after a TLS record, and the bytes taken.
unfoldable pub data_tls : TlsOps → World → List ℕ → World
unfolding take_app_data
data_tls ops w dp =
    let polled = ops.tls_poll (ops.tls_feed dp w) in
    let taken = if ops.tls_app_ready polled then take_app_data ops polled else polled in
    let c = taken.conn in
    let moved = with_conn taken (record c { rcv_nxt = (c.rcv_nxt + length dp) % 2 ^ 32 }) in
    ns_emit moved ack_flag moved.conn.snd_nxt moved.conn.rcv_nxt []

-- `ns_conn.cap - ns_conn.got`, on `size_t`
abbrev pub room : Conn → ℕ
room c = (c.cap + 2 ^ 64 - c.got) % 2 ^ 64

-- The bytes of `dp` that the buffer takes.
abbrev pub taken : Conn → List ℕ → List ℕ
taken c dp = take (room c) dp

unfoldable pub store_body : World → List ℕ → World
unfolding write_body
store_body w xs =
    let c = w.conn in
    record w {
      body = write_body w.body c.got xs;
      conn = record c { got = c.got + length xs; rcv_nxt = (c.rcv_nxt + length xs) % 2 ^ 32 };
    }

-- 200 to 399 is a success.
abbrev pub http_result : Conn → Status
http_result c = if leb 200 c.http_status && ltb c.http_status 400 then ok else err_http

-- In-order data of a plain transfer, `xs` of `dlen` bytes; `none` when the buffer is full and the
-- transfer ends.
unfoldable pub plain_with : World → List ℕ → ℕ → World × Option ℕ
unfolding store_body scan_header
plain_with w xs dlen =
    let scanned = scan_header (store_body w xs) in
    let acked = ns_emit scanned ack_flag scanned.conn.snd_nxt scanned.conn.rcv_nxt [] in
    if ltb (length xs) dlen
    then (ns_finish acked (http_result acked.conn), none)
    else (scanned, some (length xs))

unfoldable pub data_plain : World → List ℕ → World × Option ℕ
unfolding plain_with
data_plain w dp = plain_with w (taken w.conn dp) (length dp)

-- The data of a segment: the bytes taken, or `none` when the handler returns.
unfoldable pub tcp_data : TlsOps → World → ℕ → List ℕ → World × Option ℕ
unfolding data_tls data_plain
tcp_data ops w seq dp =
    if length dp == 0
    then (w, some 0)
    else if seq == w.conn.rcv_nxt
    then if is_tls w.conn.phase then (data_tls ops w dp, some (length dp)) else data_plain w dp
    else (ns_emit w ack_flag w.conn.snd_nxt w.conn.rcv_nxt [], none)

abbrev pub emit_fin : World → World
emit_fin w = ns_emit w (ack_flag + fin) w.conn.snd_nxt w.conn.rcv_nxt []

unfoldable pub fin_tls : TlsOps → World → World
unfolding take_app_data
fin_tls ops w =
    let had_app = ops.tls_app_ready w || ltb 0 (ops.tls_app_len w) in
    let sent = emit_fin (if had_app then take_app_data ops w else w) in
    let c = sent.conn in
    ns_finish sent (
      if had_app
      then if c.hdr_done && leb 200 c.http_status && ltb c.http_status 400 then ok else err_http
      else err_conn)

unfoldable pub handle_fin : TlsOps → World → World
unfolding fin_tls
handle_fin ops w =
    let moved = with_conn w (record w.conn { rcv_nxt = (w.conn.rcv_nxt + 1) % 2 ^ 32 }) in
    let sent = emit_fin moved in
    if is_tls moved.conn.phase then fin_tls ops moved else ns_finish sent (http_result sent.conn)

-- The answer to SYN.
unfoldable pub handle_syn : TlsOps → World → ℕ → ℕ → ℕ → World
unfolding ns_send_request
handle_syn ops w flags seq ack =
    let c = w.conn in
    let up = record c { rcv_nxt = (seq + 1) % 2 ^ 32; tcp_state = estab } in
    let secure = ops.tls_connect c.host (with_conn w (record up { phase = tls })) in
    if bit flags 1 == 0 || (bit flags 4 == 0)
    then w
    else if not (ack == (c.isn + 1) % 2 ^ 32)
    then w
    else if bit flags 2 == 1
    then ns_finish w err_conn
    else if c.use_tls
    then ns_emit secure ack_flag secure.conn.snd_nxt secure.conn.rcv_nxt []
    else ns_send_request ops (with_conn w (record up { phase = transfer }))

unfoldable pub mark_acked : Conn → ℕ → ℕ → Conn
mark_acked c flags ack =
    if (bit flags 4 == 1) && c.req_sent && not c.req_acked && leb c.snd_nxt ack
    then record c { req_acked = true }
    else c

-- After the data of a segment: `none` when the handler has returned.
unfoldable pub after_data : TlsOps → ℕ → World → Option ℕ → World
unfolding handle_fin
after_data ops flags v none = v
after_data ops flags v (some adv) =
    if bit flags 0 == 1
    then handle_fin ops v
    else if adv == 0
    then v
    else ns_emit v ack_flag v.conn.snd_nxt v.conn.rcv_nxt []

-- A segment of an open connection, without RST.
unfoldable pub tcp_open : TlsOps → World → ℕ → ℕ → List ℕ → World
unfolding tcp_data after_data
tcp_open ops w flags seq dp = let r = tcp_data ops w seq dp in after_data ops flags r.0 r.1

unfoldable pub tcp_handle : TlsOps → World → Bytes → ℕ → World
unfolding handle_syn mark_acked tcp_open bytes_of
tcp_handle ops w seg n =
    let flags = seg 13 % 64 in
    let seq = b32 (from seg 4) in
    let ack = b32 (from seg 8) in
    let doff = seg 12 / 16 * 4 in
    if ltb n 20 || ltb n doff
    then w
    else if is_syn_sent w.conn.tcp_state
    then handle_syn ops w flags seq ack
    else if not (is_estab w.conn.tcp_state)
    then w
    else if bit flags 2 == 1
    then ns_finish w err_conn
    else tcp_open ops (with_conn w (mark_acked w.conn flags ack)) flags seq
        (bytes_of (n - doff) (from seg doff))
