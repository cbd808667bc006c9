-- ===== src/Net/World.antt =====
-- kernel/netstack.c: the connection and the module's other state.
pub mod Finish
use sol_os.Base.{ℕ, ◌-◌, Bool, true, false, ◌&&◌, List, [], ◌∷◌, leb, if◌then◌else◌}
use sol_os.Net.Arp.{ArpEnt}

pub data Phase : Type 0 where
  dns : Phase
  connect : Phase
  tls : Phase
  transfer : Phase

-- The values of `tcp_state`: 0, TCP_S_SYN_SENT and TCP_S_ESTAB.
pub data TcpState : Type 0 where
  closed : TcpState
  syn_sent : TcpState
  estab : TcpState

abbrev pub is_estab : TcpState → Bool
is_estab estab = true
is_estab _ = false

abbrev pub is_syn_sent : TcpState → Bool
is_syn_sent syn_sent = true
is_syn_sent _ = false

-- NS_OK and the other results that the callback is given.
pub data Status : Type 0 where
  ok : Status
  err_nonet : Status
  err_dns : Status
  err_conn : Status
  err_http : Status
  err_tls : Status

-- `struct ns_conn_t`. Strings are without their final 0; what `buf` points to is in `World`.
pub record Conn : Type 0 where
  pub active : Bool
  pub phase : Phase
  pub tcp_state : TcpState
  pub host : List ℕ
  pub path : List ℕ
  pub cap : ℕ
  pub has_cb : Bool
  pub ctx : ℕ
  pub use_tls : Bool
  pub tls_sent : Bool
  pub dns_id : ℕ
  pub dns_sport : ℕ
  pub dns_sent : Bool
  pub dst_ip : List ℕ
  pub sport : ℕ
  pub isn : ℕ
  pub snd_nxt : ℕ
  pub rcv_nxt : ℕ
  pub req_sent : Bool
  pub req_acked : Bool
  pub req : List ℕ
  pub hdr_done : Bool
  pub hdr_end : ℕ
  pub http_status : ℕ
  pub got : ℕ
  pub last_send : ℕ
  pub deadline : ℕ
  pub retries : ℕ

-- `memset(&ns_conn, 0, sizeof ns_conn)`
abbrev pub zero_conn : Conn
zero_conn = record {
  active = false;
  phase = dns;
  tcp_state = closed;
  host = [];
  path = [];
  cap = 0;
  has_cb = false;
  ctx = 0;
  use_tls = false;
  tls_sent = false;
  dns_id = 0;
  dns_sport = 0;
  dns_sent = false;
  dst_ip = 0 ∷ 0 ∷ 0 ∷ 0 ∷ [];
  sport = 0;
  isn = 0;
  snd_nxt = 0;
  rcv_nxt = 0;
  req_sent = false;
  req_acked = false;
  req = [];
  hdr_done = false;
  hdr_end = 0;
  http_status = 0;
  got = 0;
  last_send = 0;
  deadline = 0;
  retries = 0;
}

-- A call of the callback: `cb(ctx, status, off, len)`.
pub record Done : Type 0 where
  pub ctx : ℕ
  pub status : Status
  pub off : ℕ
  pub len : ℕ

-- `body` is what `ns_conn.buf` points to, `sent` the frames that net_send took, the last first.
-- `faults` counts the copies from a null hardware address, after which the machine would stop.
-- `tls_memory` is the state of kernel/tls.c.
pub record World : Type 0 where
  pub conn : Conn
  pub arp : List ArpEnt
  pub ip_id : ℕ
  pub port_ctr : ℕ
  pub my_mac : List ℕ
  pub body : ℕ → ℕ
  pub sent : List (List ℕ)
  pub calls : List Done
  pub ticks : ℕ
  pub faults : ℕ
  pub tls_memory : ℕ → ℕ

unfoldable pub call_back : Conn → World → Done → World
call_back c w d = if c.has_cb then record w { calls = d ∷ w.calls } else w

abbrev pub is_ok : Status → Bool
is_ok ok = true
is_ok _ = false

-- Where the body starts and how long it is, for the callback.
unfoldable pub body_range : Conn → Status → ℕ × ℕ
body_range c status =
    if is_ok status && c.hdr_done && leb c.hdr_end c.got
    then (c.hdr_end, c.got - c.hdr_end)
    else (0, 0)

unfoldable pub ns_finish : World → Status → World
unfolding call_back body_range
ns_finish w status =
    let r = body_range w.conn status in
    call_back w.conn (record w { conn = zero_conn })
      (record { ctx = w.conn.ctx; status = status; off = r.0; len = r.1 })
