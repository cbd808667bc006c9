-- ===== src/Net/World/Finish.antt =====
-- kernel/netstack.c, ns_finish: what the callback is told.
use sol_os.Base.{◌+◌, ◌≤◌, ◌<◌, ◌≡◌, refl, ◌⊎◌, inl, inr, true, false, ◌∷◌, arith, if◌then◌else◌}
use sol_os.Net.World.{World, Status, Done, ns_finish, call_back, body_range, zero_conn, is_ok}

-- ns_finish closes the connection and calls the callback once, if there is one, with its context and
-- the status. The range that it reports lies in the buffer's used part, and is its part after the
-- header, if the request succeeded and the end of the header was found there; else it is empty.
pub ns_finish_lem :
    (w : World) (status : Status)
    → ((ns_finish w status).conn ≡ zero_conn)
      × ((d : Done) × (d.ctx ≡ w.conn.ctx)
          × (d.status ≡ status)
          × (d.off + d.len ≤ w.conn.got)
          × (is_ok status ≡ true
              → w.conn.hdr_done ≡ true
              → w.conn.hdr_end ≤ w.conn.got
              → (d.off ≡ w.conn.hdr_end) × (d.off + d.len ≡ w.conn.got))
          × ((is_ok status ≡ false) ⊎ (w.conn.hdr_done ≡ false) ⊎ (w.conn.got < w.conn.hdr_end)
              → (d.off ≡ 0) × (d.len ≡ 0))
          × ((ns_finish w status).calls ≡ (if w.conn.has_cb then d ∷ w.calls else w.calls)))
unfolding ns_finish call_back body_range
ns_finish_lem w status =
    let c = w.conn in
    let r = body_range c status in
    let d : Done = record { ctx = c.ctx; status = status; off = r.0; len = r.1 } in
    (
      ground arith,
      (
        d,
        refl,
        refl,
        ground arith,
        λ a b h. ground arith,
        λ h. elim h [
          | inl a ↦ ground arith
          | inr (inl b) ↦ ground arith
          | inr (inr l) ↦ ground arith
        ],
        ground arith,
      ),
    )
