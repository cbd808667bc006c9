-- ===== src/Net/Api/Start.antt =====
-- kernel/netstack.c, ns_http_get: how a request starts.
use sol_os.Base.{
  ℕ, ◌≤◌, ◌≡◌, refl, ◌↔◌, inl, inr, true, none, List, arith, leb, leb→le, Bool-cases, length,
}
use sol_os.Net.Bytes.{Bytes}
use sol_os.Net.World.{World}
use sol_os.Net.Api.{Request, ns_http_get, new_conn, split_scheme, host_part}

-- With a card and a link, ns_http_get writes past the array for the host exactly when the text
-- between the scheme and the first slash, question mark or hash has 96 characters or more.
pub ns_http_get-none :
    (w : World) (mac : List ℕ) (body : Bytes) (r : Request)
    → (ns_http_get w true mac body r ≡ none) ↔ (96 ≤ length (host_part (split_scheme r.host).1))
unfolding ns_http_get new_conn
ns_http_get-none w mac body r =
    elim (Bool-cases (leb 96 (length (host_part (split_scheme r.host).1)))) [
      | inl t ↦ rw (t, ns_http_get, new_conn) (λ e. leb→le _ _ t, λ e. refl)
      | inr t ↦ rw (t, ns_http_get, new_conn) (λ e. ground arith, λ e. ground arith)
    ]
