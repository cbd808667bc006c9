-- ===== src/Net/Http.antt =====
-- kernel/netstack.c: the HTTP request, and the header of its answer.
pub mod Header
use sol_os.Base.{
  ℕ, zero, suc, ◌+◌, ◌-◌, ◌*◌, Bool, true, ◌&&◌, Option, none, some, List, [], ◌∷◌, ◌++◌, ltb, leb,
  ◌==◌, if◌then◌else◌, length, take,
}
use sol_os.Net.Bytes.{Bytes}
use sol_os.Net.World.{World, Conn}
use sol_os.Net.Send.{with_conn}

-- "GET ", " HTTP/1.0" and the first header up to its value, and the other headers
abbrev pub text_get : List ℕ
text_get = 71 ∷ 69 ∷ 84 ∷ 32 ∷ []

abbrev pub text_version_host : List ℕ
text_version_host =
    32 ∷ 72 ∷ 84 ∷ 84 ∷ 80 ∷ 47 ∷ 49 ∷ 46 ∷ 48 ∷ 13 ∷ 10 ∷ 72 ∷ 111 ∷ 115 ∷ 116 ∷ 58 ∷ 32 ∷ []

abbrev pub text_tail : List ℕ
text_tail =
    13 ∷ 10 ∷ 85 ∷ 115 ∷ 101 ∷ 114 ∷ 45 ∷ 65 ∷ 103 ∷ 101 ∷ 110 ∷ 116 ∷ 58 ∷ 32 ∷ 83 ∷ 111 ∷ 108 ∷ 79
    ∷ 83 ∷ 47 ∷ 48 ∷ 46 ∷ 49 ∷ 13 ∷ 10 ∷ 67 ∷ 111 ∷ 110 ∷ 110 ∷ 101 ∷ 99 ∷ 116 ∷ 105 ∷ 111 ∷ 110
    ∷ 58 ∷ 32 ∷ 99 ∷ 108 ∷ 111 ∷ 115 ∷ 101 ∷ 13 ∷ 10 ∷ 13 ∷ 10 ∷ []

-- `NS_REQ_MAX - 1` characters at most
unfoldable pub request_text : Conn → List ℕ
request_text c = take 511 (text_get ++ (c.path ++ (text_version_host ++ (c.host ++ text_tail))))

unfoldable pub build_request : Conn → Conn
build_request c = if length c.req == 0 then record c { req = request_text c } else c

abbrev pub ends_at : Bytes → ℕ → Bool
ends_at b i = b (i - 3) == 13 && (b (i - 2) == 10) && (b (i - 1) == 13) && (b i == 10)

-- The end of the HTTP header: the first of the `n` places from `i` on where "\r\n\r\n" ends.
unfoldable pub find_end : ℕ → ℕ → Bytes → Option ℕ
find_end zero i b = none
find_end (suc n) i b = let rest = find_end n (i + 1) b in if ends_at b i then some i else rest

abbrev pub is_digit : ℕ → Bool
is_digit c = leb 48 c && leb c 57

-- The status line's number, if `buf` starts as one does and the header is that long.
unfoldable pub status_of : Bytes → ℕ → ℕ → ℕ
status_of b hdr_end old =
    if leb 12 hdr_end
      && (b 0 == 72)
      && (b 1 == 84)
      && (b 2 == 84)
      && (b 3 == 80)
      && is_digit (b 9)
      && is_digit (b 10)
      && is_digit (b 11)
    then (b 9 - 48) * 100 + (b 10 - 48) * 10 + (b 11 - 48)
    else old

abbrev pub hdr_max : ℕ
hdr_max = 2048

-- The search for the end of the header, which the code has in three places.
unfoldable pub scan_header : World → World
unfolding find_end status_of
scan_header w =
    let c = w.conn in
    let limit = if ltb c.got hdr_max then c.got else hdr_max in
    if c.hdr_done then w else elim (find_end (limit - 3) 3 w.body) [
      | none ↦ w
      | some i ↦ with_conn w (record c {
        hdr_done = true;
        hdr_end = i + 1;
        http_status = status_of w.body (i + 1) c.http_status;
      })
    ]
