-- ===== src/Http/Client.antt =====
-- `HTTPObfsClient` of components/simple-obfs/http/client.go.
use open_snell.Base.{
  ℕ, ◌%◌, List, ◌++◌, Bool, true, false, Option, none, some, if◌then◌else◌, length,
}
use open_snell.Io.{Conn, Error, Result, ok, err, panic, send}
use open_snell.Socks5.Text.{itoa}
use open_snell.Http.Types.{HttpLib, Request, Tap, codes, read_buf, read_bio, keep_rest}

pub record HttpClient : Type 0 where
  pub tap : Tap
  pub host : List ℕ
  pub port : List ℕ
  pub first_request : Bool
  pub first_response : Bool

-- `NewHTTPObfsClient`
unfoldable pub new_http_client : Conn → List ℕ → List ℕ → HttpClient
new_http_client c host port = record {
  tap = record { buf = none; offset = 0; conn = c };
  host = host;
  port = port;
  first_request = true;
  first_response = true;
}

-- Random values: two numbers, and 16 bytes in base64.
pub record Random : Type 0 where
  pub major : ℕ
  pub minor : ℕ
  pub key : List ℕ

unfoldable pub upgraded : ℕ → HttpClient → Result (List ℕ) × Conn → Result (List ℕ) × HttpClient
upgraded n s (err e, c) = (err e, record s { tap = record s.tap { conn = c } })
upgraded n s (panic, c) = (panic, record s { tap = record s.tap { conn = c } })
upgraded n s (ok body, c) =
    let (p, t) = keep_rest n body c s.tap in (p, record s { tap = t; first_response = false })

abbrev pub client_tapped : HttpClient → Result (List ℕ) × Tap → Result (List ℕ) × HttpClient
client_tapped s (p, t) = (p, record s { tap = t })

unfoldable pub http_client_read_by :
    HttpLib → ℕ → HttpClient → Option (List ℕ) → Result (List ℕ) × HttpClient
unfolding upgraded
http_client_read_by lib n s (some b) = client_tapped s (read_buf n b s.tap)
http_client_read_by lib n s none =
    if s.first_response
    then upgraded n s (lib.read_response s.tap.conn)
    else client_tapped s (read_bio n s.tap)

-- `Read(b)` with `len(b) == n`
unfoldable pub http_client_read : HttpLib → ℕ → HttpClient → Result (List ℕ) × HttpClient
unfolding http_client_read_by
http_client_read lib n s = http_client_read_by lib n s s.tap.buf

-- The request around the first bytes.
unfoldable pub client_request : Random → List ℕ → HttpClient → Request
client_request r b s = record {
  method = codes "GET";
  url = codes "http://" ++ (s.host ++ codes "/");
  host = s.host ++ (codes ":" ++ s.port);
  user_agent = codes "curl/7." ++ (itoa (r.major % 54) ++ (codes "." ++ itoa (r.minor % 2)));
  upgrade = codes "websocket";
  connection = codes "Upgrade";
  key = r.key;
  body = b;
}

-- `Write(b)`: the first one counts all its bytes, error or not.
unfoldable pub http_client_write :
    HttpLib → Random → List ℕ → HttpClient → (ℕ × Option Error) × HttpClient
http_client_write lib r b s =
    if s.first_request
    then (let ((k, e), c) = send (lib.write_request (client_request r b s)) s.tap.conn in
        ((length b, e), record s { tap = record s.tap { conn = c }; first_request = false }))
    else (let (x, c) = send b s.tap.conn in (x, record s { tap = record s.tap { conn = c } }))
