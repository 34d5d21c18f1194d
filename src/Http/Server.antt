-- ===== src/Http/Server.antt =====
-- `HTTPObfsServer` of components/simple-obfs/http/server.go.
use open_snell.Base.{
  ℕ, ◌%◌, List, [], ◌∷◌, ◌++◌, Bool, true, false, not, ◌||◌, Option, none, some, if◌then◌else◌,
  length,
}
use open_snell.Io.{Conn, Error, Result, ok, err, panic, eof, send}
use open_snell.Socks5.Text.{itoa, bytes_eq}
use open_snell.Http.Types.{HttpLib, Head, Tap, codes, read_buf, read_bio, keep_rest}

pub record HttpServer : Type 0 where
  pub tap : Tap
  pub first_request : Bool
  pub first_response : Bool

-- `NewHTTPObfsServer`
unfoldable pub new_http_server : Conn → HttpServer
new_http_server c = record {
  tap = record { buf = none; offset = 0; conn = c };
  first_request = true;
  first_response = true;
}

abbrev pub server_conn : HttpServer → Conn → HttpServer
server_conn s c = record s { tap = record s.tap { conn = c } }

unfoldable pub requested : ℕ → HttpServer → Result (List ℕ) × Conn → Result (List ℕ) × HttpServer
requested n s (err e, c) = (err e, server_conn s c)
requested n s (panic, c) = (panic, server_conn s c)
requested n s (ok body, c) =
    let (p, t) = keep_rest n body c s.tap in (p, record s { tap = t; first_request = false })

-- Behind `http.ReadRequest`: a request that is no upgrade by GET is the end of the file.
unfoldable pub check_request :
    HttpLib → ℕ → HttpServer → Result Head × Conn → Result (List ℕ) × HttpServer
unfolding requested
check_request lib n s (err e, c) = (err e, server_conn s c)
check_request lib n s (panic, c) = (panic, server_conn s c)
check_request lib n s (ok h, c) =
    if not (bytes_eq h.method (codes "GET")) || not (bytes_eq h.connection (codes "Upgrade"))
    then (err eof, server_conn s c)
    else requested n s (lib.read_body h c)

abbrev pub server_tapped : HttpServer → Result (List ℕ) × Tap → Result (List ℕ) × HttpServer
server_tapped s (p, t) = (p, record s { tap = t })

unfoldable pub http_server_read_by :
    HttpLib → ℕ → HttpServer → Option (List ℕ) → Result (List ℕ) × HttpServer
unfolding check_request
http_server_read_by lib n s (some b) = server_tapped s (read_buf n b s.tap)
http_server_read_by lib n s none =
    if s.first_request
    then check_request lib n s (lib.read_request s.tap.conn)
    else server_tapped s (read_bio n s.tap)

-- `Read(b)` with `len(b) == n`
unfoldable pub http_server_read : HttpLib → ℕ → HttpServer → Result (List ℕ) × HttpServer
unfolding http_server_read_by
http_server_read lib n s = http_server_read_by lib n s s.tap.buf

-- The numbers of the program's run, and what a response draws: the date, and 16 bytes in base64.
pub record Stamp : Type 0 where
  pub major : ℕ
  pub minor : ℕ
  pub date : List ℕ
  pub accept : List ℕ

abbrev pub crlf : List ℕ
crlf = 13 ∷ 10 ∷ []

-- `httpResponseTemplate`, filled in.
unfoldable pub response : Stamp → List ℕ
response p =
    codes "HTTP/1.1 101 Switching Protocols"
    ++ (crlf
        ++ (codes "Server: nginx/1."
            ++ (itoa (p.major % 11)
                ++ (codes "."
                    ++ (itoa (p.minor % 12)
                        ++ (crlf
                            ++ (codes "Date: "
                                ++ (p.date
                                    ++ (crlf
                                        ++ (codes "Upgrade: websocket"
                                            ++ (crlf
                                                ++ (codes "Connection: Upgrade"
                                                    ++ (crlf
                                                        ++ (codes "Sec-WebSocket-Accept: "
                                                            ++ (p.accept
                                                            ++ (crlf ++ crlf))))))))))))))))

unfoldable pub answered_first :
    List ℕ → HttpServer → (ℕ × Option Error) × Conn → (ℕ × Option Error) × HttpServer
answered_first b s ((k, some e), c) = ((0, some e), server_conn s c)
answered_first b s ((k, none), c) =
    let ((j, e), c') = send b c in
    ((length b, e), record s { tap = record s.tap { conn = c' }; first_response = false })

-- `Write(b)`
unfoldable pub http_server_write : Stamp → List ℕ → HttpServer → (ℕ × Option Error) × HttpServer
unfolding answered_first
http_server_write p b s =
    if s.first_response
    then answered_first b s (send (response p) s.tap.conn)
    else (let (x, c) = send b s.tap.conn in (x, server_conn s c))
