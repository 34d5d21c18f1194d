-- ===== src/Http/Meets.antt =====
-- The server reads what the client wrote.
use open_snell.Base.{
  arith, take, take_all, ℕ, ◌≤◌, ◌<◌, ◌≡◌, refl, sym, ap, ◌∙◌, List, [], ◌++◌, false, Option, none,
  some, length,
}
use open_snell.Io.{Conn, Result, ok}
use open_snell.Io.Laws.{send_well}
use open_snell.Socks5.Text.{bytes_eq}
use open_snell.Http.Types.{keep_rest, HttpLib, Tap, ReadsBack}
use open_snell.Http.Client.{HttpClient, Random, new_http_client, client_request, http_client_write}
use open_snell.Http.Server.{HttpServer, new_http_server, http_server_read, http_server_read_by}
use open_snell.Http.Taps.{held, to_come, InBuf, read_buf-Next, read_bio-Next, keep_rest-Next}

-- A `Read` of the server returned the next bytes of `b`, and the first request is behind it.
abbrev pub Reads : ℕ → List ℕ → HttpServer → Result (List ℕ) × HttpServer → Type 0
Reads n b s x =
    (out : List ℕ) × (t : Tap) × (x ≡ (ok out, record s { tap = t; first_request = false }))
    × (out ++ to_come t ≡ b)
    × (0 < length out)
    × (length out ≤ n)
    × InBuf t.buf t.offset

read_by-Reads :
    (lib : HttpLib) (n : ℕ) (s : HttpServer) (o : Option (List ℕ))
    → s.tap.buf ≡ o
    → s.first_request ≡ false
    → InBuf s.tap.buf s.tap.offset
    → 0 < n
    → 0 < length (to_come s.tap)
    → Reads n (to_come s.tap) s (http_server_read_by lib n s o)
unfolding http_server_read_by
read_by-Reads lib n s none e first inside hn more =
    let some_bytes : 0 < length s.tap.conn.input = rw e at more in
    let (out, t, q, whole, lo, hi, kept) = read_bio-Next n s.tap hn e some_bytes in
    (
      out,
      t,
      rw (first, q),
      whole ∙ ap (λ (o : Option (List ℕ)). held o s.tap.offset ++ s.tap.conn.input) (sym e),
      lo,
      hi,
      kept,
    )
read_by-Reads lib n s (some b) e first inside hn more =
    let below : s.tap.offset < length b = rw e at inside in
    let (out, t, q, whole, lo, hi, kept) = read_buf-Next n b s.tap hn below in
    (
      out,
      t,
      rw (first, q),
      whole ∙ ap (λ (o : Option (List ℕ)). held o s.tap.offset ++ s.tap.conn.input) (sym e),
      lo,
      hi,
      kept,
    )

-- While there is something to deliver, every `Read` of the server behind the first request returns the
-- next bytes, one at least and no more than fit, with no error: the rest of the request's body, and
-- then the bytes of the connection.
pub http_server_read-Reads :
    (lib : HttpLib) (n : ℕ) (s : HttpServer)
    → s.first_request ≡ false
    → InBuf s.tap.buf s.tap.offset
    → 0 < n
    → 0 < length (to_come s.tap)
    → Reads n (to_come s.tap) s (http_server_read lib n s)
unfolding http_server_read
http_server_read-Reads lib n s first inside hn more =
    read_by-Reads lib n s s.tap.buf refl first inside hn more

-- On a request that the library reads back, the first `Read` returns the first bytes of its body, one
-- at least where there is one.
pub http_server_read-request :
    (lib : HttpLib) (r : Random) (n : ℕ) (b rest : List ℕ) (hc : HttpClient) (s : Conn)
    → ReadsBack lib (client_request r b hc)
    → 0 < n
    → 0 < length b
    → Reads n
        (b ++ rest)
        (new_http_server (record s { input = lib.write_request (client_request r b hc) ++ rest }))
        (http_server_read lib n (
          new_http_server (record s { input = lib.write_request (client_request r b hc) ++ rest })))
unfolding http_server_read new_http_server client_request bytes_eq
http_server_read-request lib r n b rest hc s law hn hb =
    let (k, heads, body) = law rest s in
    let c' : Conn = record s { input = rest } in
    let tap : Tap = record {
      buf = none;
      offset = 0;
      conn = record s { input = lib.write_request (client_request r b hc) ++ rest };
    } in
    let (out, t, q, whole, lo, hi, kept) = keep_rest-Next n b c' tap hn hb refl in
    (out, t, rw (heads, body, q) refl, whole, lo, hi, kept)

-- On one without a body it returns nothing, and the bytes behind the request are to come.
pub http_server_read-empty :
    (lib : HttpLib) (r : Random) (n : ℕ) (rest : List ℕ) (hc : HttpClient) (s : Conn)
    → ReadsBack lib (client_request r [] hc)
    → let hs =
        new_http_server (record s { input = lib.write_request (client_request r [] hc) ++ rest }) in
      http_server_read lib n hs ≡ (
        ok [],
        record hs {
          tap = record { buf = none; offset = 0; conn = record s { input = rest } };
          first_request = false;
        },
      )
unfolding http_server_read new_http_server client_request bytes_eq keep_rest
http_server_read-empty lib r n rest hc s law =
    let (k, heads, body) = law rest s in
    let nothing : take {A = ℕ} n [] ≡ [] = take_all n [] (omega arith) in
    rw (heads, body, nothing) refl

-- The first `Write` of a client takes all its bytes with no error, and on what it put on the wire the
-- first `Read` of a server returns the first of them, one at least, and leaves the others to come, in
-- front of whatever follows on the wire. The library reads the request back as it was written.
pub http_server_read-http_client_write :
    (lib : HttpLib) (r : Random) (n : ℕ) (b rest host port : List ℕ) (c s : Conn)
    → ReadsBack lib (client_request r b (new_http_client c host port))
    → c.faults ≡ []
    → c.output ≡ []
    → 0 < n
    → 0 < length b
    → let (x, hc) = http_client_write lib r b (new_http_client c host port) in
      (x ≡ (length b, none))
      × Reads n (b ++ rest) (new_http_server (record s { input = hc.tap.conn.output ++ rest })) (
          http_server_read lib n
            (new_http_server (record s { input = hc.tap.conn.output ++ rest })))
unfolding http_client_write new_http_client client_request
http_server_read-http_client_write lib r n b rest host port c s law hf ho hn hb =
    let sent =
      send_well (lib.write_request (client_request r b (new_http_client c host port))) c hf in
    rw (sent, ho)
      (refl, http_server_read-request lib r n b rest (new_http_client c host port) s law hn hb)
