-- ===== src/Http/Answers.antt =====
-- The client reads what the server wrote.
use open_snell.Base.{
  length-append, ℕ, ◌≤◌, ◌<◌, ◌≡◌, refl, List, [], ◌++◌, append_assoc, false, none, arith, length,
  take, take_all,
}
use open_snell.Io.{Conn, Result, ok}
use open_snell.Io.Laws.{send_well}
use open_snell.Http.Types.{HttpLib, Tap, ReadsEmpty, keep_rest}
use open_snell.Http.Client.{
  HttpClient, new_http_client, http_client_read, http_client_read_by, upgraded,
}
use open_snell.Http.Server.{Stamp, new_http_server, http_server_write, answered_first, response}
use open_snell.Http.Taps.{to_come, InBuf, read_bio-Next}

-- A client on a connection, behind the response.
abbrev pub upgraded_client : HttpClient → Conn → HttpClient
upgraded_client s c = record s { tap = record s.tap { conn = c }; first_response = false }

write_first :
    (p : Stamp) (b : List ℕ) (s : Conn)
    → s.faults ≡ []
    → s.output ≡ []
    → let (x, hs) = http_server_write p b (new_http_server s) in
      (x ≡ (length b, none)) × (hs.tap.conn.output ≡ response p ++ b) × (hs.first_response ≡ false)
unfolding http_server_write answered_first new_http_server
write_first p b s hf ho =
    let first = send_well (response p) s hf in
    let second = send_well b (record s { output = response p }) hf in
    rw (first, ho, second) (refl, refl, refl)

read_first :
    (lib : HttpLib) (n : ℕ) (p : Stamp) (b host port : List ℕ) (c : Conn)
    → ReadsEmpty lib (response p)
    → http_client_read lib n (new_http_client (record c { input = response p ++ b }) host port)
      ≡ (ok [], upgraded_client (new_http_client c host port) (record c { input = b }))
unfolding http_client_read http_client_read_by upgraded new_http_client keep_rest
read_first lib n p b host port c law =
    let opened = law b c in
    let nothing : take {A = ℕ} n [] ≡ [] = take_all n [] (omega arith) in rw (opened, nothing) refl

-- A `Read` of the client returned the next bytes of `b`.
abbrev pub ClientReads : ℕ → List ℕ → HttpClient → Result (List ℕ) × HttpClient → Type 0
ClientReads n b s x =
    (out : List ℕ) × (t : Tap) × (x ≡ (ok out, record s { tap = t }))
    × (out ++ to_come t ≡ b)
    × (0 < length out)
    × (length out ≤ n)
    × InBuf t.buf t.offset

read_next :
    (lib : HttpLib) (n : ℕ) (host port : List ℕ) (c : Conn)
    → 0 < n
    → 0 < length c.input
    → ClientReads n c.input
        (upgraded_client (new_http_client c host port) c)
        (http_client_read lib n (upgraded_client (new_http_client c host port) c))
unfolding http_client_read http_client_read_by new_http_client
read_next lib n host port c hn more =
    let (out, t, q, whole, lo, hi, inside) =
      read_bio-Next n (record { buf = none; offset = 0; conn = c }) hn refl more in
    (out, t, rw q refl, whole, lo, hi, inside)

-- The first `Write` of a server takes all its bytes with no error, and on what it put on the wire the
-- first `Read` of a client returns no bytes and no error, as the response has no body; the second
-- `Read` returns the first of the server's bytes, one at least, and leaves the others to come, in
-- front of whatever follows on the wire. The library reads such a response as one without a body.
pub http_client_read-http_server_write :
    (lib : HttpLib) (p : Stamp) (n : ℕ) (b rest host port : List ℕ) (c s : Conn)
    → ReadsEmpty lib (response p)
    → s.faults ≡ []
    → s.output ≡ []
    → 0 < n
    → 0 < length b
    → let (x, hs) = http_server_write p b (new_http_server s) in
      let (r, hc) =
        http_client_read lib n
          (new_http_client (record c { input = hs.tap.conn.output ++ rest }) host port) in
      (x ≡ (length b, none))
      × (r ≡ ok [])
      × ClientReads n (b ++ rest) hc (http_client_read lib n hc)
unfolding new_http_client
http_client_read-http_server_write lib p n b rest host port c s law hf ho hn hb =
    let (e, out, behind) = write_first p b s hf ho in
    rw (out, append_assoc (response p) b rest, read_first lib n p (b ++ rest) host port c law)
      (
        e,
        refl,
        read_next lib n host port (record c { input = b ++ rest }) hn
            (omega (arith, length-append b rest)),
      )
