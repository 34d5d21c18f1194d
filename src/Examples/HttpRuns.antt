-- ===== src/Examples/HttpRuns.antt =====
-- A request of five bytes, read four at a time.
use open_snell.Http.Answers.{ClientReads, http_client_read-http_server_write}
use open_snell.Base.{
  drop-append, ℕ, ◌≡◌, refl, List, [], ◌∷◌, ◌++◌, true, false, none, some, arith, length, take,
  drop,
}
use open_snell.Io.{Conn, Result, ok, err, eof}
use open_snell.Http.Types.{ReadsEmpty, HttpLib, Head, ReadsBack, codes}
use open_snell.Http.Client.{
  http_client_read, Random, new_http_client, client_request, http_client_write,
}
use open_snell.Http.Server.{
  Stamp, response, http_server_write, HttpServer, new_http_server, http_server_read,
}
use open_snell.Http.Meets.{Reads, http_server_read-Reads, http_server_read-http_client_write}
use open_snell.Http.Taps.{to_come}
use open_snell.Examples.Toys.{idle}

-- A request is the length of its body, in one byte, and the body.
abbrev pub read_length : List ℕ → Conn → Result Head × Conn
read_length [] c = (err eof, c)
read_length (n ∷ rest) c = (
  ok (record { method = codes "GET"; connection = codes "Upgrade"; content_length = n }),
  record c { input = rest },
)

abbrev pub toy_http : HttpLib
toy_http = record {
  write_request = λ r. length r.body ∷ r.body;
  read_request = λ c. read_length c.input c;
  read_body = λ h c.
      (ok (take h.content_length c.input), record c { input = drop h.content_length c.input });
  read_response = λ c. (ok [], c);
}

abbrev pub random : Random
random = record { major = 60; minor = 3; key = 1 ∷ [] }

abbrev body : List ℕ
body = 5 ∷ 6 ∷ 7 ∷ 8 ∷ 9 ∷ []

toy-ReadsBack :
    ReadsBack toy_http (client_request random body (new_http_client (idle []) (1 ∷ []) (2 ∷ [])))
unfolding client_request new_http_client
toy-ReadsBack = λ rest c. (record c { input = body ++ rest }, refl, refl)

http_server_read-http_client_write_example :
    let (x, hc) =
      http_client_write toy_http random body (new_http_client (idle []) (1 ∷ []) (2 ∷ [])) in
    (x ≡ (length body, none))
    × Reads 4
        (body ++ (3 ∷ []))
        (new_http_server (record (idle []) { input = hc.tap.conn.output ++ (3 ∷ []) }))
        (http_server_read toy_http 4
          (new_http_server (record (idle []) { input = hc.tap.conn.output ++ (3 ∷ []) })))
http_server_read-http_client_write_example =
    http_server_read-http_client_write toy_http random 4 body (3 ∷ []) (1 ∷ []) (2 ∷ []) (idle [])
      (idle []) toy-ReadsBack refl refl (omega arith) (omega arith)

abbrev halfway : HttpServer
halfway = record {
  tap = record { buf = some body; offset = 4; conn = idle (3 ∷ []) };
  first_request = false;
  first_response = true;
}

http_server_read-Reads_example :
    Reads 4 (to_come halfway.tap) halfway (http_server_read toy_http 4 halfway)
http_server_read-Reads_example =
    http_server_read-Reads toy_http 4 halfway refl (omega arith) (omega arith) (omega arith)

abbrev pub stamp : Stamp
stamp = record { major = 5; minor = 30; date = b'n' ∷ b'o' ∷ b'w' ∷ []; accept = 1 ∷ 2 ∷ [] }

-- A library that knows the length of the response.
abbrev knowing : HttpLib
knowing = record toy_http {
  read_response = λ c. (ok [], record c { input = drop (length (response stamp)) c.input });
}

knowing-ReadsEmpty : ReadsEmpty knowing (response stamp)
knowing-ReadsEmpty rest c =
    rw (drop-append (length (response stamp)) (response stamp) rest refl) refl

http_client_read-http_server_write_example :
    let (x, hs) = http_server_write stamp body (new_http_server (idle [])) in
    let (r, hc) = http_client_read knowing 4 (
      new_http_client
        (record (idle []) { input = hs.tap.conn.output ++ (3 ∷ []) })
        (1 ∷ [])
        (2 ∷ [])) in
    (x ≡ (length body, none))
    × (r ≡ ok [])
    × ClientReads 4 (body ++ (3 ∷ [])) hc (http_client_read knowing 4 hc)
http_client_read-http_server_write_example =
    http_client_read-http_server_write knowing stamp 4 body (3 ∷ []) (1 ∷ []) (2 ∷ []) (idle [])
      (idle []) knowing-ReadsEmpty refl refl (omega arith) (omega arith)
