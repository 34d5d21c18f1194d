-- ===== src/Examples/LayerRuns.antt =====
-- A request for go:80 through both disguises, and an error that comes back.
use open_snell.Base.{
  ℕ, ◌≡◌, refl, List, [], ◌∷◌, ◌++◌, true, false, none, some, arith, length, take-append,
  drop-append,
}
use open_snell.Io.{ok, err, app}
use open_snell.Snell.Session.{DialError, errno, error_text, cut_text, report, read_reply}
use open_snell.Layers.TlsReplies.{hears}
use open_snell.Layers.Replies.{client_conn, read_reply-through_tls}
use open_snell.Tls.{TlsClient, TlsServer}
use open_snell.Tls.Client.{new_tls_client}
use open_snell.Tls.Server.{new_tls_server}
use open_snell.Http.Types.{ReadsBack}
use open_snell.Http.Client.{HttpClient, client_request, new_http_client}
use open_snell.Http.Server.{HttpServer, new_http_server}
use open_snell.Aead.Stream.{StreamConn, new_conn, new_conn_with_fallback, stream_write}
use open_snell.Socks5.Text.{itoa}
use open_snell.Snell.Header.{header, server_handshake}
use open_snell.Layers.SealedStream.{IsOther}
use open_snell.Layers.TlsEnds.{tls_client_conn, tls_server_conn}
use open_snell.Layers.HttpEnds.{http_client_conn, http_server_conn, asked}
use open_snell.Layers.Through.{server_conn}
use open_snell.Layers.Handshakes.{
  AnyWrite, server_handshake-through_tls, server_handshake-through_http,
}
use open_snell.Examples.Toys.{names_only, tagged, tagged-IsAead, idle, zeros, drawn, drawn-IsDraw}
use open_snell.Examples.StreamRuns.{toy_crypto, toy_cipher, decrypter_toy}
use open_snell.Examples.HttpRuns.{toy_http, random, stamp}

abbrev go : List ℕ
go = b'g' ∷ b'o' ∷ []

abbrev idle_write : {S : Type 0} → AnyWrite S
idle_write b sc = ((0, none), sc)

other : IsOther (tagged 1) (tagged 2)
other = record { even = refl; alike = refl; refused = λ m. refl }

server_handshake-through_tls_example :
    (sc : StreamConn TlsClient) × (t : StreamConn TlsServer) × (stream_write toy_crypto
        ⦃io = tls_client_conn drawn⦄
        (ok (zeros 16))
        (header go 80 false)
        (new_conn (new_tls_client (idle []) go) (toy_cipher 2))
      ≡ some (ok (length (header go 80 false), none), sc))
    × (server_handshake ⦃io = server_conn toy_crypto ⦃io = tls_server_conn drawn⦄ idle_write⦄
          names_only
          (new_conn_with_fallback
            (new_tls_server (record (idle []) { input = sc.conn.conn.output }))
            (toy_cipher 1)
            (toy_cipher 2))
        ≡ (ok (go ++ (b':' ∷ b'8' ∷ b'0' ∷ []), 1), t))
unfolding itoa
server_handshake-through_tls_example =
    server_handshake-through_tls toy_crypto (toy_cipher 1) (toy_cipher 2) (tagged 1) (tagged 2)
      (zeros 16) refl (decrypter_toy 1) (decrypter_toy 2) (tagged-IsAead 1) (tagged-IsAead 2) other
      names_only go go 80 false drawn drawn drawn-IsDraw (idle []) (idle []) idle_write refl refl
      (omega arith) (omega arith) (omega arith)

reads_back : (b : List ℕ) → ReadsBack toy_http (asked toy_http random (1 ∷ []) (2 ∷ []) b)
unfolding client_request
reads_back b rest c = (
  record c { input = b ++ rest },
  refl,
  rw (take-append (length b) b rest refl, drop-append (length b) b rest refl) refl,
)

server_handshake-through_http_example :
    (sc : StreamConn HttpClient) × (t : StreamConn HttpServer) × (stream_write toy_crypto
        ⦃io = http_client_conn toy_http random⦄
        (ok (zeros 16))
        (header go 80 true)
        (new_conn (new_http_client (idle []) (1 ∷ []) (2 ∷ [])) (toy_cipher 1))
      ≡ some (ok (length (header go 80 true), none), sc))
    × (server_handshake
          ⦃io = server_conn toy_crypto ⦃io = http_server_conn toy_http stamp⦄ idle_write⦄ names_only
          (new_conn_with_fallback
            (new_http_server (record (idle []) { input = sc.conn.tap.conn.output }))
            (toy_cipher 1)
            (toy_cipher 2))
        ≡ (ok (go ++ (b':' ∷ b'8' ∷ b'0' ∷ []), 5), t))
unfolding itoa
server_handshake-through_http_example =
    server_handshake-through_http toy_crypto (toy_cipher 1) (toy_cipher 2) (tagged 1) (tagged 2)
      (zeros 16) refl (decrypter_toy 1) (decrypter_toy 2) (tagged-IsAead 1) (tagged-IsAead 2) other
      names_only go 80 true toy_http random stamp (1 ∷ []) (2 ∷ []) reads_back (idle []) (idle [])
      idle_write refl refl (omega arith) (omega arith)

-- A server that has written nothing, and a client that waits for the answer to its request.
abbrev answering : StreamConn TlsServer
answering = new_conn_with_fallback (new_tls_server (idle [])) (toy_cipher 1) (toy_cipher 2)

abbrev waiting : StreamConn TlsClient
waiting = new_conn (record (new_tls_client (idle []) go) { first_request = false }) (toy_cipher 1)

abbrev unreachable : DialError
unreachable = errno 113 (b'n' ∷ b'o' ∷ [])

read_reply-through_tls_example :
    (s' : StreamConn TlsServer) × (c' : StreamConn TlsClient) × (stream_write toy_crypto
        ⦃io = tls_server_conn drawn⦄
        (ok (zeros 16))
        (report unreachable)
        answering
      ≡ some (ok (length (report unreachable), none), s'))
    × (read_reply ⦃io = client_conn toy_crypto ⦃io = tls_client_conn drawn⦄ idle_write⦄
          (record waiting { conn = hears waiting.conn s'.conn })
        ≡ (err (app 0 (cut_text (error_text unreachable))), c'))
unfolding new_conn new_conn_with_fallback new_tls_client new_tls_server
read_reply-through_tls_example =
    read_reply-through_tls toy_crypto (tagged 1) (zeros 16) refl (tagged-IsAead 1) drawn drawn
      unreachable answering waiting idle_write drawn-IsDraw refl refl refl refl (decrypter_toy 1)
      refl refl refl refl (decrypter_toy 1)
