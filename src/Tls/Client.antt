-- ===== src/Tls/Client.antt =====
-- `TLSObfsClient` of components/simple-obfs/tls/client.go.
use open_snell.Base.{ℕ, List, Bool, true, false, Option, ltb, if◌then◌else◌, length}
use open_snell.Io.{Conn, Error, Result}
use open_snell.Tls.Types.{Draw, TlsClient}
use open_snell.Tls.Block.{Block, read_block, read_remain}
use open_snell.Tls.Hello.{make_client_hello_msg}
use open_snell.Tls.Writing.{write_loop, still_first}

-- `NewTLSObfsClient`
unfoldable pub new_tls_client : Conn → List ℕ → TlsClient
new_tls_client c server = record {
  conn = c;
  server = server;
  remain = 0;
  first_request = true;
  first_response = true;
}

client_took : TlsClient → Bool → Block → Result (List ℕ) × TlsClient
client_took s first b =
    (b.result, record s { conn = b.conn; remain = b.remain; first_response = first })

-- `Read(b)` with `len(b) == n`
unfoldable pub client_read : ℕ → TlsClient → Result (List ℕ) × TlsClient
unfolding client_took
client_read n s =
    if ltb 0 s.remain
    then client_took s s.first_response (read_remain n s.remain s.conn)
    else (if s.first_response
        then client_took s false (read_block n 105 s.conn)
        else client_took s false (read_block n 3 s.conn))

-- `Write(b)`
unfoldable pub client_write : Draw → List ℕ → TlsClient → (ℕ × Option Error) × TlsClient
client_write d b s =
    let (r, c) =
      write_loop (length b) (length b) (λ p. make_client_hello_msg d p s.server) s.first_request b
        s.conn in
    (r, record s { conn = c; first_request = still_first s.first_request b })
