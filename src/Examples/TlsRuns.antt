-- ===== src/Examples/TlsRuns.antt =====
-- The TLS disguise.
use open_snell.Base.{ℕ, ◌+◌, ◌≡◌, refl, inl, true, false, List, [], ◌∷◌, none, arith, length}
use open_snell.Tls.{TlsServer, TlsClient}
use open_snell.Tls.Hello.{make_client_hello_msg}
use open_snell.Tls.Client.{client_read, client_write, new_tls_client}
use open_snell.Tls.Server.{server_read, server_write, new_tls_server}
use open_snell.Tls.Records.{records}
use open_snell.Tls.Shape.{field_at, client_hello_lengths}
use open_snell.Tls.ServerFlow.{Flow, Delivers, server_read-Flow}
use open_snell.Tls.Sending.{server_read-client_write}
use open_snell.Tls.ClientFlow.{client_read-server_write}
use open_snell.Tls.ClientFlow
use open_snell.Examples.Toys.{idle, drawn, drawn-IsDraw}

abbrev host : List ℕ
host = b'b' ∷ b'i' ∷ b'n' ∷ b'g' ∷ []

-- A server with two bytes of a block to come, and one record of three bytes.
abbrev busy : TlsServer
busy = record {
  conn = idle (1 ∷ 2 ∷ records ((3 ∷ 4 ∷ 5 ∷ []) ∷ []));
  remain = 2;
  first_request = false;
  session_ticket_done = true;
  first_response = true;
}

busy-Flow : Flow busy (1 ∷ 2 ∷ 3 ∷ 4 ∷ 5 ∷ [])
busy-Flow = record {
  left = 1 ∷ 2 ∷ [];
  gap = [];
  ps = (3 ∷ 4 ∷ 5 ∷ []) ∷ [];
  pieces = ((omega arith, omega arith), tt);
  input = refl;
  counted = refl;
  whole = refl;
  begun = refl;
  ticket = inl (refl, refl);
}

server_read-Flow_example : Delivers 8 (1 ∷ 2 ∷ 3 ∷ 4 ∷ 5 ∷ []) (server_read 8 busy)
server_read-Flow_example =
    server_read-Flow 8 busy (1 ∷ 2 ∷ 3 ∷ 4 ∷ 5 ∷ []) (omega arith) (omega arith) busy-Flow

server_read-client_write_example :
    let (r, c') =
      client_write drawn (7 ∷ 8 ∷ []) (new_tls_client (record (idle []) { output = [] }) host) in
    (r ≡ (length {A = ℕ} (7 ∷ 8 ∷ []), none))
    × Delivers 4
        (7 ∷ 8 ∷ [])
        (server_read 4 (new_tls_server (record (idle []) { input = c'.conn.output })))
server_read-client_write_example =
    server_read-client_write 4 7 (8 ∷ []) host drawn (idle []) (idle []) (omega arith) drawn-IsDraw
      (omega arith) refl

client_hello_lengths_example :
    let msg = make_client_hello_msg drawn (7 ∷ 8 ∷ []) host in
    (length msg ≡ 5 + field_at 3 msg) × (length msg ≡ 9 + field_at 7 msg)
client_hello_lengths_example =
    client_hello_lengths drawn (7 ∷ 8 ∷ []) host drawn-IsDraw (omega arith) (omega arith)

-- A client that has written its request and read nothing yet.
abbrev asking : TlsClient
asking = record (new_tls_client (idle []) host) { first_request = false }

client_read-server_write_example :
    let (r, s') = server_write drawn (7 ∷ 8 ∷ []) (new_tls_server (idle [])) in
    (r ≡ (length {A = ℕ} (7 ∷ 8 ∷ []), none))
    × ClientFlow.Delivers 4
        (7 ∷ 8 ∷ [])
        (client_read 4 (record asking { conn = record asking.conn { input = s'.conn.output } }))
unfolding new_tls_server new_tls_client
client_read-server_write_example =
    client_read-server_write 4 7 (8 ∷ []) drawn (new_tls_server (idle [])) asking (omega arith)
      drawn-IsDraw refl refl refl refl refl
