-- ===== src/Examples/SnellRuns.antt =====
-- Request headers, and the first bytes of a reply.
use open_snell.Base.{ℕ, ◌≡◌, refl, true, false, List, [], ◌∷◌, ◌++◌, arith}
use open_snell.Io.{plain, ok, err, app}
use open_snell.Socks5.Text.{itoa}
use open_snell.Snell.Header.{write_header, server_handshake}
use open_snell.Snell.Connect.{server_handshake-write_header}
use open_snell.Snell.Session.{session_read, DialError, errno, cut_text, error_text, write_error}
use open_snell.Snell.Reply.{session_read-write_error}
use open_snell.Examples.Toys.{names_only, idle}

abbrev host : List ℕ
host = b'g' ∷ b'o' ∷ b'.' ∷ b'd' ∷ b'e' ∷ b'v' ∷ []

server_handshake-write_header_example :
    let (r, c') = write_header host 443 true (record (idle []) { output = [] }) in
    (r ≡ ok tt)
    × (server_handshake names_only (record (idle []) { input = c'.output ++ (9 ∷ []) })
        ≡ (ok (names_only.join_host_port host (itoa 443), 5), record (idle []) { input = 9 ∷ [] }))
server_handshake-write_header_example =
    server_handshake-write_header names_only host (9 ∷ []) 443 true (idle []) (idle []) refl
      (omega arith) (omega arith)

abbrev refusal : DialError
refusal = errno 111 (b'n' ∷ b'o' ∷ [])

session_read-write_error_example :
    let (r, s') = write_error refusal (record (idle []) { output = [] }) in
    (r ≡ ok tt)
    × (session_read 64
          (record { conn = record (idle []) { input = s'.output ++ (9 ∷ []) }; reply = false })
        ≡ (
          err (app 0 (cut_text (error_text refusal))),
          record { conn = record (idle []) { input = 9 ∷ [] }; reply = true },
        ))
session_read-write_error_example =
    session_read-write_error 64 refusal (9 ∷ []) (idle []) (idle []) refl
