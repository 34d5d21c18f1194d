-- ===== src/Tls/Server.antt =====
-- `TLSObfsServer` of components/simple-obfs/tls/server.go.
use open_snell.Base.{ℕ, ◌+◌, ◌-◌, ◌*◌, List, true, false, Option, not, ltb, if◌then◌else◌, length}
use open_snell.Io.{Conn, Error, Result, ok, err, panic, read_full}
use open_snell.Tls.Types.{Draw, TlsServer}
use open_snell.Tls.Block.{Block, read_block, read_remain}
use open_snell.Tls.Hello.{make_server_hello}
use open_snell.Tls.Writing.{write_loop, still_first}

-- `NewTLSObfsServer`
unfoldable pub new_tls_server : Conn → TlsServer
new_tls_server c = record {
  conn = c;
  remain = 0;
  first_request = true;
  session_ticket_done = false;
  first_response = true;
}

-- `read(b, skipSize)`
server_took : TlsServer → Block → Result (List ℕ) × TlsServer
server_took s b = (b.result, record s { conn = b.conn; remain = b.remain })

skip_last : Result (List ℕ) × TlsServer → Result (List ℕ) × TlsServer
skip_last (ok p, s) = let (r, c) = read_full (4 * 16 + 2) s.conn in (r, record s { conn = c })
skip_last (err e, s) = (err e, s)
skip_last (panic, s) = (panic, s)

-- `skipOtherExts()`: the server name, into a buffer of 256 bytes, and the 66 bytes behind it.
unfoldable pub skip_other_exts : TlsServer → Result (List ℕ) × TlsServer
unfolding server_took skip_last
skip_other_exts s = skip_last (server_took s (read_block 256 7 s.conn))

read_on : ℕ → Result (List ℕ) × TlsServer → Result (List ℕ) × TlsServer
read_on n (ok p, s) = server_took s (read_block n 3 s.conn)
read_on n (err e, s) = (err e, s)
read_on n (panic, s) = (panic, s)

-- `Read(b)` with `len(b) == n`
unfoldable pub server_read : ℕ → TlsServer → Result (List ℕ) × TlsServer
unfolding server_took read_on
server_read n s =
    if ltb 0 s.remain
    then server_took s (read_remain n s.remain s.conn)
    else (if s.first_request
        then server_took (record s { first_request = false }) (read_block n (9 * 16 - 4) s.conn)
        else (if not s.session_ticket_done
            then read_on n (skip_other_exts (record s { session_ticket_done = true }))
            else server_took s (read_block n 3 s.conn)))

-- `Write(b)`
unfoldable pub server_write : Draw → List ℕ → TlsServer → (ℕ × Option Error) × TlsServer
server_write d b s =
    let (r, c) = write_loop (length b) (length b) (make_server_hello d) s.first_response b s.conn in
    (r, record s { conn = c; first_response = still_first s.first_response b })
