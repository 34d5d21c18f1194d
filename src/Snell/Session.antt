-- ===== src/Snell/Session.antt =====
-- The first bytes of a reply: `clientSession.Read` (components/snell/client.go) and
-- `SnellServer.writeError` (components/snell/server.go).
use open_snell.Base.{
  ℕ, List, ◌∷◌, Bool, true, not, ltb, ◌==◌, if◌then◌else◌, length, get_or, take, to_byte,
}
use open_snell.Io.{
  Conn, Result, Action, ActionOn, NetConn, plain, pure, fail, text, app, ◌>>=◌, ◌>>◌, read, write,
}
use open_snell.Snell.Defs.{response_tunnel, response_error}

pub record ClientSession : Type 0 where
  pub conn : Conn
  pub reply : Bool

-- The bytes behind `ResponseError`: a code, which is dropped, and a message with its length.
unfoldable pub read_report : {S : Type 0} ⦃io : NetConn S⦄ → ActionOn S (Unit {0})
read_report ⦃io⦄ = do
  io.read_full 1
  l ← io.read_full 1
  msg ← io.read_full (get_or l 0 0)
  fail (app 0 msg)

unfoldable pub check_reply : {S : Type 0} ⦃io : NetConn S⦄ → ℕ → ActionOn S (Unit {0})
unfolding read_report
check_reply code =
    if code == response_tunnel
    then pure tt
    else (if not (code == response_error) then fail (text "Command not support") else read_report)

-- The first `Read` of a session up to `s.Conn.Read(b)`.
unfoldable pub read_reply : {S : Type 0} ⦃io : NetConn S⦄ → ActionOn S (Unit {0})
unfolding check_reply
read_reply ⦃io⦄ = do b ← io.read_full 1; check_reply (get_or b 0 0)

back : Bool → Result (List ℕ) × Conn → Result (List ℕ) × ClientSession
back reply (r, c) = (r, record { conn = c; reply = reply })

-- `clientSession.Read(b)` with `len(b) == n`
unfoldable pub session_read : ℕ → ClientSession → Result (List ℕ) × ClientSession
unfolding read_reply back
session_read n s =
    if s.reply then back true (read n s.conn) else back true ((read_reply >> read n) s.conn)

-- An error of `net.Dial` or `net.ListenPacket`, with its text: a `syscall.Errno`, or any other.
pub data DialError : Type 0 where
  errno : ℕ → List ℕ → DialError
  other : List ℕ → DialError

unfoldable pub error_code : DialError → ℕ
error_code (errno e s) = to_byte e
error_code (other s) = 0

unfoldable pub error_text : DialError → List ℕ
error_text (errno e s) = s
error_text (other s) = s

-- `es[0:250]` of a longer text
unfoldable pub cut_text : List ℕ → List ℕ
cut_text es = if ltb 250 (length es) then take 250 es else es

-- What `writeError` puts into its buffer.
unfoldable pub report : DialError → List ℕ
unfolding error_code error_text cut_text
report e =
    response_error
    ∷ error_code e
    ∷ to_byte (length (cut_text (error_text e)))
    ∷ cut_text (error_text e)

-- `SnellServer.writeError(conn, err)`
unfoldable pub write_error : DialError → Action (Unit {0})
write_error e = write (report e)
