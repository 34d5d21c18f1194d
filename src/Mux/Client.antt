-- ===== src/Mux/Client.antt =====
-- `SnellClient` and its sessions (components/snell/client.go).
use open_snell.Base.{
  ℕ, zero, suc, ◌+◌, List, [], ◌∷◌, ◌++◌, Bool, true, false, Option, none, some, if◌then◌else◌,
  length,
}
use open_snell.Io.{plain, Error, Result, ok, err, panic, app, text, op_error, writing, copying}
use open_snell.Io.Errors.{is_zero_chunk}
use open_snell.Aead.Writer.{hide_eof}
use open_snell.Relay.Steps.{drop_timeout}
use open_snell.Socks5.Text.{NetLib, parse_uint16}
use open_snell.Snell.Header.{write_header}
use open_snell.Snell.Session.{read_reply}
use open_snell.Mux.Link.{
  Link, on_now, advance, drain, write_zero, Cut, whole, stopped, broken, drop_input, copy_in,
}

-- `clientSession`, on a connection with sessions.
pub record Session : Type 0 where
  pub link : Link
  pub reply : Bool

-- The host, or nothing where `net.SplitHostPort` fails.
abbrev pub host_of : Option (List ℕ × List ℕ) → List ℕ
host_of none = []
host_of (some (host, port)) = host

-- `strconv.Atoi` with its error left aside, on a port of at most 65535 that has no sign.
abbrev pub number_of : Option ℕ → ℕ
number_of none = 0
number_of (some n) = n

abbrev pub port_of : Option (List ℕ × List ℕ) → ℕ
port_of none = 0
port_of (some (host, port)) = number_of (parse_uint16 port)

-- `StreamConn(c, target)`
unfoldable pub stream_conn : NetLib → Bool → List ℕ → Session → Result (Unit {0}) × Session
stream_conn lib v2 target s =
    let at = lib.split_host_port target in
    let (r, l) = on_now (write_header (host_of at) (port_of at) v2) s.link in
    (r, record s { link = l })

-- What `client.ReadFrom(target)` of a TCP connection makes of an error.
unfoldable pub copy_error : Option Error → Option Error
copy_error none = none
copy_error (some e) = drop_timeout (some (op_error copying e))

-- The copy out of the session behind its reply, as `copy_out`.
unfoldable pub copy_back : Cut → Link → List ℕ × Option Error × Link
copy_back whole l = (
  l.now.input,
  copy_error (hide_eof l.now.closing),
  advance (record l { now = record l.now { input = [] } }),
)
copy_back (stopped k) l = (open_snell.Base.take k l.now.input, none, drop_input k l)
copy_back (broken k j e) l = (
  open_snell.Base.take j (open_snell.Base.take k l.now.input),
  copy_error (some (op_error writing e)),
  drop_input k l,
)

-- An error of the connection is met once; `clientSession.Read` makes the other two.
unfoldable pub met_reply : Error → Link → Link
met_reply (app n m) l = l
met_reply (text s) l = l
met_reply e l = advance l

unfoldable pub copy_replied : Cut → Result (Unit {0}) × Link → List ℕ × Option Error × Link
unfolding met_reply
copy_replied cut (ok u, l) = copy_back cut l
copy_replied cut (err e, l) = ([], copy_error (hide_eof e), met_reply e l)
copy_replied cut (panic, l) = ([], none, l)

-- The copy out of a new session: `none` is a deadline in front of the reply.
unfoldable pub copy_session : Option Cut → Link → List ℕ × Option Error × Link
unfolding copy_replied
copy_session none l = ([], none, l)
copy_session (some cut) l = copy_replied cut (on_now read_reply l)

-- What a session of the client meets: the bytes of the local connection, and how the copy to it ends.
pub record Local : Type 0 where
  pub up : List ℕ
  pub cut : Option Cut

-- What became of a session: a connection that was closed, or one that went back to the pool.
-- `hung` says that the fuel of a loop ran out.
pub data Fate : Type 0 where
  dropped hung : Fate
  pooled : Session → Fate

-- `DropSession` marks the session, so that `Close` closes the connection.
abbrev pub drop_session : Session → Fate
drop_session s = dropped

-- `PutSession`
unfoldable pub put_session : Bool → Session → Fate
put_session v2 s =
    if v2 then pooled (record s { reply = false }) else drop_session (record s { reply = false })

-- The `switch` on the error of the relay.
unfoldable pub forgive : Option Error → Option Error
forgive (some (op_error writing e)) = none
forgive (some (op_error o (app n m))) = none
forgive el = el

unfoldable pub put_checked : Error × Link → Fate
unfolding put_session
put_checked (e, l) =
    if is_zero_chunk e
    then put_session true (record { link = l; reply = true })
    else drop_session (record { link = l; reply = true })

unfoldable pub await_end : Option Error → Link → Fate
unfolding put_checked
await_end (some e) l = put_checked (e, l)
await_end none l = elim (drain (suc (length l.now.input)) l) [
  | none ↦ hung
  | some r ↦ put_checked r
]

unfoldable pub finish_by : Option Error → Option Error × Link → Fate
unfolding await_end forgive
finish_by er (some e, l) = drop_session (record { link = l; reply = true })
finish_by er (none, l) = await_end (forgive er) l

-- Behind the relay: the zero chunk, the rest up to the server's zero chunk, and `PutSession`.
unfoldable pub finish : Bool → Option Error × Link → Fate
unfolding finish_by put_session
finish v2 (er, l) =
    if v2
    then finish_by er (write_zero l)
    else put_session false (record { link = l; reply = true })

unfoldable pub relay_session : Bool → Local → Result (Unit {0}) × Session → List ℕ × Fate
unfolding copy_session finish
relay_session v2 t (ok u, s) =
    let (down, er, l) = copy_session t.cut (copy_in t.up s.link) in (down, finish v2 (er, l))
relay_session v2 t (err e, s) = ([], drop_session s)
relay_session v2 t (panic, s) = ([], drop_session s)

-- `GetSession` behind `s.pool.Get()`, and the rest of `handleSnell`: the bytes that the local
-- connection gets, and the fate of the session.
unfoldable pub use_session : NetLib → Bool → List ℕ → Local → Session → List ℕ × Fate
unfolding relay_session
use_session lib v2 target t s = relay_session v2 t (stream_conn lib v2 target s)
