-- ===== src/Mux/Server.antt =====
-- `SnellServer.handleSnell`: the sessions of one connection, one behind the other.
use open_snell.Base.{
  ℕ, zero, suc, List, [], ◌∷◌, Bool, true, false, Option, none, some, ◌==◌, if◌then◌else◌, length,
}
use open_snell.Io.{plain, Error, Result, ok, err, panic, write}
use open_snell.Io.Errors.{is_zero_chunk, is_write_op}
use open_snell.Socks5.Text.{NetLib}
use open_snell.Snell.{
  command_ping, command_connect, command_connect_v2, command_udp, response_tunnel, response_ready,
  response_pong,
}
use open_snell.Snell.Header.{server_handshake}
use open_snell.Snell.Session.{DialError, write_error}
use open_snell.Udp.Forward.{Datagram, CacheLib, Socket, handle_udp_request}
use open_snell.Udp.Ingress.{ingress_reply}
use open_snell.Mux.Link.{
  Link, on_now, link_read, relay_buffer_size, drain, write_zero, Cut, copy_out, copy_in, size,
}

-- What one session meets outside: whether `net.Dial` or `net.ListenPacket` fails, how the copy to the
-- target ends, the bytes that come from it; and the UDP socket, with the datagrams that come there.
pub record Turn : Type 0 where
  pub failure : Option DialError
  pub cut : Cut
  pub down : List ℕ
  pub socket : Socket
  pub replies : List (List ℕ × ℕ × List ℕ)

-- What a session did outside: the bytes that went to a target, a target that could not be reached, or
-- the datagrams that went out.
pub data Served : Type 0 where
  tunnelled : List ℕ → List ℕ → Served
  unreachable : List ℕ → Served
  datagrams : List Datagram → Served

-- Where `handleSnell` ends. A crash is a panic, which nothing recovers.
pub record End : Type 0 where
  pub served : List Served
  pub link : Link
  pub crashed : Bool

abbrev pub stop : Link → Option End
stop l = some (record { served = []; link = l; crashed = false })

abbrev pub note : Served → Option End → Option End
note s none = none
note s (some e) = some (record e { served = s ∷ e.served })

abbrev pub failure_of : Result (Unit {0}) → Option Error
failure_of (ok u) = none
failure_of (err e) = some e
failure_of panic = none

-- `conn.Write([]byte{ResponseTunnel})`, and `utils.Relay(conn, tc)` unless it fails.
unfoldable pub tunnel : Turn → List ℕ → Result (Unit {0}) × Link → Served × Option Error × Link
tunnel turn target (ok u, l) =
    let (up, el, l') = copy_out turn.cut (copy_in turn.down l) in (tunnelled target up, el, l')
tunnel turn target (err e, l) = (tunnelled target [], some e, l)
tunnel turn target (panic, l) = (tunnelled target [], none, l)

unfoldable pub connect_by : Option DialError → Turn → List ℕ → Link → Served × Option Error × Link
unfolding tunnel
connect_by none turn target l = tunnel turn target (on_now (write (response_tunnel ∷ [])) l)
connect_by (some d) turn target l =
    let (r, l') = on_now (write_error d) l in (unreachable target, failure_of r, l')

-- From `net.Dial` to the end of the relay: the session, `el` and the connection.
unfoldable pub connect : Turn → List ℕ → Link → Served × Option Error × Link
unfolding connect_by
connect turn target l = connect_by turn.failure turn target l

-- `if e.Op == "write" { el = nil }`
unfoldable pub forget_write : Option Error → Option Error
forget_write none = none
forget_write (some e) = if is_write_op e then none else some e

-- The next session, if `el` is the zero chunk of this one.
unfoldable pub again : (Link → Option End) → Error × Link → Option End
again next (e, l) = if is_zero_chunk e then next l else stop l

unfoldable pub await : (Link → Option End) → Option Error → Link → Option End
unfolding again
await next (some e) l = again next (e, l)
await next none l = elim (drain (suc (length l.now.input)) l) [
  | none ↦ none
  | some r ↦ again next r
]

unfoldable pub settle_by : (Link → Option End) → Option Error → Option Error × Link → Option End
unfolding await forget_write
settle_by next el (some e, l) = stop l
settle_by next el (none, l) = await next (forget_write el) l

-- Behind a session of version 2: the zero chunk, and the rest of what the client sends, up to its own.
unfoldable pub settle : (Link → Option End) → Served × Option Error × Link → Option End
unfolding settle_by
settle next (s, el, l) = note s (settle_by next el (write_zero l))

abbrev pub with_chunk : List ℕ → Option (List (List ℕ)) → Option (List (List ℕ))
with_chunk p none = none
with_chunk p (some ps) = some (p ∷ ps)

unfoldable pub read_chunks_on :
    (Link → Option (List (List ℕ))) → Result (List ℕ) × Link → Option (List (List ℕ))
read_chunks_on next (ok p, l) = with_chunk p (next l)
read_chunks_on next (err e, l) = some []
read_chunks_on next (panic, l) = none

-- What the `conn.Read`s of `handleUDPRequest` return up to the first error, behind which the loop
-- breaks; `none` means that the fuel ran out.
unfoldable pub read_chunks : ℕ → Link → Option (List (List ℕ))
unfolding read_chunks_on
read_chunks zero l = none
read_chunks (suc fuel) l = read_chunks_on (read_chunks fuel) (link_read relay_buffer_size l)

-- The writes of `handleUDPIngress`, up to the first error.
unfoldable pub write_replies_on : (Link → Link) → Result (Unit {0}) × Link → Link
write_replies_on next (ok u, l) = next l
write_replies_on next (err e, l) = l
write_replies_on next (panic, l) = l

unfoldable pub write_replies : List (List ℕ × ℕ × List ℕ) → Link → Link
unfolding write_replies_on
write_replies [] l = l
write_replies ((ip, port, payload) ∷ rest) l =
    write_replies_on (write_replies rest) (on_now (write (ingress_reply ip port payload)) l)

module _ {C : Type 0} (lib : NetLib) (cache : CacheLib C) where
  abbrev pub forwarded : Turn → Link → Option (List (List ℕ)) → Option (Served × Link)
  forwarded turn l none = none
  forwarded turn l (some chunks) =
      some
        (datagrams (handle_udp_request lib cache turn.socket chunks), write_replies turn.replies l)

  unfoldable pub forward : Turn → Result (Unit {0}) × Link → Option (Served × Link)
  unfolding write_replies read_chunks
  forward turn (ok u, l) = forwarded turn l (read_chunks (suc (length l.now.input)) l)
  forward turn (err e, l) = some (datagrams [], l)
  forward turn (panic, l) = some (datagrams [], l)

  unfoldable pub udp_session_by : Option DialError → Turn → Link → Option (Served × Link)
  unfolding forward
  udp_session_by none turn l = forward turn (on_now (write (response_ready ∷ [])) l)
  udp_session_by (some d) turn l = some (datagrams [], (on_now (write_error d) l).1)

  -- `s.handleUDPRequest(conn)`: what goes out, and the connection with what was written to it. The
  -- connection is closed behind it. `none` means that the loop did not end.
  unfoldable pub udp_session : Turn → Link → Option (Served × Link)
  unfolding udp_session_by
  udp_session turn l = udp_session_by turn.failure turn l

  abbrev pub udp_end : Option (Served × Link) → Option End
  udp_end none = none
  udp_end (some (s, l)) = note s (stop l)

  unfoldable pub dispatch : (Link → Option End) → Turn → List ℕ → ℕ → Link → Option End
  unfolding connect settle udp_session
  dispatch next turn target command l =
      if command == command_ping
      then stop (on_now (write (response_pong ∷ [])) l).1
      else (if command == command_connect
          then (let (s, el, l') = connect turn target l in note s (stop l'))
          else (if command == command_udp
              then udp_end (udp_session turn l)
              else (if command == command_connect_v2
                  then settle next (connect turn target l)
                  else stop l)))

  unfoldable pub serve_one : (Link → Option End) → Turn → Result (List ℕ × ℕ) × Link → Option End
  unfolding dispatch
  serve_one next turn (ok (target, command), l) = dispatch next turn target command l
  serve_one next turn (err e, l) = stop l
  serve_one next turn (panic, l) = some (record { served = []; link = l; crashed = true })

  -- The loop; `none` means that the fuel ran out.
  unfoldable pub mux_loop : ℕ → (ℕ → Turn) → Link → Option End
  unfolding serve_one
  mux_loop zero turns l = none
  mux_loop (suc fuel) turns l =
      serve_one (mux_loop fuel (λ n. turns (suc n))) (turns 0) (on_now (server_handshake lib) l)

  -- `handleSnell(conn)`. Each round but the last reads three bytes at least.
  unfoldable pub handle_snell : (ℕ → Turn) → Link → Option End
  unfolding mux_loop
  handle_snell turns l = mux_loop (suc (size l)) turns l
