-- ===== src/Mux/Halts.antt =====
-- The server's loop ends, whatever the client and the targets do.
use open_snell.Base.{
  ℕ, zero, suc, ◌+◌, ◌≤◌, ◌<◌, ◌≡◌, refl, ap, ◌∙◌, List, [], ◌∷◌, true, false, Option, none, some,
  arith, length, length-drop, ◌==◌, Bool-cases, inl, inr,
}
use open_snell.Io.{plain, Error, Result, ok, err, panic, write}
use open_snell.Io.Errors.{is_zero_chunk}
use open_snell.Io.Laws.{send-input, write-input}
use open_snell.Socks5.Text.{NetLib}
use open_snell.Udp.Forward.{CacheLib, handle_udp_request}
use open_snell.Snell.{
  command_ping, command_connect, command_udp, command_connect_v2, response_tunnel, response_pong,
  response_ready,
}
use open_snell.Snell.Header.{server_handshake}
use open_snell.Snell.Session.{DialError, write_error, report}
use open_snell.Mux.Link.{
  Link, on_now, next_part, closed, advance, write_zero, Cut, whole, stopped, broken, copy_out,
  copy_in, size, parts_size,
}
use open_snell.Mux.Drains.{drain_lem, read_chunks_lem, with_cuts}
use open_snell.Mux.Server.{
  Turn, Served, End, connect_by, connect, tunnel, settle, settle_by, udp_session, udp_session_by,
  forward, datagrams, write_replies, await, again, forget_write, dispatch, serve_one, mux_loop,
  handle_snell,
}
use open_snell.Mux.Takes.{server_handshake-takes}

next_part-size :
    (parts : List (List ℕ × Error)) (l : Link)
    → length l.now.input + parts_size parts ≡ size l
    → size (next_part parts l) ≤ size l
next_part-size [] l h = omega arith
next_part-size ((b, e) ∷ parts) l h = omega arith

advance-size : (l : Link) → size (advance l) ≤ size l
advance-size l = next_part-size l.later l refl

write_now-size : (b : List ℕ) (l : Link) → size (on_now (write b) l).1 ≡ size l
write_now-size b l = omega (arith, ap (λ (i : List ℕ). length i) (write-input b l.now))

copy_in-size : (b : List ℕ) (l : Link) → size (copy_in b l) ≡ size l
unfolding copy_in
copy_in-size [] l = refl
copy_in-size (x ∷ b) l = omega (arith, ap (λ (i : List ℕ). length i) (send-input (x ∷ b) l.now))

copy_out-size : (cut : Cut) (l : Link) → size (copy_out cut l).2 ≤ size l
unfolding copy_out
copy_out-size whole l = omega (arith, advance-size (record l { now = record l.now { input = [] } }))
copy_out-size (stopped k) l = omega (arith, length-drop k l.now.input)
copy_out-size (broken k j e) l = omega (arith, length-drop k l.now.input)

tunnel-size :
    (t : Turn) (target : List ℕ) (x : Result (Unit {0}) × Link)
    → size (tunnel t target x).2 ≤ size x.1
unfolding tunnel
tunnel-size t target (ok u, l) =
    omega (arith, copy_out-size t.cut (copy_in t.down l), copy_in-size t.down l)
tunnel-size t target (err e, l) = omega arith
tunnel-size t target (panic, l) = omega arith

connect_by-size :
    (f : Option DialError) (t : Turn) (target : List ℕ) (l : Link)
    → size (connect_by f t target l).2 ≤ size l
unfolding connect_by write_error
connect_by-size none t target l = omega (
  arith,
  tunnel-size t target (on_now (write (response_tunnel ∷ [])) l),
  write_now-size (response_tunnel ∷ []) l,
)
connect_by-size (some d) t target l = omega (arith, write_now-size (report d) l)

closed-size : (x : Result (Unit {0}) × Link) → size (closed x).1 ≡ size x.1
unfolding closed
closed-size (ok u, l) = refl
closed-size (err e, l) = refl
closed-size (panic, l) = refl

write_zero-size : (l : Link) → size (write_zero l).1 ≡ size l
unfolding write_zero
write_zero-size l = closed-size (on_now (write []) l) ∙ write_now-size [] l

abbrev ended : List Served → Link → End
ended served l = record { served = served; link = l; crashed = false }

-- What every round relies on: the next rounds end on a link that is not larger.
abbrev EndsBelow : ℕ → (Link → Option End) → Type 0
EndsBelow n next = (l : Link) → size l ≤ n → (e : End) × (next l ≡ some e)

again-ends :
    (n : ℕ) (next : Link → Option End) (e : Error) (l : Link)
    → EndsBelow n next
    → size l ≤ n
    → (x : End) × (again next (e, l) ≡ some x)
unfolding again
again-ends n next e l h le = elim (Bool-cases (is_zero_chunk e)) [
  | inl z ↦ let (x, q) = h l le in (x, rw z q)
  | inr z ↦ (ended [] l, rw z)
]

await-ends :
    (n : ℕ) (next : Link → Option End) (el : Option Error) (l : Link)
    → EndsBelow n next
    → size l ≤ n
    → (x : End) × (await next el l ≡ some x)
unfolding await
await-ends n next (some e) l h le = again-ends n next e l h le
await-ends n next none l h le =
    let (cuts, e) = drain_lem (suc (length l.now.input)) l (omega arith) in
    let smaller : size (advance (with_cuts [] cuts l)) ≤ n =
      omega (arith, advance-size (with_cuts [] cuts l)) in
    let (x, q) = again-ends n next l.now.closing (advance (with_cuts [] cuts l)) h smaller in
    (x, rw (await, e) q)

settle_by-ends :
    (n : ℕ) (next : Link → Option End) (el : Option Error) (x : Option Error × Link)
    → EndsBelow n next
    → size x.1 ≤ n
    → (e : End) × (settle_by next el x ≡ some e)
unfolding settle_by
settle_by-ends n next el (some e, l) h le = (ended [] l, refl)
settle_by-ends n next el (none, l) h le = await-ends n next (forget_write el) l h le

settle-ends :
    (n : ℕ) (next : Link → Option End) (s : Served) (el : Option Error) (l : Link)
    → EndsBelow n next
    → size l ≤ n
    → (e : End) × (settle next (s, el, l) ≡ some e)
unfolding settle
settle-ends n next s el l h le =
    let (e, q) = settle_by-ends n next el (write_zero l) h (omega (arith, write_zero-size l)) in
    (record e { served = s ∷ e.served }, rw q)

module _ {C : Type 0} (lib : NetLib) (cache : CacheLib C) where
  forward-ends :
      (t : Turn) (x : Result (Unit {0}) × Link)
      → (y : Served × Link) × (forward lib cache t x ≡ some y)
  unfolding forward
  forward-ends t (ok u, l) =
      let (chunks, q) = read_chunks_lem (suc (length l.now.input)) l (omega arith) in
      (
        (datagrams (handle_udp_request lib cache t.socket chunks), write_replies t.replies l),
        rw q refl,
      )
  forward-ends t (err e, l) = ((datagrams [], l), refl)
  forward-ends t (panic, l) = ((datagrams [], l), refl)

  udp_session-ends :
      (f : Option DialError) (t : Turn) (l : Link)
      → (y : Served × Link) × (udp_session_by lib cache f t l ≡ some y)
  unfolding udp_session_by
  udp_session-ends none t l = forward-ends t (on_now (write (response_ready ∷ [])) l)
  udp_session-ends (some d) t l = ((datagrams [], (on_now (write_error d) l).1), refl)

  dispatch-ends :
      (n : ℕ) (next : Link → Option End) (t : Turn) (target : List ℕ) (command : ℕ) (l : Link)
      → EndsBelow n next
      → size l ≤ n
      → (e : End) × (dispatch lib cache next t target command l ≡ some e)
  unfolding dispatch
  dispatch-ends n next t target command l h le = elim (Bool-cases (command == command_ping)) [
    | inl a ↦ (ended [] (on_now (write (response_pong ∷ [])) l).1, rw a)
    | inr a ↦ elim (Bool-cases (command == command_connect)) [
      | inl b ↦ let x = connect t target l in (ended (x.0 ∷ []) x.2, rw (a, b))
      | inr b ↦ elim (Bool-cases (command == command_udp)) [
        | inl c ↦
            let ((s, l'), q) = udp_session-ends t.failure t l in
            (ended (s ∷ []) l', rw (a, b, c, udp_session, q))
        | inr c ↦ elim (Bool-cases (command == command_connect_v2)) [
          | inl d ↦
              let x = connect_by t.failure t target l in
              let (e, q) =
                settle-ends n next x.0 x.1 x.2 h
                  (omega (arith, connect_by-size t.failure t target l)) in
              (e, rw (a, b, c, d) q)
          | inr d ↦ (ended [] l, rw (a, b, c, d))
        ]
      ]
    ]
  ]

  serve_one-ends :
      (next : Link → Option End) (t : Turn) (x : Result (List ℕ × ℕ) × Link)
      → ((p : List ℕ × ℕ) → x.0 ≡ ok p → EndsBelow (size x.1) next)
      → (e : End) × (serve_one lib cache next t x ≡ some e)
  unfolding serve_one
  serve_one-ends next t (ok (target, command), l) h =
      dispatch-ends (size l) next t target command l (h (target, command) refl) (omega arith)
  serve_one-ends next t (err e, l) h = (ended [] l, refl)
  serve_one-ends next t (panic, l) h = (record { served = []; link = l; crashed = true }, refl)

  mux_loop-ends :
      (fuel : ℕ) (turns : ℕ → Turn) (l : Link)
      → size l < fuel
      → (e : End) × (mux_loop lib cache fuel turns l ≡ some e)
  unfolding mux_loop
  mux_loop-ends zero turns l h = absurd (omega arith)
  mux_loop-ends (suc fuel) turns l h =
      let later = λ (n : ℕ). turns (suc n) in
      let x = on_now (server_handshake lib) l in
      let below = λ (p : List ℕ × ℕ) (e : x.0 ≡ ok p) (m : Link) (hm : size m ≤ size x.1).
        mux_loop-ends fuel later m (
          let both : server_handshake lib l.now ≡ (ok p, x.1.now) = rw (← e) refl in
          omega (arith, hm, server_handshake-takes lib l.now x.1.now p both)) in
      serve_one-ends (mux_loop lib cache fuel later) (turns 0) x below

-- `handleSnell` ends on every connection and with whatever turns the sessions take: the bytes to come,
-- the errors behind them, the faults of the writes, the targets, the UDP sockets and the ends of the
-- relays. In each round that leads to another the handshake takes three bytes; the loop that awaits the
-- client's zero chunk ends at the next error of the stream, and so does the loop of a UDP session.
pub handle_snell_ends :
    {C : Type 0} (lib : NetLib) (cache : CacheLib C) (turns : ℕ → Turn) (l : Link)
    → (e : End) × (handle_snell lib cache turns l ≡ some e)
unfolding handle_snell
handle_snell_ends lib cache turns l = mux_loop-ends lib cache (suc (size l)) turns l (omega arith)
