-- ===== src/Snell/Connect.antt =====
-- What the server's handshake makes of a request, by the length of the host.
use native.Mathlib.Decide.{ℕ_discrete}
use open_snell.Base.{
  ◌/◌, Bool-cases, ◌==◌, ℕ, ◌+◌, ◌≤◌, ◌<◌, ◌≡◌, ◌≢◌, inl, inr, refl, sym, ◌∙◌, List, [], ◌∷◌, ◌++◌,
  Bool, true, false, arith, length, drop, get_or, length-append, length-drop, take-append,
  append_assoc, get_or-append_right, ltb, lt→ltb, ltb-false, to_byte, to_u16, be16, from_be16,
  if◌then◌else◌,
}
use open_snell.Io.{plain, err, Action, Conn, Result, ok, err, panic, pure, bind_result}
use open_snell.Io.Laws.{read_full_short, short_error-nil, read_full-append, write_to_conn_well}
use open_snell.Socks5.Text.{NetLib, itoa}
use open_snell.Snell.Header.{
  header, write_header, fresh_buf, length-fresh_buf, fill, index, read_target, read_command,
  skip_id, server_handshake,
}

fill-append :
    (buf : List ℕ) (n : ℕ) (xs ys : List ℕ) (c : Conn)
    → length xs ≡ n
    → n ≤ length buf
    → fill buf n (record c { input = xs ++ ys }) ≡ (ok (xs ++ drop n buf), record c { input = ys })
unfolding fill
fill-append buf n xs ys c e h = rw (ltb-false (length buf) n h, read_full-append n xs ys c e)

index_in :
    (buf : List ℕ) (i : ℕ) (c : Conn) → i < length buf → index buf i c ≡ (ok (get_or buf i 0), c)
unfolding index
index_in buf i c h = rw (lt→ltb i (length buf) h)

index_out : (buf : List ℕ) (i : ℕ) (c : Conn) → length buf ≤ i → index buf i c ≡ (panic, c)
unfolding index
index_out buf i c h = rw (ltb-false i (length buf) h)

module _ (lib : NetLib) (buf : List ℕ) (size : length buf ≡ 255) where
  read_target-short :
      (host rest : List ℕ) (hi lo : ℕ) (c : Conn)
      → length host ≤ 253
      → read_target lib buf (length host) (record c { input = host ++ (hi ∷ lo ∷ rest) })
        ≡ (ok (lib.join_host_port host (itoa (from_be16 hi lo))), record c { input = rest })
  unfolding read_target
  read_target-short host rest hi lo c h =
      let n = length host in
      let tail : List ℕ = drop (n + 2) buf in
      let size2 : to_byte (n + 2) ≡ n + 2 = omega arith in
      let size1 : to_byte (n + 1) ≡ n + 1 = omega arith in
      let seam : host ++ (hi ∷ lo ∷ rest) ≡ (host ++ (hi ∷ lo ∷ [])) ++ rest =
        sym (append_assoc host (hi ∷ lo ∷ []) rest) in
      let seam' : (host ++ (hi ∷ lo ∷ [])) ++ tail ≡ host ++ (hi ∷ lo ∷ tail) =
        append_assoc host (hi ∷ lo ∷ []) tail in
      let c' = record c { input = rest } in
      rw (
        size2,
        size1,
        seam,
        fill-append buf (n + 2) (host ++ (hi ∷ lo ∷ [])) rest c
            (length-append host (hi ∷ lo ∷ []) ∙ omega arith) (omega arith),
        seam',
        index_in (host ++ (hi ∷ lo ∷ tail)) n c'
            (omega (arith, length-append host (hi ∷ lo ∷ tail))),
        index_in (host ++ (hi ∷ lo ∷ tail)) (n + 1) c'
            (omega (arith, length-append host (hi ∷ lo ∷ tail))),
        get_or-append_right host (hi ∷ lo ∷ tail) n 0 0 (omega arith),
        get_or-append_right host (hi ∷ lo ∷ tail) (n + 1) 1 0 (omega arith),
        take-append n host (hi ∷ lo ∷ tail) refl,
      )

  read_target-254 :
      (host : List ℕ) (n : ℕ) (inp : List ℕ) (c : Conn)
      → n ≡ 254
      → (read_target lib buf n (record c { input = inp })).0 ≡ panic
  unfolding read_target
  read_target-254 host n inp c e = rw (
    e,
    fill-append buf 0 [] inp c refl (omega arith),
    index_in buf 254 (record c { input = inp }) (omega arith),
    index_out buf 255 (record c { input = inp }) (omega arith),
  )

  read_target-255 :
      (n x : ℕ) (inp : List ℕ) (c : Conn)
      → n ≡ 255
      → (read_target lib buf n (record c { input = x ∷ inp })).0 ≡ panic
  unfolding read_target
  read_target-255 n x inp c e = rw (
    e,
    fill-append buf 1 (x ∷ []) inp c refl (omega arith),
    index_out (x ∷ drop 1 buf) 255 (record c { input = inp }) (omega (arith, length-drop 1 buf)),
  )

-- A request as it stands on the wire, behind the version: a command, a client id, a host and a port.
abbrev pub request : ℕ → List ℕ → List ℕ → List ℕ → List ℕ
request cmd id host rest = 1 ∷ cmd ∷ length id ∷ (id ++ (length host ∷ (host ++ rest)))

-- The handshake up to the byte with the length of the host.
module _ (lib : NetLib) (cmd : ℕ) (id host rest : List ℕ) (c : Conn)
    (id_fits : length id ≤ 255) where
  skip_id-append :
      (buf inp : List ℕ)
      → length buf ≡ 255
      → (buf' : List ℕ) × (length buf' ≡ 255)
        × (skip_id (length id) buf (record c { input = id ++ inp })
            ≡ (ok buf', record c { input = inp }))
  unfolding skip_id
  skip_id-append buf inp size = elim (Bool-cases (ltb 0 (length id))) [
    | inl some_id ↦ (
      id ++ drop (length id) buf,
      omega (arith, length-append id (drop (length id) buf), length-drop (length id) buf),
      rw some_id (fill-append buf (length id) id inp c refl (omega arith)),
    )
    | inr no_id ↦ (buf, size, rw no_id (empty id no_id))
  ]
    where
      empty :
          (l : List ℕ)
          → ltb 0 (length l) ≡ false
          → ◌≡◌ {A = Result (List ℕ) × Conn}
              (ok buf, record c { input = l ++ inp })
              (ok buf, record c { input = inp })
      empty [] e = refl
      empty (x ∷ l) e = absurd (ground arith)

  handshake_reaches_target :
      cmd ≢ 6
      → (buf : List ℕ) × (length buf ≡ 255)
        × (server_handshake lib (record c { input = request cmd id host rest })
            ≡ bind_result
                (read_target lib buf (length host) (record c { input = host ++ rest }))
                (λ target. pure (target, cmd)))
  unfolding server_handshake read_command
  handshake_reaches_target ne =
      let buf0 : List ℕ = 1 ∷ cmd ∷ length id ∷ drop 3 fresh_buf in
      let inp : List ℕ = length host ∷ (host ++ rest) in
      let size0 : length buf0 ≡ 255 = omega (arith, length-drop 3 fresh_buf, length-fresh_buf) in
      let (buf1, size1, skipped) = skip_id-append buf0 inp size0 in
      let ne' : (cmd == 6) ≡ false = ground arith in
      (
        length host ∷ drop 1 buf1,
        omega (arith, length-drop 1 buf1),
        rw (
          fill-append fresh_buf 3 (1 ∷ cmd ∷ length id ∷ []) (id ++ inp) c refl
              (omega (arith, length-fresh_buf)),
          skipped,
          ne',
          fill-append buf1 1 (length host ∷ []) (host ++ rest) c refl (omega arith),
        ),
      )

bind_panic {ℓ κ} :
    {A : Type ℓ} {B : Type κ} (r : Result A × Conn) (f : A → Action B)
    → r.0 ≡ panic
    → (bind_result r f).0 ≡ panic
bind_panic (ok a, c) f e = cc
bind_panic (err e', c) f e = cc
bind_panic (panic, c) f e = refl

-- A complete request whose host has at most 253 bytes is understood: the server returns the host and
-- the port that were sent, whatever the client id, and takes exactly the request. The command is any
-- but UDP.
pub server_handshake-request :
    (lib : NetLib) (cmd : ℕ) (id host rest : List ℕ) (hi lo : ℕ) (c : Conn)
    → length id ≤ 255
    → cmd ≢ 6
    → length host ≤ 253
    → server_handshake lib (record c { input = request cmd id host (hi ∷ lo ∷ rest) })
      ≡ (ok (lib.join_host_port host (itoa (from_be16 hi lo)), cmd), record c { input = rest })
server_handshake-request lib cmd id host rest hi lo c hid ne h =
    let (buf, size, e) = handshake_reaches_target lib cmd id host (hi ∷ lo ∷ rest) c hid ne in
    rw (e, read_target-short lib buf size host rest hi lo c h)

-- On a host of 254 or 255 bytes the same request makes the server panic, whatever follows the host:
-- `hlen+2` and `hlen+1` wrap round in a byte, or `buf[hlen]` lies behind the 255 bytes of the buffer.
pub server_handshake_panics :
    (lib : NetLib) (cmd : ℕ) (id host rest : List ℕ) (c : Conn)
    → length id ≤ 255
    → cmd ≢ 6
    → 254 ≤ length host
    → length host ≤ 255
    → (server_handshake lib (record c { input = request cmd id host rest })).0 ≡ panic
server_handshake_panics lib cmd id [] rest c hid ne lo hi = absurd (omega arith)
server_handshake_panics lib cmd id (x ∷ host) rest c hid ne lo hi =
    let (buf, size, e) = handshake_reaches_target lib cmd id (x ∷ host) rest c hid ne in
    let n : ℕ = length (x ∷ host) in
    let stops : (read_target lib buf n (record c { input = x ∷ (host ++ rest) })).0 ≡ panic =
      elim (ℕ_discrete n 254) [
        | yes p ↦ read_target-254 lib buf size [] n (x ∷ (host ++ rest)) c p
        | no p ↦ read_target-255 lib buf size n x (host ++ rest) c (omega arith)
      ] in
    rw e (
      bind_panic (read_target lib buf n (record c { input = x ∷ (host ++ rest) }))
        (λ target. pure (target, cmd)) stops)

-- At the end of the stream the handshake fails with the error there.
pub server_handshake-eof :
    (lib : NetLib) (c : Conn)
    → server_handshake lib (record c { input = [] }) ≡ (err c.closing, record c { input = [] })
unfolding server_handshake fill
server_handshake-eof lib c = rw (
  ltb-false (length fresh_buf) 3 (omega (arith, length-fresh_buf)),
  read_full_short 3 [] c (omega arith),
  short_error-nil,
)

port_eq :
    (port : ℕ)
    → port < 65536
    → from_be16 (to_byte (to_u16 port / 256)) (to_byte (to_u16 port)) ≡ port
port_eq port hp = omega arith

-- What the buffer of `WriteHeader` holds is understood.
pub server_handshake-header :
    (lib : NetLib) (host rest : List ℕ) (port : ℕ) (v2 : Bool) (s : Conn)
    → length host ≤ 253
    → port < 65536
    → server_handshake lib (record s { input = header host port v2 ++ rest })
      ≡ (ok (lib.join_host_port host (itoa port), if v2 then 5 else 1), record s { input = rest })
unfolding header
server_handshake-header lib host rest port true s h hp =
    let len : to_byte (length host) ≡ length host = omega arith in
    rw (
      len,
      append_assoc host (be16 (to_u16 port)) rest,
      server_handshake-request lib 5 [] host rest _ _ s (omega arith) (omega arith) h,
      port_eq port hp,
    )
server_handshake-header lib host rest port false s h hp =
    let len : to_byte (length host) ≡ length host = omega arith in
    rw (
      len,
      append_assoc host (be16 (to_u16 port)) rest,
      server_handshake-request lib 1 [] host rest _ _ s (omega arith) (omega arith) h,
      port_eq port hp,
    )

-- `WriteHeader` and `ServerHandshake`: for a host of at most 253 bytes and a 16-bit port, the server
-- reads from what the client wrote the host, the port in decimal, and the CONNECT command of the
-- client's version, and leaves what follows.
pub server_handshake-write_header :
    (lib : NetLib) (host rest : List ℕ) (port : ℕ) (v2 : Bool) (c s : Conn)
    → c.faults ≡ []
    → length host ≤ 253
    → port < 65536
    → let (r, c') = write_header host port v2 (record c { output = [] }) in
      (r ≡ ok tt)
      × (server_handshake lib (record s { input = c'.output ++ rest }) ≡ (
        ok (lib.join_host_port host (itoa port), if v2 then 5 else 1),
        record s { input = rest },
      ))
unfolding write_header
server_handshake-write_header lib host rest port v2 c s hc h hp =
    rw (write_to_conn_well (header host port v2) (record c { output = [] }) hc)
      (refl, server_handshake-header lib host rest port v2 s h hp)
