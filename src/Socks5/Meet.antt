-- ===== src/Socks5/Meet.antt =====
-- The two handshakes against one another.
use open_snell.Base.{
  ℕ, ◌≡◌, ◌≢◌, ◌⊎◌, inl, inr, refl, ◌∙◌, List, [], ◌∷◌, ◌++◌, some, arith, length, drop-append,
}
use open_snell.Io.{Conn, ok, err, socks}
use open_snell.Io.Laws.{read_full_enough, write_well}
use open_snell.Socks5.Defs.{Addr, IsAddr, read_addr, max_addr_len}
use open_snell.Socks5.Text.{NetLib, parse_addr}
use open_snell.Socks5.Handshake.{server_handshake, client_handshake}
use open_snell.Socks5.Streams.{read_addr-split_addr}
use open_snell.Socks5.Parse.{parse_addr-IsWhole}
use open_snell.Socks5.Decode.{split_addr-append}

-- What a client sends: its one method, and the request.
abbrev pub requests : ℕ → Addr → List ℕ
requests cmd addr = 5 ∷ 1 ∷ 0 ∷ 5 ∷ cmd ∷ 0 ∷ addr

-- What a server sends: the method that it takes, and the reply with its own address.
abbrev pub replies : Addr → List ℕ
replies local = 5 ∷ 0 ∷ 5 ∷ 0 ∷ 0 ∷ local

read_addr-append :
    (a rest : List ℕ) (c : Conn)
    → IsAddr a
    → read_addr max_addr_len (record c { input = a ++ rest }) ≡ (ok a, record c { input = rest })
read_addr-append a rest c h =
    read_addr-split_addr (record c { input = a ++ rest }) a (split_addr-append a a rest h)
    ∙ rw (drop-append (length a) a rest refl)

server_handshake-requests :
    (lib : NetLib) (local : List ℕ) (s : Conn) (addr la rest : List ℕ) (cmd : ℕ)
    → s.faults ≡ []
    → IsAddr addr
    → parse_addr lib local ≡ some la
    → (cmd ≡ 1) ⊎ (cmd ≡ 3)
    → server_handshake lib local (record s { input = requests cmd addr ++ rest; output = [] })
      ≡ (ok (addr, cmd), record s { input = rest; output = replies la })
unfolding server_handshake
server_handshake-requests lib local s addr la rest cmd hs ha hl hc =
    let told : List ℕ = 5 ∷ 0 ∷ [] in
    rw
      (
        read_full_enough 2 (requests cmd addr ++ rest) (record s { output = [] }) (omega arith),
        read_full_enough 1 (0 ∷ 5 ∷ cmd ∷ 0 ∷ addr ++ rest) (record s { output = [] })
            (omega arith),
        write_well told (record s { input = 5 ∷ cmd ∷ 0 ∷ addr ++ rest; output = [] }) hs,
        read_full_enough 3 (5 ∷ cmd ∷ 0 ∷ addr ++ rest) (record s { output = told }) (omega arith),
        read_addr-append addr rest (record s { output = told }) ha,
        hl,
      )
      (elim hc [
        | inl e ↦ rw (e, write_well (5 ∷ 0 ∷ 0 ∷ la) (record s { input = rest; output = told }) hs)
        | inr e ↦ rw (e, write_well (5 ∷ 0 ∷ 0 ∷ la) (record s { input = rest; output = told }) hs)
      ])

-- A server refuses every other command, BIND included, once it has read the whole request: it
-- returns `ErrCommandNotSupported` and has written no more than its choice of a method.
server_handshake_refuses :
    (lib : NetLib) (local : List ℕ) (s : Conn) (addr rest : List ℕ) (cmd : ℕ)
    → s.faults ≡ []
    → IsAddr addr
    → cmd ≢ 1
    → cmd ≢ 3
    → server_handshake lib local (record s { input = requests cmd addr ++ rest; output = [] })
      ≡ (err (socks 7), record s { input = rest; output = 5 ∷ 0 ∷ [] })
unfolding server_handshake
server_handshake_refuses lib local s addr rest cmd hs ha h1 h3 =
    let told : List ℕ = 5 ∷ 0 ∷ [] in
    rw
      (
        read_full_enough 2 (requests cmd addr ++ rest) (record s { output = [] }) (omega arith),
        read_full_enough 1 (0 ∷ 5 ∷ cmd ∷ 0 ∷ addr ++ rest) (record s { output = [] })
            (omega arith),
        write_well told (record s { input = 5 ∷ cmd ∷ 0 ∷ addr ++ rest; output = [] }) hs,
        read_full_enough 3 (5 ∷ cmd ∷ 0 ∷ addr ++ rest) (record s { output = told }) (omega arith),
        read_addr-append addr rest (record s { output = told }) ha,
      )
      (ground arith)

client_handshake-replies :
    (c : Conn) (addr la more : List ℕ) (cmd : ℕ)
    → c.faults ≡ []
    → IsAddr la
    → client_handshake addr cmd (record c { input = replies la ++ more; output = [] })
      ≡ (ok la, record c { input = more; output = requests cmd addr })
unfolding client_handshake
client_handshake-replies c addr la more cmd hc ha =
    let asked : List ℕ = 5 ∷ 1 ∷ 0 ∷ [] in
    rw (
      write_well asked (record c { input = replies la ++ more; output = [] }) hc,
      read_full_enough 2 (replies la ++ more) (record c { output = asked }) (omega arith),
      write_well (5 ∷ cmd ∷ 0 ∷ addr) (record c { input = 5 ∷ 0 ∷ 0 ∷ la ++ more; output = asked })
          hc,
      read_full_enough 3 (5 ∷ 0 ∷ 0 ∷ la ++ more) (record c { output = requests cmd addr })
          (omega arith),
      read_addr-append la more (record c { output = requests cmd addr }) ha,
    )

-- A client and a server that read what the other one writes, with no fault on either connection,
-- agree: for a well-formed target, a command that is CONNECT or UDP ASSOCIATE, and a local address
-- that `ParseAddr` reads, the server returns the client's target and command, the client returns the
-- server's local address, and each takes exactly the bytes of the handshake.
pub handshakes_meet :
    (lib : NetLib) (local : List ℕ) (s c : Conn) (addr la rest more : List ℕ) (cmd : ℕ)
    → s.faults ≡ []
    → c.faults ≡ []
    → IsAddr addr
    → parse_addr lib local ≡ some la
    → (cmd ≡ 1) ⊎ (cmd ≡ 3)
    → let (rc, c') =
        client_handshake addr cmd (record c { input = replies la ++ more; output = [] }) in
      let (rs, s') =
        server_handshake lib local (record s { input = c'.output ++ rest; output = [] }) in
      (rs ≡ ok (addr, cmd))
      × (s'.input ≡ rest)
      × (s'.output ≡ replies la)
      × (rc ≡ ok la)
      × (c'.input ≡ more)
handshakes_meet lib local s c addr la rest more cmd hs hc ha hl hcmd =
    rw
      (
        client_handshake-replies c addr la more cmd hc (parse_addr-IsWhole lib local la hl).0,
        server_handshake-requests lib local s addr la rest cmd hs ha hl hcmd,
      )
      (refl, refl, refl, refl, refl)
