-- ===== src/Socks5/Listening.antt =====
-- What the listener hands to its callback.
use open_snell.Base.{
  ℕ, ◌≡◌, ◌⊎◌, inl, inr, refl, List, [], ◌∷◌, Option, ◌==◌, Bool-cases, arith, get_or,
}
use open_snell.Io.{Error, Conn, Result, ok, err, panic, Action, bind_result, read_full, write, pure}
use open_snell.Socks5.Defs.{Addr, cmd_connect, cmd_udp_associate, max_addr_len, read_addr}
use open_snell.Socks5.Text.{NetLib, parse_addr}
use open_snell.Socks5.Handshake.{server_handshake, server_reply}
use open_snell.Socks5.Listener.{Handled, closed, held, crashed, called, handled, handle_socks}

-- A result that, where there is one, is as `P` says.
abbrev pub Yields {ℓ} : {A : Type ℓ} → (A → Type 0) → Result A × Conn → Type 0
Yields P (ok a, c) = P a
Yields P (err e, c) = Unit {0}
Yields P (panic, c) = Unit {0}

bind-Yields {ℓ κ} :
    {A : Type ℓ} {B : Type κ} (P : B → Type 0) (x : Result A × Conn) (f : A → Action B)
    → ((a : A) (c : Conn) → Yields P (f a c))
    → Yields P (bind_result x f)
bind-Yields P (ok a, c) f h = h a c
bind-Yields P (err e, c) f h = tt
bind-Yields P (panic, c) f h = tt

abbrev pub IsServed : Addr × ℕ → Type 0
IsServed (target, command) = (command ≡ cmd_connect) ⊎ (command ≡ cmd_udp_associate)

reply-IsServed :
    (target : Addr) (command : ℕ) (local : Option Addr) (c : Conn)
    → Yields IsServed (bind_result (server_reply command local c) (λ u. pure (target, command)))
unfolding server_reply
reply-IsServed target command local c = elim (Bool-cases (command == 1)) [
  | inl e ↦
      bind-Yields IsServed (server_reply command local c) (λ u. pure (target, command))
        (λ u d. inl (ground arith))
  | inr e ↦ elim (Bool-cases (command == 3)) [
    | inl f ↦
        bind-Yields IsServed (server_reply command local c) (λ u. pure (target, command))
          (λ u d. inr (ground arith))
    | inr f ↦ rw (e, f) tt
  ]
]

server_handshake-IsServed :
    (lib : NetLib) (local : List ℕ) (c : Conn) → Yields IsServed (server_handshake lib local c)
unfolding server_handshake
server_handshake-IsServed lib local c = bind-Yields IsServed (read_full 2 c) _ λ greeting c1.
    bind-Yields IsServed (read_full (get_or greeting 1 0) c1) _ λ methods c2.
      bind-Yields IsServed (write (5 ∷ 0 ∷ []) c2) _ λ u c3.
        bind-Yields IsServed (read_full 3 c3) _ λ request c4.
          bind-Yields IsServed (read_addr max_addr_len c4) _
            λ addr c5. reply-IsServed addr (get_or request 1 0) (parse_addr lib local) c5

-- What the handshake came to, by what became of the connection.
abbrev pub Deals : Result (Addr × ℕ) × Conn → Handled → Type 0
Deals x (called target c) = x ≡ (ok (target, cmd_connect), c)
Deals x (held c) =
    (target : Addr) × (d : Conn) × (x ≡ (ok (target, cmd_udp_associate), d))
    × (c ≡ record d { input = [] })
Deals x (closed c) = (e : Error) × (x ≡ (err e, c))
Deals x (crashed c) = x ≡ (panic, c)

handled-Deals : (x : Result (Addr × ℕ) × Conn) → Yields IsServed x → Deals x (handled x)
unfolding handled
handled-Deals (err e, c) served = (e, refl)
handled-Deals (panic, c) served = refl
handled-Deals (ok (target, command), c) (inl connect) = rw connect refl
handled-Deals (ok (target, command), c) (inr udp) = rw udp (target, c, refl, refl)

-- Whatever comes on an accepted connection, `handleSocks` calls back only behind a whole handshake
-- with the command CONNECT, with its target and the connection behind it; it holds the connection to
-- its end behind one with UDP ASSOCIATE, and closes it where the handshake fails; it panics only with
-- the handshake.
pub handle_socks-Deals :
    (lib : NetLib) (local : List ℕ) (c : Conn)
    → Deals (server_handshake lib local c) (handle_socks lib local c)
unfolding handle_socks
handle_socks-Deals lib local c =
    handled-Deals (server_handshake lib local c) (server_handshake-IsServed lib local c)
