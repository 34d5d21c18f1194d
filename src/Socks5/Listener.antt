-- ===== src/Socks5/Listener.antt =====
-- components/socks5/server.go: the accept loop of `NewSocksProxy`, and `handleSocks`.
use open_snell.Base.{ℕ, List, [], ◌∷◌, Bool, true, false, All, ◌==◌, if◌then◌else◌}
use open_snell.Io.{Conn, Result, ok, err, panic}
use open_snell.Socks5.Defs.{Addr, cmd_udp_associate}
use open_snell.Socks5.Text.{NetLib}
use open_snell.Socks5.Handshake.{server_handshake}

-- What `l.Accept()` returns: a connection, or an error with the flag `closed` at that time.
pub data Accept {ℓ} (A : Type ℓ) : Type ℓ where
  accepted : A → Accept A
  failed : Bool → Accept A

-- The connections that goroutines get, of what `Accept` returned so far. The loop ends at an error
-- behind `Close`, and goes on behind any other.
unfoldable pub accept_loop {ℓ κ} : {A : Type ℓ} {B : Type κ} → (A → B) → List (Accept A) → List B
accept_loop serve [] = []
accept_loop serve (accepted c ∷ more) = serve c ∷ accept_loop serve more
accept_loop serve (failed closed ∷ more) =
    let rest = accept_loop serve more in if closed then [] else rest

-- What holds for every connection that is served holds for those that the loop serves.
pub accept_loop-All {ℓ κ} :
    {A : Type ℓ} {B : Type κ} (P : B → Type 0) (serve : A → B) (accepts : List (Accept A))
    → ((a : A) → P (serve a))
    → All P (accept_loop serve accepts)
unfolding accept_loop
accept_loop-All P serve [] h = tt
accept_loop-All P serve (accepted c ∷ more) h = (h c, accept_loop-All P serve more h)
accept_loop-All P serve (failed true ∷ more) h = tt
accept_loop-All P serve (failed false ∷ more) h = accept_loop-All P serve more h

-- What `handleSocks` does with a connection: it closes it, it reads it to the end and then closes it,
-- it hands it to the callback, or it panics.
pub data Handled : Type 0 where
  closed held crashed : Conn → Handled
  called : Addr → Conn → Handled

unfoldable pub handled : Result (Addr × ℕ) × Conn → Handled
handled (err e, c) = closed c
handled (panic, c) = crashed c
handled (ok (target, command), c) =
    if command == cmd_udp_associate then held (record c { input = [] }) else called target c

-- `handleSocks(conn, cb)` on a connection whose `LocalAddr().String()` is `local`.
unfoldable pub handle_socks : NetLib → List ℕ → Conn → Handled
unfolding handled
handle_socks lib local c = handled (server_handshake lib local c)
