-- ===== src/Mux/Hostile.antt =====
-- The server's loop on requests that it should refuse.
use open_snell.Base.{
  ℕ, ◌≤◌, ◌≡◌, ◌≢◌, refl, List, [], ◌∷◌, ◌++◌, true, false, ◌==◌, some, arith, length, ltb-false,
}
use open_snell.Io.{plain, Conn, ok}
use open_snell.Io.Laws.{read_full_enough, write_well}
use open_snell.Socks5.Text.{NetLib}
use open_snell.Udp.Forward.{CacheLib}
use open_snell.Snell.{response_pong}
use open_snell.Snell.Header.{server_handshake, fill, fresh_buf, length-fresh_buf, check_version}
use open_snell.Snell.Connect.{request, server_handshake_panics}
use open_snell.Mux.Link.{Link}
use open_snell.Mux.Server.{Turn, End, handle_snell}

server_handshake-foreign :
    (lib : NetLib) (v cmd clen : ℕ) (rest : List ℕ) (c : Conn)
    → v ≢ 1
    → server_handshake lib (record c { input = v ∷ cmd ∷ clen ∷ rest })
      ≡ (ok ([], 0), record c { input = rest })
unfolding server_handshake fill check_version
server_handshake-foreign lib v cmd clen rest c h =
    let other : (v == 1) ≡ false = ground arith in
    rw (
      ltb-false (length fresh_buf) 3 (omega (arith, length-fresh_buf)),
      read_full_enough 3 (v ∷ cmd ∷ clen ∷ rest) c (omega arith),
      other,
    )

-- A request of another version is answered with a pong, like a ping, whatever its command, and the
-- session loop ends without an error: no other byte is read or sent.
pub handle_snell-foreign :
    {C : Type 0} (lib : NetLib) (cache : CacheLib C) (turns : ℕ → Turn) (v cmd clen : ℕ)
    (rest : List ℕ) (l : Link)
    → v ≢ 1
    → l.now.faults ≡ []
    → handle_snell lib cache turns
        (record l { now = record l.now { input = v ∷ cmd ∷ clen ∷ rest } })
      ≡ some (record {
        served = [];
        link = record l {
          now = record l.now { input = rest; output = l.now.output ++ (response_pong ∷ []) };
        };
        crashed = false;
      })
unfolding handle_snell
handle_snell-foreign lib cache turns v cmd clen rest l h hf =
    rw
      (
        server_handshake-foreign lib v cmd clen rest l.now h,
        write_well (response_pong ∷ []) (record l.now { input = rest }) hf,
      )
      refl

-- One request with a host of 254 or 255 bytes, in any session, ends the server with a panic.
pub handle_snell_crashes :
    {C : Type 0} (lib : NetLib) (cache : CacheLib C) (turns : ℕ → Turn) (cmd : ℕ)
    (id host rest : List ℕ) (l : Link)
    → length id ≤ 255
    → cmd ≢ 6
    → 254 ≤ length host
    → length host ≤ 255
    → (e : End) × (handle_snell lib cache turns
          (record l { now = record l.now { input = request cmd id host rest } })
        ≡ some e)
      × (e.crashed ≡ true)
unfolding handle_snell
handle_snell_crashes lib cache turns cmd id host rest l hid ne lo hi =
    let stops = server_handshake_panics lib cmd id host rest l.now hid ne lo hi in
    let c = (server_handshake lib (record l.now { input = request cmd id host rest })).1 in
    (record { served = []; link = record l { now = c }; crashed = true }, rw stops refl, refl)
