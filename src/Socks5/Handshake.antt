-- ===== src/Socks5/Handshake.antt =====
-- `ServerHandshake` and `ClientHandshake`.
use open_snell.Base.{ℕ, List, [], ◌∷◌, Option, none, some, ◌||◌, not, ◌==◌, if◌then◌else◌, get_or}
use open_snell.Io.{Action, pure, fail, text, ◌>>=◌, ◌>>◌, read_full, write}
use open_snell.Socks5.Defs.{
  Addr, cmd_connect, cmd_udp_associate, max_addr_len, err_command_not_supported,
  err_address_not_supported, read_addr,
}
use open_snell.Socks5.Text.{NetLib, parse_addr}

-- The reply of `ServerHandshake`, by the command and by `ParseAddr` of the local address.
unfoldable pub server_reply : ℕ → Option Addr → Action (Unit {0})
server_reply command local =
    if command == cmd_connect || command == cmd_udp_associate
    then elim local [ none ↦ fail err_address_not_supported | some a ↦ write (5 ∷ 0 ∷ 0 ∷ a) ]
    else fail err_command_not_supported

-- `ServerHandshake(rw)` on a connection whose `LocalAddr().String()` is `local`.
unfoldable pub server_handshake : NetLib → List ℕ → Action (Addr × ℕ)
unfolding server_reply
server_handshake lib local = do
  greeting ← read_full 2
  read_full (get_or greeting 1 0)
  write (5 ∷ 0 ∷ [])
  request ← read_full 3
  addr ← read_addr max_addr_len
  server_reply (get_or request 1 0) (parse_addr lib local)
  pure (addr, get_or request 1 0)

-- `ClientHandshake` from the server's choice of a method on.
client_request : Addr → ℕ → List ℕ → Action Addr
client_request addr command method =
    if not (get_or method 0 0 == 5)
    then fail (text "SOCKS version error")
    else (if not (get_or method 1 0 == 0)
        then fail (text "SOCKS need auth")
        else (do write (5 ∷ command ∷ 0 ∷ addr); read_full 3; read_addr max_addr_len))

-- `ClientHandshake(rw, addr, command)`
unfoldable pub client_handshake : Addr → ℕ → Action Addr
unfolding client_request
client_handshake addr command = do
  write (5 ∷ 1 ∷ 0 ∷ [])
  method ← read_full 2
  client_request addr command method
