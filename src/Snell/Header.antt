-- ===== src/Snell/Header.antt =====
-- The request header: `WriteHeader` (components/snell/client.go) and
-- `SnellServer.ServerHandshake` (components/snell/server.go).
use open_snell.Base.{
  ℕ, ◌+◌, ◌≡◌, List, [], ◌∷◌, ◌++◌, Bool, not, ltb, ◌==◌, if◌then◌else◌, length, get_or, take, drop,
  replicate, to_byte, to_u16, be16, from_be16, length-replicate,
}
use open_snell.Io.{ActionOn, NetConn, pure, crash, ◌>>=◌, write_to_conn}
use open_snell.Socks5.Text.{NetLib, itoa}
use open_snell.Snell.Defs.{version, command_connect, command_connect_v2, command_udp}

-- What `WriteHeader` puts into its buffer.
unfoldable pub header : List ℕ → ℕ → Bool → List ℕ
header host port v2 =
    version
    ∷ (if v2 then command_connect_v2 else command_connect)
    ∷ 0
    ∷ to_byte (length host)
    ∷ (host ++ be16 (to_u16 port))

-- `WriteHeader(conn, host, port, v2)`
unfoldable pub write_header :
    {S : Type 0} ⦃io : NetConn S⦄ → List ℕ → ℕ → Bool → ActionOn S (Unit {0})
write_header host port v2 = write_to_conn (header host port v2)

-- `make([]byte, 255)`
pub fresh_buf : List ℕ
fresh_buf = replicate 255 0

pub length-fresh_buf : length fresh_buf ≡ 255
unfolding fresh_buf
length-fresh_buf = length-replicate {A = ℕ} 255 0

-- `io.ReadFull(c, buf[:n])`: the buffer behind it. A slice behind the end is a panic.
unfoldable pub fill : {S : Type 0} ⦃io : NetConn S⦄ → List ℕ → ℕ → ActionOn S (List ℕ)
fill ⦃io⦄ buf n =
    if ltb (length buf) n then crash else (do b ← io.read_full n; pure (b ++ drop n buf))

-- `buf[i]`
unfoldable pub index : {S : Type 0} → List ℕ → ℕ → ActionOn S ℕ
index buf i = if ltb i (length buf) then pure (get_or buf i 0) else crash

-- The host and port, behind the byte `hlen`. `hlen+2` and `hlen+1` are of type `byte`.
unfoldable pub read_target :
    {S : Type 0} ⦃io : NetConn S⦄ → NetLib → List ℕ → ℕ → ActionOn S (List ℕ)
read_target lib buf hlen = do
  buf' ← fill buf (to_byte (hlen + 2))
  hi ← index buf' hlen
  lo ← index buf' (to_byte (hlen + 1))
  pure (lib.join_host_port (take hlen buf') (itoa (from_be16 hi lo)))

-- The handshake behind the client id.
unfoldable pub read_command :
    {S : Type 0} ⦃io : NetConn S⦄ → NetLib → ℕ → List ℕ → ActionOn S (List ℕ × ℕ)
read_command lib cmd buf =
    if cmd == command_udp
    then pure ([], cmd)
    else (do buf' ← fill buf 1; target ← read_target lib buf' (get_or buf' 0 0); pure (target, cmd))

-- The client id, `clen` bytes that are read and dropped.
unfoldable pub skip_id : {S : Type 0} ⦃io : NetConn S⦄ → ℕ → List ℕ → ActionOn S (List ℕ)
skip_id clen buf = if ltb 0 clen then fill buf clen else pure buf

unfoldable pub check_version :
    {S : Type 0} ⦃io : NetConn S⦄ → NetLib → List ℕ → ActionOn S (List ℕ × ℕ)
check_version lib buf =
    if not (get_or buf 0 0 == version)
    then pure ([], 0)
    else (do buf' ← skip_id (get_or buf 2 0) buf; read_command lib (get_or buf 1 0) buf')

-- `ServerHandshake(c)`: the target and the command.
unfoldable pub server_handshake : {S : Type 0} ⦃io : NetConn S⦄ → NetLib → ActionOn S (List ℕ × ℕ)
unfolding check_version
server_handshake lib = do buf ← fill fresh_buf 3; check_version lib buf
