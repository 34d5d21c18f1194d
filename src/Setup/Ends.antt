-- ===== src/Setup/Ends.antt =====
-- `NewSnellServer` with its accept loop, and `NewSnellClient` with `newSession` (components/snell).
use open_snell.Http.Types.{codes}
use open_snell.Socks5.Text.{NetLib}
use open_snell.Socks5.Listener.{Accept, accept_loop}
use open_snell.Setup.Obfs.{ObfsServer, ObfsClient, new_obfs_server, new_obfs_client}
use Prim.Native.String.{String}
use package.text.Mathlib.Text.{◌==◌}
use open_snell.Base.{List, [], ℕ, Bool, not, ◌&&◌, Option, none, some, if◌then◌else◌}
use open_snell.Io.{Conn, Error, Result, ok, err, panic, text}
use open_snell.Aead.Cipher.{CryptoLib, Cipher, new_aes128_gcm, new_chacha20_poly1305}

-- What the server's accept loop uses: the two ciphers of `NewConnWithFallback`, and the obfuscation.
pub record SnellServer : Type 0 where
  pub cipher : Cipher
  pub fallback : Cipher
  pub obfs : String

pub record SnellClient : Type 0 where
  pub server : List ℕ
  pub obfs : String
  pub obfs_host : String
  pub cipher : Cipher
  pub is_v2 : Bool

unfoldable pub refused : String → Bool
refused obfs = not (obfs == "tls") && not (obfs == "http") && not (obfs == "")

module _ {Block : Type 0} (lib : CryptoLib Block) where
  -- `NewSnellServer`, with what `net.Listen` returns.
  unfoldable pub new_snell_server : Option Error → List ℕ → String → Result SnellServer
  unfolding refused
  new_snell_server listen psk obfs =
      if refused obfs then err (text "invalid snell obfs type") else elim listen [
        | some e ↦ err e
        | none ↦ ok (record {
          cipher = new_aes128_gcm lib psk;
          fallback = new_chacha20_poly1305 lib psk;
          obfs = obfs;
        })
      ]

  -- `NewSnellClient`, with what `newSnellPool` or `NewSocksProxy` returns.
  unfoldable pub new_snell_client :
      Option Error → List ℕ → String → String → List ℕ → Bool → Result SnellClient
  unfolding refused
  new_snell_client listen server obfs obfs_host psk is_v2 =
      if refused obfs then err (text "invalid snell obfs type") else elim listen [
        | some e ↦ err e
        | none ↦ ok (record {
          server = server;
          obfs = obfs;
          obfs_host = if obfs_host == "" then "www.bing.com" else obfs_host;
          cipher = if is_v2 then new_aes128_gcm lib psk else new_chacha20_poly1305 lib psk;
          is_v2 = is_v2;
        })
      ]

-- The arguments of `NewConnWithFallback` for an accepted connection. The error of `NewObfsServer` is
-- dropped, and the connection is nil then.
pub record Dressed : Type 0 where
  pub obfs : Result ObfsServer
  pub cipher : Cipher
  pub fallback : Cipher

abbrev pub dress : SnellServer → Conn → Dressed
dress s c = record { obfs = new_obfs_server c s.obfs; cipher = s.cipher; fallback = s.fallback }

-- The accept loop of `NewSnellServer`: what `handleSnell` gets.
unfoldable pub serve_accepted : SnellServer → List (Accept Conn) → List Dressed
serve_accepted s accepts = accept_loop (dress s) accepts

-- The arguments of `NewConn` for a new session, with the error of `NewObfsClient` dropped.
pub record NewSession : Type 0 where
  pub obfs : Result ObfsClient
  pub cipher : Cipher

-- The port, or nothing where `net.SplitHostPort` fails.
abbrev pub port_of : Option (List ℕ × List ℕ) → List ℕ
port_of none = []
port_of (some (host, port)) = port

-- `newSession`, with what `net.Dial` returns.
unfoldable pub new_session : NetLib → Result Conn → SnellClient → Result NewSession
new_session net (err e) s = err e
new_session net panic s = panic
new_session net (ok c) s = ok (record {
  obfs = new_obfs_client c (codes s.obfs_host) (port_of (net.split_host_port s.server)) s.obfs;
  cipher = s.cipher;
})
