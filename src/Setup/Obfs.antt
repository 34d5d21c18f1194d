-- ===== src/Setup/Obfs.antt =====
-- components/simple-obfs/obfs.go.
use Prim.Native.String.{String}
use package.text.Mathlib.Text.{◌==◌}
use open_snell.Base.{List, ℕ, ◌||◌, if◌then◌else◌}
use open_snell.Io.{Conn, Result, ok, err, text}
use open_snell.Tls.{TlsClient, TlsServer}
use open_snell.Tls.Client.{new_tls_client}
use open_snell.Tls.Server.{new_tls_server}
use open_snell.Http.Client.{HttpClient, new_http_client}
use open_snell.Http.Server.{HttpServer, new_http_server}

pub data ObfsServer : Type 0 where
  tls : TlsServer → ObfsServer
  http : HttpServer → ObfsServer
  plain : Conn → ObfsServer

pub data ObfsClient : Type 0 where
  tls : TlsClient → ObfsClient
  http : HttpClient → ObfsClient
  plain : Conn → ObfsClient

-- `NewObfsServer`. The text of the error also names the type.
unfoldable pub new_obfs_server : Conn → String → Result ObfsServer
new_obfs_server c obfs =
    if obfs == "tls"
    then ok (ObfsServer.tls (new_tls_server c))
    else (if obfs == "http"
        then ok (ObfsServer.http (new_http_server c))
        else (if obfs == "none" || obfs == ""
            then ok (ObfsServer.plain c)
            else err (text "invalid obfs type")))

-- `NewObfsClient`
unfoldable pub new_obfs_client : Conn → List ℕ → List ℕ → String → Result ObfsClient
new_obfs_client c server port obfs =
    if obfs == "tls"
    then ok (ObfsClient.tls (new_tls_client c server))
    else (if obfs == "http"
        then ok (ObfsClient.http (new_http_client c server port))
        else (if obfs == "none" || obfs == ""
            then ok (ObfsClient.plain c)
            else err (text "invalid obfs type")))
