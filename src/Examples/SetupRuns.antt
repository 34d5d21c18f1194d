-- ===== src/Examples/SetupRuns.antt =====
-- A client whose file says `obfs = off` and no version.
use open_snell.Examples.Toys.{names_only}
use open_snell.Socks5.Listener.{Accept}
use package.text.Mathlib.Text.{◌==◌}
use open_snell.Base.{All, false, List, [], ◌∷◌, ◌≡◌, refl, some, none, if◌then◌else◌}
use open_snell.Io.{Conn, ok}
use open_snell.Setup.Ends.{
  NewSession, new_session, serve_accepted, SnellServer, SnellClient, refused, new_snell_server,
  new_snell_client,
}
use open_snell.Setup.Commands.{
  Section, file, ClientFlags, configured, client_settings, check_client, or_else, plain_obfs,
  wants_v2,
}
use open_snell.Setup.Agree.{Matches, setups_agree}
use open_snell.Examples.StreamRuns.{toy_crypto}

abbrev section : Section
section key = if key == "server" then "host:1" else (if key == "obfs" then "off" else "")

abbrev flags : ClientFlags
flags = record { listen = ""; server = ""; obfs = "tls"; obfs_host = ""; psk = ""; version = "" }

abbrev settings : ClientFlags
settings = record {
  listen = "";
  server = "host:1";
  obfs = "";
  obfs_host = "bing.com";
  psk = "";
  version = "2";
}

client_settings_run : client_settings (file (some section)) flags ≡ some settings
unfolding client_settings check_client configured plain_obfs or_else
client_settings_run = refl

plain-refused : refused settings.obfs ≡ false
unfolding refused
plain-refused = refl

setups_agree_example :
    (s : SnellServer) × (c : SnellClient) × (new_snell_server toy_crypto none (7 ∷ []) settings.obfs
      ≡ ok s)
    × (new_snell_client toy_crypto none
          (9 ∷ [])
          settings.obfs
          settings.obfs_host
          (7 ∷ [])
          (wants_v2 settings)
        ≡ ok c)
    × (c.obfs_host ≡ settings.obfs_host)
    × ((dialled : Conn) (accepts : List (Accept Conn))
        → (w : NewSession) × (new_session names_only (ok dialled) c ≡ ok w)
          × All (Matches (wants_v2 settings) w) (serve_accepted s accepts))
setups_agree_example =
    setups_agree toy_crypto names_only (7 ∷ []) (9 ∷ []) (file (some section)) flags settings
      client_settings_run plain-refused
