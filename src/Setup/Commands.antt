-- ===== src/Setup/Commands.antt =====
-- cmd/snell-server/main.go and cmd/snell-client/main.go: the flags, and the configuration file.
use Prim.Native.String.{String}
use package.text.Mathlib.Text.{◌==◌}
use open_snell.Base.{Bool, ◌||◌, Option, none, some, if◌then◌else◌}

-- A section of the file, by its keys; a key that is missing has the value "".
abbrev pub Section : Type 0
Section = String → String

-- The configuration: no file, or a file that may lack the section or not load at all (`none`).
pub data Config : Type 0 where
  no_file : Config
  file : Option Section → Config

pub record ServerFlags : Type 0 where
  pub listen : String
  pub obfs : String
  pub psk : String

pub record ClientFlags : Type 0 where
  pub listen : String
  pub server : String
  pub obfs : String
  pub obfs_host : String
  pub psk : String
  pub version : String

unfoldable pub plain_obfs : String → String
plain_obfs obfs = if obfs == "none" || obfs == "off" then "" else obfs

unfoldable pub or_else : String → String → String
or_else s default = if s == "" then default else s

abbrev pub server_section : Section → ServerFlags
server_section sec = record { listen = sec "listen"; obfs = sec "obfs"; psk = sec "psk" }

abbrev pub client_section : Section → ClientFlags
client_section sec = record {
  listen = sec "listen";
  server = sec "server";
  obfs = sec "obfs";
  obfs_host = sec "obfs-host";
  psk = sec "psk";
  version = sec "version";
}

-- The flags, or those of the file; `none` is `log.Fatalf`.
unfoldable pub configured {ℓ} : {A : Type ℓ} → Config → (Section → A) → A → Option A
configured no_file f a = some a
configured (file none) f a = none
configured (file (some sec)) f a = some (f sec)

unfoldable pub plain_server : Option ServerFlags → Option ServerFlags
unfolding plain_obfs
plain_server none = none
plain_server (some f) = some (record f { obfs = plain_obfs f.obfs })

-- `init` of the server's command.
unfoldable pub server_settings : Config → ServerFlags → Option ServerFlags
unfolding configured plain_server
server_settings config flags = plain_server (configured config server_section flags)

unfoldable pub check_client : Option ClientFlags → Option ClientFlags
unfolding plain_obfs or_else
check_client none = none
check_client (some f) =
    if f.server == ""
    then none
    else some (record f {
      obfs = plain_obfs f.obfs;
      obfs_host = or_else f.obfs_host "bing.com";
      version = or_else f.version "2";
    })

-- `init` of the client's command.
unfoldable pub client_settings : Config → ClientFlags → Option ClientFlags
unfolding configured check_client
client_settings config flags = check_client (configured config client_section flags)

-- The last argument of `NewSnellClient` in `main`.
unfoldable pub wants_v2 : ClientFlags → Bool
wants_v2 f = f.version == "2"
