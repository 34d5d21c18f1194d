-- ===== src/Tls/Types.antt =====
-- The two ends' states, and the random parts of a hello.
use open_snell.Base.{◌*◌, ℕ, List, Bool, ◌≡◌, length}
use open_snell.Io.{Conn}

abbrev pub chunk_size : ℕ
chunk_size = 16 * 1024

-- What a hello draws: the time in seconds, and what `rand.Read` fills.
pub record Draw : Type 0 where
  pub time : ℕ
  pub random : List ℕ
  pub session_id : List ℕ

-- `make([]byte, 28)` and `make([]byte, 32)`
pub record IsDraw (d : Draw) : Type 0 where
  pub random_len : length d.random ≡ 28
  pub session_id_len : length d.session_id ≡ 32

-- `TLSObfsClient`
pub record TlsClient : Type 0 where
  pub conn : Conn
  pub server : List ℕ
  pub remain : ℕ
  pub first_request : Bool
  pub first_response : Bool

-- `TLSObfsServer`
pub record TlsServer : Type 0 where
  pub conn : Conn
  pub remain : ℕ
  pub first_request : Bool
  pub session_ticket_done : Bool
  pub first_response : Bool
