-- ===== src/Examples/Toys.antt =====
-- Small stand-ins for the libraries that the code takes as parameters.
use open_snell.Base.{
  ℕ, ◌+◌, ◌≡◌, refl, List, [], ◌∷◌, ◌++◌, Option, none, some, arith, ◌==◌, if◌then◌else◌, length,
  get_or,
}
use open_snell.Io.{Conn, eof}
use open_snell.Socks5.Text.{NetLib}
use open_snell.Aead.{Aead, IsAead}
use open_snell.Tls.{Draw, IsDraw}

-- No IP addresses, and the port 80 on every host.
abbrev pub names_only : NetLib
names_only = record {
  split_host_port = λ s. some (s, b'8' ∷ b'0' ∷ []);
  join_host_port = λ h p. h ++ (b':' ∷ p);
  parse_ip = λ s. none;
  ip_string = λ ip. ip;
}

abbrev check_tag : List ℕ → ℕ → Option (List ℕ)
check_tag [] tag = none
check_tag (t ∷ p) tag = if t == tag then some p else none

-- A tag of one byte, from the key and the first byte of the nonce, in front of the plain text.
abbrev pub tagged : ℕ → Aead
tagged key = record {
  overhead = 1;
  nonce_size = 2;
  seal = λ n p. (get_or n 0 0 + key) ∷ p;
  unseal = λ n b. check_tag b (get_or n 0 0 + key);
}

pub tagged-IsAead : (key : ℕ) → IsAead (tagged key)
tagged-IsAead key = record { unseal-seal = λ n p. ground arith; length-seal = λ n p. omega arith }

-- A quiet connection over some input.
abbrev pub idle : List ℕ → Conn
idle b = record { input = b; closing = eof; cuts = 2 ∷ 0 ∷ []; faults = []; output = [] }

abbrev pub zeros : ℕ → List ℕ
zeros n = open_snell.Base.replicate n 0

abbrev pub drawn : Draw
drawn = record { time = 1700000000; random = zeros 28; session_id = zeros 32 }

pub drawn-IsDraw : IsDraw drawn
drawn-IsDraw = record { random_len = refl; session_id_len = refl }
