-- ===== src/Aead/Types.antt =====
-- `cipher.AEAD` of Go's crypto library, a parameter of the stream.
use open_snell.Base.{ℕ, ◌+◌, ◌≡◌, List, Option, some, length}

-- `Overhead`, `NonceSize`, `Seal` and `Open`, with the nonce first. The stream has no additional data.
pub record Aead : Type 0 where
  pub overhead : ℕ
  pub nonce_size : ℕ
  pub seal : List ℕ → List ℕ → List ℕ
  pub unseal : List ℕ → List ℕ → Option (List ℕ)

-- What `cipher.AEAD` documents.
pub record IsAead (a : Aead) : Type 0 where
  pub unseal-seal : (nonce p : List ℕ) → a.unseal nonce (a.seal nonce p) ≡ some p
  pub length-seal : (nonce p : List ℕ) → length (a.seal nonce p) ≡ length p + a.overhead

abbrev pub payload_size_mask : ℕ
payload_size_mask = 0x3FFF
