-- ===== src/Aead/Cipher.antt =====
-- components/aead/cipher.go: a key from the salt, and the ciphers. Argon2 and the two AEADs are
-- parameters.
use open_snell.Base.{ℕ, List, take}
use open_snell.Io.{ok, err, panic, Result}
use open_snell.Aead.Types.{Aead}

-- `argon2.IDKey` (password, salt, time, memory, threads, key length), `aes.NewCipher`, `cipher.NewGCM`
-- and `chacha20poly1305.New`, over the type of block ciphers.
pub record CryptoLib (Block : Type 0) : Type 0 where
  pub id_key : List ℕ → List ℕ → ℕ → ℕ → ℕ → ℕ → List ℕ
  pub new_cipher : List ℕ → Result Block
  pub new_gcm : Block → Result Aead
  pub new_chacha20_poly1305 : List ℕ → Result Aead

-- `aesGCM(key)`
unfoldable pub aes_gcm : {Block : Type 0} → CryptoLib Block → List ℕ → Result Aead
aes_gcm lib key = elim (lib.new_cipher key) [
  | ok blk ↦ lib.new_gcm blk
  | err e ↦ err e
  | panic ↦ panic
]

-- `snellCipher`
pub record Cipher : Type 0 where
  pub psk : List ℕ
  pub key_size : ℕ
  pub make_aead : List ℕ → Result Aead

abbrev pub salt_size : ℕ
salt_size = 16

unfoldable pub snell_kdf : {Block : Type 0} → CryptoLib Block → List ℕ → List ℕ → ℕ → List ℕ
snell_kdf lib psk salt key_size = take key_size (lib.id_key psk salt 3 8 1 32)

unfoldable pub encrypter : {Block : Type 0} → CryptoLib Block → Cipher → List ℕ → Result Aead
unfolding snell_kdf
encrypter lib sc salt = sc.make_aead (snell_kdf lib sc.psk salt sc.key_size)

unfoldable pub decrypter : {Block : Type 0} → CryptoLib Block → Cipher → List ℕ → Result Aead
unfolding snell_kdf
decrypter lib sc salt = sc.make_aead (snell_kdf lib sc.psk salt sc.key_size)

unfoldable pub new_aes128_gcm : {Block : Type 0} → CryptoLib Block → List ℕ → Cipher
new_aes128_gcm lib psk = record { psk = psk; key_size = 16; make_aead = aes_gcm lib }

unfoldable pub new_chacha20_poly1305 : {Block : Type 0} → CryptoLib Block → List ℕ → Cipher
new_chacha20_poly1305 lib psk = record {
  psk = psk;
  key_size = 32;
  make_aead = lib.new_chacha20_poly1305;
}
