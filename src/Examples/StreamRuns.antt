-- ===== src/Examples/StreamRuns.antt =====
-- A stream that begins with its salt, and a server that has to switch.
use open_snell.Io.Streams.{Channel, plain_channel}
use open_snell.Base.{ℕ, ◌≡◌, refl, [], ◌∷◌, none, some, arith, length}
use open_snell.Io.{Conn, plain, ok}
use open_snell.Aead.Cipher.{CryptoLib, Cipher, decrypter}
use open_snell.Aead.Stream.{StreamConn, new_conn, new_conn_with_fallback, stream_write, stream_read}
use open_snell.Aead.FirstRead.{Negotiated}
use open_snell.Aead.Negotiate.{stream_read-switch}
use open_snell.Examples.Toys.{tagged, tagged-IsAead, idle, zeros}

-- A key derivation that forgets the salt.
abbrev pub toy_crypto : CryptoLib (Unit {0})
toy_crypto = record {
  id_key = λ psk salt t m p n. psk;
  new_cipher = λ key. ok tt;
  new_gcm = λ b. ok (tagged 1);
  new_chacha20_poly1305 = λ key. ok (tagged 2);
}

abbrev pub toy_cipher : ℕ → Cipher
toy_cipher k = record { psk = 7 ∷ []; key_size = 1; make_aead = λ key. ok (tagged k) }

pub decrypter_toy : (k : ℕ) → decrypter toy_crypto (toy_cipher k) (zeros 16) ≡ ok (tagged k)
unfolding decrypter
decrypter_toy k = refl

abbrev channel : Channel plain plain
channel = plain_channel (idle []) (idle []) refl refl (8 ∷ [])

stream_read-switch_example :
    (sc : StreamConn Conn) × (stream_write toy_crypto
        (ok (zeros 16))
        (3 ∷ 4 ∷ [])
        (new_conn (idle []) (toy_cipher 2))
      ≡ some (ok (length {A = ℕ} (3 ∷ 4 ∷ []), none), sc))
    × Negotiated channel.source 1 (3 ∷ 4 ∷ []) (8 ∷ []) (toy_cipher 2) (
        stream_read toy_crypto 1
          (new_conn_with_fallback (channel.accept sc.conn) (toy_cipher 1) (toy_cipher 2)))
stream_read-switch_example =
    stream_read-switch toy_crypto (toy_cipher 1) (toy_cipher 2) (tagged 1) (tagged 2) (zeros 16)
      refl (decrypter_toy 1) (decrypter_toy 2) channel 3 1 (4 ∷ []) (idle []) (tagged-IsAead 2) refl
      refl (λ m. refl) refl (omega arith)
