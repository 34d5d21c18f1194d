-- ===== src/Examples/AeadRuns.antt =====
-- Nonces, sealed streams, and the switch of ciphers.
use open_snell.Base.{◌≢◌, ℕ, ◌+◌, ◌≡◌, refl, false, [], ◌∷◌, ◌++◌, none, some, arith, length}
use open_snell.Io.{ok, zero_chunk, Conn, plain}
use open_snell.Io.Streams.{plain_sink}
use open_snell.Aead.Nonce.{increment}
use open_snell.Aead.Counter.{nonce_at, nonces_differ}
use open_snell.Aead.Writer.{Writer, Sent, read_from, writer_write, write_zero_chunk}
use open_snell.Aead.Reader.{Reader, Relayed, write_to}
use open_snell.Aead.Sealing.{Sends, read_from-Sends}
use open_snell.Aead.RoundTrip.{facing, write_to-read_from, write_to-session}
use open_snell.Examples.Toys.{tagged, tagged-IsAead, idle}

increment_carries : increment (255 ∷ 255 ∷ 7 ∷ []) ≡ 0 ∷ 0 ∷ 8 ∷ []
unfolding increment
increment_carries = refl

nonces_differ_example : nonce_at 1 (255 ∷ 9 ∷ []) ≢ nonce_at 513 (255 ∷ 9 ∷ [])
nonces_differ_example =
    nonces_differ (255 ∷ 9 ∷ []) 1 513 (omega arith) (omega arith) (omega arith) (omega arith)

abbrev writer : Writer Conn
writer = record { aead = tagged 0; nonce = 254 ∷ 0 ∷ []; conn = idle [] }

abbrev reader : Reader Conn
reader = record {
  aead = tagged 0;
  nonce = 0 ∷ 0 ∷ [];
  capacity = 0x3FFF + 1;
  leftover = [];
  fallback = none;
  switched = false;
  conn = idle [];
}

read_from-Sends_example :
    Sends
      (plain_sink (idle []) refl)
      []
      0
      (idle (1 ∷ 2 ∷ 3 ∷ 4 ∷ 5 ∷ []))
      writer
      (read_from (idle (1 ∷ 2 ∷ 3 ∷ 4 ∷ 5 ∷ [])) writer)
read_from-Sends_example =
    read_from-Sends (plain_sink (idle []) refl) [] (idle (1 ∷ 2 ∷ 3 ∷ 4 ∷ 5 ∷ [])) writer refl

write_to-read_from_example :
    (s : Sent Conn) × (t : Relayed) × (read_from (idle (1 ∷ 2 ∷ 3 ∷ [])) writer ≡ some s)
    × (write_to (idle []) (facing reader writer (idle []) s.writer.conn.output) ≡ some (ok t))
    × (t.sink.output ≡ [] ++ (1 ∷ 2 ∷ 3 ∷ []))
    × (t.count ≡ length {A = ℕ} (1 ∷ 2 ∷ 3 ∷ []))
    × (t.failure ≡ none)
    × (t.reader.nonce ≡ s.writer.nonce)
write_to-read_from_example =
    write_to-read_from (idle (1 ∷ 2 ∷ 3 ∷ [])) writer (idle []) reader (idle []) (tagged-IsAead 0)
      refl refl refl refl

write_to-session_example :
    (w1 w2 : Writer Conn) × (t : Relayed) × (writer_write (1 ∷ 2 ∷ []) writer
      ≡ some (length {A = ℕ} (1 ∷ 2 ∷ []), none, w1))
    × (write_zero_chunk w1 ≡ (none, w2))
    × (write_to (idle []) (facing reader writer (idle []) (w2.conn.output ++ (9 ∷ [])))
        ≡ some (ok t))
    × (t.sink.output ≡ [] ++ (1 ∷ 2 ∷ []))
    × (t.failure ≡ some zero_chunk)
    × (t.reader.conn.input ≡ 9 ∷ [])
    × (t.reader.nonce ≡ w2.nonce)
write_to-session_example =
    write_to-session 1 (2 ∷ []) (9 ∷ []) writer (idle []) reader (idle []) (tagged-IsAead 0) refl
      refl refl
