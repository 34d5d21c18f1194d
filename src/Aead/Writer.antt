-- ===== src/Aead/Writer.antt =====
-- `writer` of components/aead/stream.go: a stream cut into sealed chunks.
use open_snell.Base.{
  ℕ, zero, suc, ◌+◌, List, [], ◌∷◌, ◌++◌, Option, none, some, length, be16, replicate,
}
use open_snell.Io.{Conn, Error, Result, ok, err, panic, eof, read, NetConn}
use open_snell.Aead.Types.{Aead, payload_size_mask}
use open_snell.Aead.Nonce.{increment}

pub record Writer (S : Type 0) : Type 0 where
  pub aead : Aead
  pub nonce : List ℕ
  pub conn : S

-- `newWriter`
unfoldable pub new_writer : {S : Type 0} → S → Aead → Writer S
new_writer c a = record { aead = a; nonce = replicate a.nonce_size 0; conn = c }

-- The buffer of one chunk: its sealed size, and the sealed payload under the next nonce.
unfoldable pub frame : Aead → List ℕ → List ℕ → List ℕ
frame a nonce p = a.seal nonce (be16 (length p)) ++ a.seal (increment nonce) p

-- One round of `ReadFrom` behind the read: seal, count the nonce on twice, and write.
unfoldable pub write_chunk :
    {S : Type 0} ⦃io : NetConn S⦄ → List ℕ → Writer S → Option Error × Writer S
write_chunk ⦃io⦄ p w =
    let ((k, failure), c) = io.send (frame w.aead w.nonce p) w.conn in
    (failure, record w { nonce = increment (increment w.nonce); conn = c })

-- Where `ReadFrom` ends: its two results, the source and the writer.
pub record Sent (S : Type 0) : Type 0 where
  pub count : ℕ
  pub failure : Option Error
  pub source : Conn
  pub writer : Writer S

-- `if er != io.EOF { err = er }`
unfoldable pub hide_eof : Error → Option Error
hide_eof eof = none
hide_eof e = some e

unfoldable pub pump_on :
    {S : Type 0}
    → (ℕ → Conn → Writer S → Option (Sent S))
    → ℕ
    → Conn
    → Option Error × Writer S
    → Option (Sent S)
pump_on next n src (none, w) = next n src w
pump_on next n src (some e, w) =
    some (record { count = n; failure = some e; source = src; writer = w })

-- One round of `ReadFrom`, from what `r.Read` returned. A connection's `Read` does not panic.
unfoldable pub pump :
    {S : Type 0} ⦃io : NetConn S⦄
    → (ℕ → Conn → Writer S → Option (Sent S))
    → ℕ
    → Writer S
    → Result (List ℕ) × Conn
    → Option (Sent S)
unfolding pump_on
pump next n w (ok [], src) = next n src w
pump next n w (ok (x ∷ p), src) = pump_on next (n + length (x ∷ p)) src (write_chunk (x ∷ p) w)
pump next n w (err e, src) =
    some (record { count = n; failure = hide_eof e; source = src; writer = w })
pump next n w (panic, src) = none

-- The loop of `ReadFrom`; `none` means that the fuel ran out.
unfoldable pub read_from_loop :
    {S : Type 0} ⦃io : NetConn S⦄ → ℕ → ℕ → Conn → Writer S → Option (Sent S)
unfolding pump
read_from_loop zero n src w = none
read_from_loop (suc f) n src w = pump (read_from_loop f) n w (read payload_size_mask src)

-- `w.ReadFrom(r)`. Each round but the last takes a byte of the source at least.
unfoldable pub read_from : {S : Type 0} ⦃io : NetConn S⦄ → Conn → Writer S → Option (Sent S)
read_from src w = read_from_loop (suc (length src.input)) 0 src w

-- `bytes.NewBuffer(b)`, as a source
unfoldable pub buffer_of : List ℕ → Conn
buffer_of b = record { input = b; closing = eof; cuts = []; faults = []; output = [] }

-- `w.Write(b)` for an empty `b`: a sealed size of 0, and nothing behind it.
unfoldable pub write_zero_chunk : {S : Type 0} ⦃io : NetConn S⦄ → Writer S → Option Error × Writer S
write_zero_chunk ⦃io⦄ w =
    let ((k, failure), c) = io.send (w.aead.seal w.nonce (0 ∷ 0 ∷ [])) w.conn in
    (failure, record w { nonce = increment w.nonce; conn = c })

-- `w.Write(b)`: the count, the error and the writer.
unfoldable pub writer_write :
    {S : Type 0} ⦃io : NetConn S⦄ → List ℕ → Writer S → Option (ℕ × Option Error × Writer S)
writer_write [] w = let (failure, w') = write_zero_chunk w in some (0, failure, w')
writer_write (x ∷ b) w = elim (read_from (buffer_of (x ∷ b)) w) [
  | none ↦ none
  | some s ↦ some (s.count, s.failure, s.writer)
]
