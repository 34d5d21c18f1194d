-- ===== src/Aead/Sealing.antt =====
-- `ReadFrom` cuts its source into chunks and writes their frames, to any connection that takes them.
use open_snell.Base.{
  joined, List-cases, inl, inr, ℕ, zero, suc, ◌+◌, ◌<◌, ◌≡◌, refl, sym, ap, List, [], ◌∷◌, ◌++◌,
  append-nil, append_assoc, Option, none, some, arith, length, length-append, All,
}
use open_snell.Io.{Conn, ok, NetConn, plain}
use open_snell.Io.Laws.{read_end, read_some}
use open_snell.Io.Streams.{ByteSink}
use open_snell.Aead.Types.{payload_size_mask}
use open_snell.Aead.Nonce.{increment}
use open_snell.Aead.Writer.{
  Writer, Sent, frame, write_chunk, pump, read_from_loop, read_from, hide_eof, buffer_of,
  writer_write,
}
use open_snell.Aead.Frames.{Chunk, frames, nonce_after}

module _ {S : Type 0} ⦃io : NetConn S⦄ (sink : ByteSink io) where
  open sink use {Wrote, send-Wrote}

  write_chunk_well :
      (p bs : List ℕ) (w : Writer S)
      → Wrote bs w.conn
      → (c' : S) × (write_chunk p w
          ≡ (none, record w { nonce = increment (increment w.nonce); conn = c' }))
        × Wrote (bs ++ frame w.aead w.nonce p) c'
  unfolding write_chunk
  write_chunk_well p bs w h =
      let (c', e, wrote) = send-Wrote bs (frame w.aead w.nonce p) w.conn h in (c', rw e refl, wrote)

  -- What `ReadFrom` does.
  abbrev pub Sends : List ℕ → (n : ℕ) → Conn → Writer S → Option (Sent S) → Type 0
  Sends bs n src w r =
      (ps : List (List ℕ)) × (src' : Conn) × (c' : S) × All Chunk ps
      × (joined ps ≡ src.input)
      × (r
          ≡ some (record {
            count = n + length src.input;
            failure = hide_eof src.closing;
            source = src';
            writer = record w { nonce = nonce_after w.nonce ps; conn = c' };
          }))
      × Wrote (bs ++ frames w.aead w.nonce ps) c'

  -- One round: the rest of the loop sends the rest of the source.
  pump-Sends :
      (next : ℕ → Conn → Writer S → Option (Sent S)) (bs : List ℕ) (n : ℕ) (src src' : Conn)
      (w : Writer S) (p : List ℕ)
      → Wrote bs w.conn
      → Chunk p
      → p ++ src'.input ≡ src.input
      → src'.closing ≡ src.closing
      → ((cs : List ℕ) (m : ℕ) (v : Writer S) → Wrote cs v.conn → Sends cs m src' v (next m src' v))
      → Sends bs n src w (pump next n w (ok p, src'))
  unfolding pump
  pump-Sends next bs n src src' w [] hw h cut same rest = absurd (omega arith)
  pump-Sends next bs n src src' w (x ∷ p) hw h cut same rest =
      let m : ℕ = n + length (x ∷ p) in
      let (c1, q, hw1) = write_chunk_well (x ∷ p) bs w hw in
      let v : Writer S = record w { nonce = increment (increment w.nonce); conn = c1 } in
      let (ps, end, c', chunks, whole, e, wrote) =
        rest (bs ++ frame w.aead w.nonce (x ∷ p)) m v hw1 in
      let len : m + length src'.input ≡ n + length src.input =
        rw (← cut) (omega (arith, length-append (x ∷ p) src'.input)) in
      (
        (x ∷ p) ∷ ps,
        end,
        c',
        (h, chunks),
        rw whole cut,
        rw (q, e, len, same) refl,
        rw (append_assoc bs (frame w.aead w.nonce (x ∷ p)) (frames w.aead v.nonce ps)) at wrote,
      )

  read_from_loop-Sends :
      (f : ℕ) (bs : List ℕ) (n : ℕ) (src : Conn) (w : Writer S)
      → length src.input < f
      → Wrote bs w.conn
      → Sends bs n src w (read_from_loop f n src w)
  unfolding read_from_loop
  read_from_loop-Sends zero bs n src w h hw = absurd (omega arith)
  read_from_loop-Sends (suc f) bs n src w h hw = elim (List-cases src.input) [
    | inl e ↦
        let len : n + length src.input ≡ n = rw e (omega arith) in
        (
          [],
          src,
          w.conn,
          tt,
          sym e,
          rw (read_end payload_size_mask src (omega arith) e, len),
          rw append-nil hw,
        )
    | inr more ↦
        let (p, src', e, cut, lo, hi, same) = read_some payload_size_mask src (omega arith) more in
        let fits : length src'.input < f =
          omega (arith, ap length cut, length-append p src'.input) in
        rw e (
          pump-Sends (read_from_loop f) bs n src src' w p hw (lo, hi) cut same
            (λ cs m v hv. read_from_loop-Sends f cs m src' v fits hv))
  ]

  -- On every connection that takes every write, `ReadFrom` comes to an end: it has cut the whole
  -- source, however its `Read` cuts it, into chunks of 1 to 0x3FFF bytes, has written the frames of
  -- the chunks one behind the other, the nonce going up twice a chunk, returns the length of the
  -- source, and returns the source's last error unless that is the end of file.
  pub read_from-Sends :
      (bs : List ℕ) (src : Conn) (w : Writer S)
      → Wrote bs w.conn
      → Sends bs 0 src w (read_from src w)
  unfolding read_from
  read_from-Sends bs src w hw =
      read_from_loop-Sends (suc (length src.input)) bs 0 src w (omega arith) hw

  -- `Write` of some bytes sends them all, in chunks.
  pub writer_write-Sends :
      (x : ℕ) (b bs : List ℕ) (w : Writer S)
      → Wrote bs w.conn
      → (ps : List (List ℕ)) × (c' : S) × All Chunk ps
        × (joined ps ≡ x ∷ b)
        × (writer_write (x ∷ b) w
            ≡ some (length (x ∷ b), none, record w { nonce = nonce_after w.nonce ps; conn = c' }))
        × Wrote (bs ++ frames w.aead w.nonce ps) c'
  unfolding writer_write buffer_of hide_eof
  writer_write-Sends x b bs w hw =
      let (ps, src', c', chunks, whole, e, wrote) = read_from-Sends bs (buffer_of (x ∷ b)) w hw in
      let len : 0 + length (x ∷ b) ≡ length (x ∷ b) = omega arith in
      (ps, c', chunks, whole, rw (e, len, writer_write), wrote)
