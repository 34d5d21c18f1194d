-- ===== src/Aead/RoundTrip.antt =====
-- What the writer seals, the reader's `WriteTo` delivers.
use open_snell.Base.{
  joined, ℕ, zero, suc, ◌+◌, ◌≤◌, ◌<◌, ◌≡◌, refl, ap, ◌∙◌, List, [], ◌∷◌, ◌++◌, append-nil,
  append_assoc, Option, none, some, arith, length, length-append, All, be16,
}
use open_snell.Io.{plain, Conn, Error, Result, eof, ok, err, zero_chunk}
use open_snell.Io.Laws.{read_full_short, short_error-nil, send_well}
use open_snell.Aead.Types.{Aead, IsAead, payload_size_mask}
use open_snell.Aead.Nonce.{increment}
use open_snell.Aead.Writer.{
  Writer, Sent, frame, hide_eof, read_from, write_zero_chunk, writer_write,
}
use open_snell.Aead.Reader.{Reader, Relayed, read_chunk, drain, write_to_loop, write_to}
use open_snell.Aead.Frames.{Chunk, frames, nonce_after}
use open_snell.Aead.Plain.{
  wrote, read_from-wrote, writer_write-wrote, read_chunk-framed, read_chunk-closed,
}

length-frame : (a : Aead) (n p : List ℕ) → IsAead a → 2 ≤ length (frame a n p)
unfolding frame
length-frame a n p law = omega (
  arith,
  length-append (a.seal n (be16 (length p))) (a.seal (increment n) p),
  law.length-seal n (be16 (length p)),
)

drain-chunk :
    (next : ℕ → Conn → Reader Conn → Option (Result Relayed)) (n : ℕ) (sink : Conn) (p : List ℕ)
    (r : Reader Conn)
    → 1 ≤ length p
    → sink.faults ≡ []
    → drain next n sink (ok p, r)
      ≡ next (n + length p) (record sink { output = sink.output ++ p }) r
unfolding drain
drain-chunk next n sink [] r h hs = absurd (omega arith)
drain-chunk next n sink (x ∷ p) r h hs = rw (send_well (x ∷ p) sink hs)

-- The loop over the frames of some chunks, up to the bytes `rest` where `r.read()` fails.
write_to_loop-frames :
    (ps : List (List ℕ)) (f n : ℕ) (sink c : Conn) (r end : Reader Conn) (rest : List ℕ) (e : Error)
    → IsAead r.aead
    → All Chunk ps
    → payload_size_mask + r.aead.overhead ≤ r.capacity
    → sink.faults ≡ []
    → length (frames r.aead r.nonce ps ++ rest) < f
    → read_chunk (record r {
      nonce = nonce_after r.nonce ps;
      fallback = none;
      conn = record c { input = rest };
    })
      ≡ (err e, end)
    → write_to_loop f n sink
        (record r { fallback = none; conn = record c { input = frames r.aead r.nonce ps ++ rest } })
      ≡ some (
          ok (record {
            count = n + length (joined ps);
            failure = hide_eof e;
            sink = record sink { output = sink.output ++ joined ps };
            reader = end;
          }))
unfolding write_to_loop
write_to_loop-frames ps zero n sink c r end rest e law hp room hs h stop = absurd (omega arith)
write_to_loop-frames [] (suc f) n sink c r end rest e law hp room hs h stop =
    let len : n + 0 ≡ n = omega arith in rw (stop, len, append-nil, drain)
write_to_loop-frames (p ∷ ps) (suc f) n sink c r end rest e law (hp, hps) room hs h stop =
    let head = frame r.aead r.nonce p in
    let r' : Reader Conn = record r { nonce = increment (increment r.nonce) } in
    let more = frames r.aead r'.nonce ps in
    let len : n + length (p ++ joined ps) ≡ n + length p + length (joined ps) =
      omega (arith, length-append p (joined ps)) in
    let shorter : length (more ++ rest) < f = omega (
      arith,
      length-frame r.aead r.nonce p law,
      length-append head more,
      length-append (head ++ more) rest,
      length-append more rest,
    ) in
    rw
      (
        append_assoc head more rest,
        read_chunk-framed r c p (more ++ rest) law hp (omega arith),
        drain-chunk (write_to_loop f) n sink p
            (record r' { fallback = none; conn = record c { input = more ++ rest } }) hp.0 hs,
        write_to_loop-frames ps f (n + length p) (record sink { output = sink.output ++ p }) c r'
            end rest e law hps room hs shorter stop,
        len,
        append_assoc sink.output p (joined ps),
      )
      refl

-- A reader that begins where a writer began, over what came down the wire.
abbrev pub facing : Reader Conn → Writer Conn → Conn → List ℕ → Reader Conn
facing r w c wire = record r {
  aead = w.aead;
  nonce = w.nonce;
  capacity = payload_size_mask + w.aead.overhead;
  leftover = [];
  fallback = none;
  conn = record c { input = wire };
}

-- `ReadFrom` and `WriteTo` are inverse to one another: over any AEAD that opens what it sealed, and
-- connections that take every write, `WriteTo` on the bytes that `ReadFrom` wrote, up to the end of
-- the file, delivers to its writer exactly the bytes of the source, returns their number and no error,
-- and the two nonces agree again.
pub write_to-read_from :
    (src : Conn) (w : Writer Conn) (sink : Conn) (r : Reader Conn) (c : Conn)
    → IsAead w.aead
    → w.conn.faults ≡ []
    → w.conn.output ≡ []
    → sink.faults ≡ []
    → c.closing ≡ eof
    → (s : Sent Conn) × (t : Relayed) × (read_from src w ≡ some s)
      × (write_to sink (facing r w c s.writer.conn.output) ≡ some (ok t))
      × (t.sink.output ≡ sink.output ++ src.input)
      × (t.count ≡ length src.input)
      × (t.failure ≡ none)
      × (t.reader.nonce ≡ s.writer.nonce)
unfolding write_to hide_eof
write_to-read_from src w sink r c law hw fresh hs last =
    let (ps, src', chunks, whole, e) = read_from-wrote src w hw in
    let sent : Sent Conn = record {
      count = 0 + length src.input;
      failure = hide_eof src.closing;
      source = src';
      writer = wrote w ps;
    } in
    let wire : List ℕ = frames w.aead w.nonce ps in
    let end : Reader Conn = record (facing r w c []) { nonce = nonce_after w.nonce ps } in
    let t : Relayed = record {
      count = 0 + length (joined ps);
      failure = none;
      sink = record sink { output = sink.output ++ joined ps };
      reader = end;
    } in
    let same : w.conn.output ++ wire ≡ wire ++ [] = rw (fresh, append-nil) in
    (
      sent,
      t,
      e,
      rw same (
          write_to_loop-frames ps (suc (length (wire ++ []))) 0 sink c (facing r w c []) end [] eof
            law chunks (omega arith) hs (omega arith)
            (unfold read_chunk in
              rw
                (read_full_short (2 + w.aead.overhead) [] c (omega arith), short_error-nil, last))),
      rw whole,
      rw whole (omega arith),
      refl,
      refl,
    )

-- One session on the wire: some bytes, and the zero chunk that closes the session. `WriteTo` at the
-- other end delivers exactly the bytes, fails with `ErrZeroChunk`, and stops right behind the zero
-- chunk, so that the next session on the connection starts with the nonces in step.
pub write_to-session :
    (x : ℕ) (b rest : List ℕ) (w : Writer Conn) (sink : Conn) (r : Reader Conn) (c : Conn)
    → IsAead w.aead
    → w.conn.faults ≡ []
    → w.conn.output ≡ []
    → sink.faults ≡ []
    → (w1 w2 : Writer Conn) × (t : Relayed) × (writer_write (x ∷ b) w
        ≡ some (length (x ∷ b), none, w1))
      × (write_zero_chunk w1 ≡ (none, w2))
      × (write_to sink (facing r w c (w2.conn.output ++ rest)) ≡ some (ok t))
      × (t.sink.output ≡ sink.output ++ (x ∷ b))
      × (t.failure ≡ some zero_chunk)
      × (t.reader.conn.input ≡ rest)
      × (t.reader.nonce ≡ w2.nonce)
unfolding write_to hide_eof write_zero_chunk
write_to-session x b rest w sink r c law hw fresh hs =
    let (ps, chunks, whole, e) = writer_write-wrote x b w hw in
    let wire : List ℕ = frames w.aead w.nonce ps in
    let w1 : Writer Conn = wrote w ps in
    let zero_frame : List ℕ = w.aead.seal w1.nonce (0 ∷ 0 ∷ []) in
    let w2 : Writer Conn = record w1 {
      nonce = increment w1.nonce;
      conn = record w.conn { output = (w.conn.output ++ wire) ++ zero_frame };
    } in
    let end : Reader Conn = record (facing r w c rest) { nonce = w2.nonce } in
    let t : Relayed = record {
      count = 0 + length (joined ps);
      failure = some zero_chunk;
      sink = record sink { output = sink.output ++ joined ps };
      reader = end;
    } in
    let same : ((w.conn.output ++ wire) ++ zero_frame) ++ rest ≡ wire ++ (zero_frame ++ rest) =
      ap (λ (l : List ℕ). ((l ++ wire) ++ zero_frame) ++ rest) fresh
      ∙ append_assoc wire zero_frame rest in
    (
      w1,
      w2,
      t,
      e,
      rw (send_well zero_frame w1.conn hw),
      rw same (
          write_to_loop-frames ps (suc (length (wire ++ (zero_frame ++ rest)))) 0 sink c
            (facing r w c []) end (zero_frame ++ rest) zero_chunk law chunks (omega arith) hs
            (omega arith)
            (read_chunk-closed (record (facing r w c []) { nonce = w1.nonce }) c rest law)),
      rw whole,
      refl,
      refl,
      refl,
    )
