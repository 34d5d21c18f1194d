-- ===== src/Aead/Plain.antt =====
-- The writer and the reader on a connection with nothing in between.
use open_snell.Base.{
  ℕ, ◌+◌, ◌≤◌, ◌≡◌, refl, sym, ap, List, [], ◌∷◌, ◌++◌, append-nil, none, some, length, All, joined,
}
use open_snell.Io.{Conn, ok, err, zero_chunk, plain}
use open_snell.Io.Streams.{plain_source, plain_sink}
use open_snell.Aead.Types.{IsAead}
use open_snell.Aead.Nonce.{increment}
use open_snell.Aead.Writer.{Writer, frame, read_from, hide_eof, writer_write}
use open_snell.Aead.Reader.{Reader, read_chunk}
use open_snell.Aead.Frames.{Chunk, frames, nonce_after}
use open_snell.Aead.Sealing.{read_from-Sends, writer_write-Sends}
use open_snell.Aead.Opening.{read_chunk-frame, read_chunk-zero}

-- The writer behind the frames of some chunks.
abbrev pub wrote : Writer Conn → List (List ℕ) → Writer Conn
wrote w ps = record w {
  nonce = nonce_after w.nonce ps;
  conn = record w.conn { output = w.conn.output ++ frames w.aead w.nonce ps };
}

unwritten : (c : Conn) → c ≡ record c { output = c.output ++ [] }
unwritten c = ap (λ (o : List ℕ). record c { output = o }) (sym (append-nil c.output))

pub read_from-wrote :
    (src : Conn) (w : Writer Conn)
    → w.conn.faults ≡ []
    → (ps : List (List ℕ)) × (src' : Conn) × All Chunk ps
      × (joined ps ≡ src.input)
      × (read_from src w
          ≡ some (record {
            count = 0 + length src.input;
            failure = hide_eof src.closing;
            source = src';
            writer = wrote w ps;
          }))
read_from-wrote src w hw =
    let (ps, src', c', chunks, whole, e, there) =
      read_from-Sends (plain_sink w.conn hw) [] src w (unwritten w.conn) in
    (ps, src', chunks, whole, rw there at e)

pub writer_write-wrote :
    (x : ℕ) (b : List ℕ) (w : Writer Conn)
    → w.conn.faults ≡ []
    → (ps : List (List ℕ)) × All Chunk ps
      × (joined ps ≡ x ∷ b)
      × (writer_write (x ∷ b) w ≡ some (length (x ∷ b), none, wrote w ps))
writer_write-wrote x b w hw =
    let (ps, c', chunks, whole, e, there) =
      writer_write-Sends (plain_sink w.conn hw) x b [] w (unwritten w.conn) in
    (ps, chunks, whole, rw there at e)

pub read_chunk-framed :
    (r : Reader Conn) (c : Conn) (p rest : List ℕ)
    → IsAead r.aead
    → Chunk p
    → length p + r.aead.overhead ≤ r.capacity
    → read_chunk
        (record r { fallback = none; conn = record c { input = frame r.aead r.nonce p ++ rest } })
      ≡ (
        ok p,
        record r {
          nonce = increment (increment r.nonce);
          fallback = none;
          conn = record c { input = rest };
        },
      )
read_chunk-framed r c p rest law h room =
    let (c', e, behind) =
      read_chunk-frame (plain_source c)
        (record r { conn = record c { input = frame r.aead r.nonce p ++ rest } }) p rest law h room
        refl in
    rw behind at e

pub read_chunk-closed :
    (r : Reader Conn) (c : Conn) (rest : List ℕ)
    → IsAead r.aead
    → read_chunk (record r {
      fallback = none;
      conn = record c { input = r.aead.seal r.nonce (0 ∷ 0 ∷ []) ++ rest };
    })
      ≡ (
        err zero_chunk,
        record r { nonce = increment r.nonce; fallback = none; conn = record c { input = rest } },
      )
read_chunk-closed r c rest law =
    let (c', e, behind) =
      read_chunk-zero (plain_source c)
        (record r { conn = record c { input = r.aead.seal r.nonce (0 ∷ 0 ∷ []) ++ rest } }) rest law
        refl in
    rw behind at e
