-- ===== src/Aead/FirstRead.antt =====
-- The first `Write` and the first `Read` of a stream, with the salt.
use open_snell.Base.{
  Bool, take, drop, ltb, ltb-false, ℕ, ◌+◌, ◌≤◌, ◌<◌, ◌≡◌, refl, ap, ◌∙◌, List, [], ◌∷◌, ◌++◌, none,
  some, true, false, arith, length, All, joined, replicate,
}
use open_snell.Io.{Result, ok, NetConn, write_to_conn}
use open_snell.Io.Streams.{ByteSource, ByteSink}
use open_snell.Aead.Types.{Aead, IsAead, payload_size_mask}
use open_snell.Aead.Cipher.{CryptoLib, Cipher, salt_size, encrypter, decrypter}
use open_snell.Aead.Writer.{Writer, new_writer}
use open_snell.Aead.Reader.{Reader, new_reader, reader_read, read_chunk, deliver}
use open_snell.Aead.Frames.{Chunk, frames, nonce_after}
use open_snell.Aead.Sealing.{writer_write-Sends}
use open_snell.Aead.Pending.{Pending, cut_whole, cut_some}
use open_snell.Aead.Stream.{
  switch_cipher, StreamConn, new_conn, new_conn_with_fallback, stream_write, init_reader,
  first_read, keep_reader, keep_writer,
}

abbrev pub start_nonce : Aead → List ℕ
start_nonce a = replicate a.nonce_size 0

-- What the server's first `Read` comes to: the first of the bytes `b`, the others to come, and the
-- cipher for its own writes.
abbrev pub Negotiated :
    {S : Type 0} {io : NetConn S}
    → ByteSource io
    → ℕ
    → List ℕ
    → List ℕ
    → Cipher
    → Result (List ℕ) × StreamConn S
    → Type 0
Negotiated {S} src n b rest cipher x =
    (out : List ℕ) × (b' : List ℕ) × (r : Reader S) × (sc : StreamConn S) × (x ≡ (ok out, sc))
    × (out ++ b' ≡ b)
    × (0 < length out)
    × (length out ≤ n)
    × (sc.cipher ≡ cipher)
    × (sc.reader ≡ some r)
    × (sc.conn ≡ r.conn)
    × Pending src b' rest r

module _ {Block : Type 0} (lib : CryptoLib Block) {S : Type 0} ⦃io : NetConn S⦄ where
  -- The first `Write` of some bytes, by an end that has no writer yet, puts the salt on the connection,
  -- and the frames of the bytes behind it.
  pub stream_write-fresh :
      (sink : ByteSink io) (a : Aead) (salt : List ℕ) (x : ℕ) (b : List ℕ) (c : StreamConn S)
      → c.writer ≡ none
      → decrypter lib c.cipher salt ≡ ok a
      → sink.Wrote [] c.conn
      → (ps : List (List ℕ)) × (sc : StreamConn S) × All Chunk ps
        × (joined ps ≡ x ∷ b)
        × (stream_write lib (ok salt) (x ∷ b) c ≡ some (ok (length (x ∷ b), none), sc))
        × sink.Wrote (salt ++ frames a (start_nonce a) ps) sc.conn
  unfolding stream_write encrypter decrypter new_writer write_to_conn
  stream_write-fresh sink a salt x b c first h hw =
      let (c1, sent, hw1) = sink.send-Wrote [] salt c.conn hw in
      let w : Writer S = record { aead = a; nonce = start_nonce a; conn = c1 } in
      let (ps, c2, chunks, whole, e, hw2) = writer_write-Sends sink x b salt w hw1 in
      let w' : Writer S = record w { nonce = nonce_after w.nonce ps; conn = c2 } in
      (ps, keep_writer w' (record c { conn = c1 }), chunks, whole, rw (first, h, sent, e) refl, hw2)

  pub stream_write-first :
      (sink : ByteSink io) (cipher : Cipher) (a : Aead) (salt : List ℕ) (x : ℕ) (b : List ℕ) (c : S)
      → decrypter lib cipher salt ≡ ok a
      → sink.Wrote [] c
      → (ps : List (List ℕ)) × (sc : StreamConn S) × All Chunk ps
        × (joined ps ≡ x ∷ b)
        × (stream_write lib (ok salt) (x ∷ b) (new_conn c cipher)
            ≡ some (ok (length (x ∷ b), none), sc))
        × sink.Wrote (salt ++ frames a (start_nonce a) ps) sc.conn
  unfolding new_conn
  stream_write-first sink cipher a salt x b c h hw =
      stream_write-fresh sink a salt x b (new_conn c cipher) refl h hw

  -- The reader that the first `Read` makes, behind the salt.
  pub init_reader-salt :
      (src : ByteSource io) (main fb : Cipher) (am af : Aead) (salt rest : List ℕ) (c : S)
      → length salt ≡ salt_size
      → decrypter lib main salt ≡ ok am
      → decrypter lib fb salt ≡ ok af
      → src.Holds (salt ++ rest) c
      → (c' : S) × (init_reader lib (new_conn_with_fallback c main fb)
          ≡ (ok (new_reader c' am (some af)), c'))
        × src.Holds rest c'
  unfolding init_reader new_conn_with_fallback
  init_reader-salt src main fb am af salt rest c hs hm hf holds =
      let (c', e, behind) = src.read_full-Holds salt rest c holds in
      let e' : io.read_full 16 c ≡ (ok salt, c') = rw hs at e in (c', rw (e', hm, hf), behind)

-- A switch of the cipher changes the cipher alone.
cipher_kept :
    {S : Type 0} (b : Bool) (r r' : Reader S) (sc : StreamConn S)
    → (switch_cipher b (keep_reader r sc)).cipher ≡ (switch_cipher b (keep_reader r' sc)).cipher
unfolding switch_cipher
cipher_kept true r r' sc = refl
cipher_kept false r r' sc = refl

pub reader_kept :
    {S : Type 0} (b : Bool) (r : Reader S) (sc : StreamConn S)
    → (switch_cipher b (keep_reader r sc)).reader ≡ some r
unfolding switch_cipher
reader_kept true r sc = refl
reader_kept false r sc = refl

pub conn_kept :
    {S : Type 0} (b : Bool) (r : Reader S) (sc : StreamConn S)
    → (switch_cipher b (keep_reader r sc)).conn ≡ r.conn
unfolding switch_cipher
conn_kept true r sc = refl
conn_kept false r sc = refl

-- From a reader that has opened the first chunk.
pub first_read-opened :
    {S : Type 0} ⦃io : NetConn S⦄ (src : ByteSource io) (n : ℕ) (p rest : List ℕ)
    (ps : List (List ℕ)) (cipher : Cipher) (sc : StreamConn S) (r r1 : Reader S)
    → read_chunk r ≡ (ok p, r1)
    → r.leftover ≡ []
    → (switch_cipher r1.switched (keep_reader r1 sc)).cipher ≡ cipher
    → IsAead r1.aead
    → r1.fallback ≡ none
    → payload_size_mask + r1.aead.overhead ≤ r1.capacity
    → All Chunk (p ∷ ps)
    → src.Holds (frames r1.aead r1.nonce ps ++ rest) r1.conn
    → 0 < n
    → Negotiated src n (p ++ joined ps) rest cipher (first_read n sc (ok r, r.conn))
unfolding first_read reader_read deliver
first_read-opened {S} src n p rest ps cipher sc r r1 e empty picks law settled room (hp, fit) wire
      hn =
    let r' : Reader S = record r1 { leftover = drop n p } in
    let (lo, hi) = cut_some n p hn hp.0 in
    let none_left : ltb 0 (length r.leftover) ≡ false =
      ltb-false 0 (length r.leftover) (omega (arith, ap (λ (l : List ℕ). length l) empty)) in
    (
      take n p,
      drop n p ++ joined ps,
      r',
      switch_cipher r1.switched (keep_reader r' sc),
      rw (none_left, e) refl,
      cut_whole n p (joined ps),
      lo,
      hi,
      cipher_kept r1.switched r' r1 sc ∙ picks,
      reader_kept r1.switched r' sc,
      conn_kept r1.switched r' sc,
      record {
        law = law;
        settled = settled;
        room = room;
        chunks = ps;
        fit = fit;
        wire = wire;
        whole = refl;
      },
    )
