-- ===== src/Aead/Negotiate.antt =====
-- The server takes the cipher of the client, over any two ends of a connection.
use open_snell.Base.{
  ℕ, ◌<◌, ◌≡◌, refl, ap, List, [], ◌∷◌, ◌++◌, append_assoc, none, some, true, arith, length, All,
  joined, be16, replicate,
}
use open_snell.Io.{ok, NetConn}
use open_snell.Io.Streams.{ByteSource, Channel}
use open_snell.Aead.Types.{Aead, IsAead}
use open_snell.Aead.Nonce.{increment}
use open_snell.Aead.Cipher.{CryptoLib, Cipher, salt_size, decrypter}
use open_snell.Aead.Writer.{frame}
use open_snell.Aead.Reader.{Reader, new_reader}
use open_snell.Aead.Frames.{Chunk, frames}
use open_snell.Aead.Opening.{read_chunk-switch, read_chunk-keep}
use open_snell.Aead.Stream.{StreamConn, new_conn, new_conn_with_fallback, stream_read, stream_write}
use open_snell.Aead.FirstRead.{
  start_nonce, Negotiated, stream_write-first, init_reader-salt, first_read-opened,
}

module _ {Block : Type 0} (lib : CryptoLib Block) (main fb : Cipher) (am af : Aead) (salt : List ℕ)
    (hs : length salt ≡ salt_size) (hm : decrypter lib main salt ≡ ok am)
    (hf : decrypter lib fb salt ≡ ok af) {S : Type 0} ⦃inp : NetConn S⦄ (src : ByteSource inp) where
  open src use {Holds}

  -- What came for the server: the salt, and frames of a cipher.
  abbrev Sealed : Aead → List (List ℕ) → List ℕ → S → Type 0
  Sealed a ps rest s = Holds (salt ++ (frames a (start_nonce am) ps ++ rest)) s

  pub opens-switch :
      (n : ℕ) (rest : List ℕ) (ps : List (List ℕ)) (s : S)
      → IsAead af
      → af.overhead ≡ am.overhead
      → start_nonce af ≡ start_nonce am
      → ((m : List ℕ) → am.unseal (start_nonce am) (af.seal (start_nonce am) m) ≡ none)
      → 0 < n
      → All Chunk ps
      → 0 < length (joined ps)
      → Sealed af ps rest s
      → Negotiated src n (joined ps) rest fb (stream_read lib n (new_conn_with_fallback s main fb))
  unfolding stream_read new_conn_with_fallback new_reader
  opens-switch n rest [] s law even same refused hn fit hb holds = absurd (omega arith)
  opens-switch n rest (p ∷ ps) s law even same refused hn (hp, fit) hb holds =
      let z = start_nonce am in
      let z2 = increment (increment z) in
      let more = frames af z2 ps ++ rest in
      let holds0 : Holds (salt ++ ((frame af z p ++ frames af z2 ps) ++ rest)) s = holds in
      let (c1, started, holds1) =
        init_reader-salt lib src main fb am af salt (frame af z p ++ more) s hs hm hf
          (rw (append_assoc (frame af z p) (frames af z2 ps) rest) at holds0) in
      let r = new_reader c1 am (some af) in
      let (c2, opened, holds2) =
        read_chunk-switch src r af p more law hp even (omega arith) (refused (be16 (length p)))
          holds1 in
      let r1 : Reader S = record r {
        aead = af;
        nonce = z2;
        fallback = none;
        switched = true;
        conn = c2;
      } in
      rw started (
        first_read-opened src n p rest ps fb (new_conn_with_fallback s main fb) r r1 opened refl
          refl law refl (omega (arith, even)) (hp, fit) holds2 hn)

  pub opens-keep :
      (n : ℕ) (rest : List ℕ) (ps : List (List ℕ)) (s : S)
      → IsAead am
      → 0 < n
      → All Chunk ps
      → 0 < length (joined ps)
      → Sealed am ps rest s
      → Negotiated src n
          (joined ps)
          rest
          main
          (stream_read lib n (new_conn_with_fallback s main fb))
  unfolding stream_read new_conn_with_fallback new_reader
  opens-keep n rest [] s law hn fit hb holds = absurd (omega arith)
  opens-keep n rest (p ∷ ps) s law hn (hp, fit) hb holds =
      let z = start_nonce am in
      let z2 = increment (increment z) in
      let more = frames am z2 ps ++ rest in
      let holds0 : Holds (salt ++ ((frame am z p ++ frames am z2 ps) ++ rest)) s = holds in
      let (c1, started, holds1) =
        init_reader-salt lib src main fb am af salt (frame am z p ++ more) s hs hm hf
          (rw (append_assoc (frame am z p) (frames am z2 ps) rest) at holds0) in
      let r = new_reader c1 am (some af) in
      let (c2, opened, holds2) = read_chunk-keep src r af p more law hp (omega arith) holds1 in
      let r1 : Reader S = record r { nonce = z2; fallback = none; conn = c2 } in
      rw started (
        first_read-opened src n p rest ps main (new_conn_with_fallback s main fb) r r1 opened refl
          refl law refl (omega arith) (hp, fit) holds2 hn)

module _ {Block : Type 0} (lib : CryptoLib Block) (main fb : Cipher) (am af : Aead) (salt : List ℕ)
    (hs : length salt ≡ salt_size) (hm : decrypter lib main salt ≡ ok am)
    (hf : decrypter lib fb salt ≡ ok af) {C S : Type 0} ⦃out : NetConn C⦄ ⦃inp : NetConn S⦄
    (ch : Channel out inp) where
  open ch use {sink, source, accept, arrive}

  -- Over the two ends of any connection that carries its bytes, a client of the fallback cipher
  -- writes, and a server that tries the other cipher first reads: the client's `Write` takes all its
  -- bytes, the server's first `Read` returns the first of them, with the others still to come, and the
  -- server has taken the client's cipher for its own writes. The salt has its length and both ciphers
  -- derive a key from it; the first cipher refuses what the other one sealed, and both have the same
  -- overhead and nonces.
  pub stream_read-switch :
      (x n : ℕ) (b : List ℕ) (c : C)
      → IsAead af
      → af.overhead ≡ am.overhead
      → af.nonce_size ≡ am.nonce_size
      → ((m : List ℕ) → am.unseal (start_nonce af) (af.seal (start_nonce af) m) ≡ none)
      → sink.Wrote [] c
      → 0 < n
      → (sc : StreamConn C) × (stream_write lib (ok salt) (x ∷ b) (new_conn c fb)
          ≡ some (ok (length (x ∷ b), none), sc))
        × Negotiated source n
            (x ∷ b)
            ch.rest
            fb
            (stream_read lib n (new_conn_with_fallback (accept sc.conn) main fb))
  stream_read-switch x n b c law even same refused fresh hn =
      let (ps, sc, chunks, whole, e, wrote) =
        stream_write-first lib sink fb af salt x b c hf fresh in
      let z : start_nonce af ≡ start_nonce am = ap (λ (k : ℕ). replicate k 0) same in
      let some_bytes : 0 < length (joined ps) = rw whole (omega arith) in
      let there = arrive (salt ++ frames af (start_nonce af) ps) sc.conn wrote in
      (
        sc,
        e,
        rw (← whole) (
            opens-switch lib main fb am af salt hs hm hf source n ch.rest ps (accept sc.conn) law
              even z (rw z at refused) hn chunks some_bytes
              (rw (z, append_assoc salt (frames af (start_nonce am) ps) ch.rest) at there)),
      )

  -- A client of the first cipher is read as usual, whatever the fallback is, and the server stays
  -- with that cipher.
  pub stream_read-keep :
      (x n : ℕ) (b : List ℕ) (c : C)
      → IsAead am
      → sink.Wrote [] c
      → 0 < n
      → (sc : StreamConn C) × (stream_write lib (ok salt) (x ∷ b) (new_conn c main)
          ≡ some (ok (length (x ∷ b), none), sc))
        × Negotiated source n
            (x ∷ b)
            ch.rest
            main
            (stream_read lib n (new_conn_with_fallback (accept sc.conn) main fb))
  stream_read-keep x n b c law fresh hn =
      let (ps, sc, chunks, whole, e, wrote) =
        stream_write-first lib sink main am salt x b c hm fresh in
      let some_bytes : 0 < length (joined ps) = rw whole (omega arith) in
      let there = arrive (salt ++ frames am (start_nonce am) ps) sc.conn wrote in
      (
        sc,
        e,
        rw (← whole) (
            opens-keep lib main fb am af salt hs hm hf source n ch.rest ps (accept sc.conn) law hn
              chunks some_bytes
              (rw (append_assoc salt (frames am (start_nonce am) ps) ch.rest) at there)),
      )
