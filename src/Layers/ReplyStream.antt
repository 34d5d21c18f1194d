-- ===== src/Layers/ReplyStream.antt =====
-- The client's end of the encrypted stream: one cipher, with no fallback.
use mathlib.Core.Path.{subst}
use open_snell.Base.{
  ℕ, ◌≤◌, ◌<◌, ◌≡◌, ◌⊎◌, refl, sym, inl, inr, List, ◌++◌, none, some, arith, length, All, joined,
}
use open_snell.Io.{Result, ok, NetConn}
use open_snell.Io.Streams.{ByteSource}
use open_snell.Aead.{Aead, IsAead}
use open_snell.Aead.Cipher.{CryptoLib, salt_size, decrypter}
use open_snell.Aead.Reader.{Reader, new_reader}
use open_snell.Aead.Frames.{Chunk, frames}
use open_snell.Aead.Stream.{
  StreamConn, stream_read, init_reader, first_read, keep_reader, switch_cipher,
}
use open_snell.Aead.Pending.{Pending, reader_read-Pending}
use open_snell.Aead.FirstRead.{start_nonce, reader_kept, conn_kept}
use open_snell.Layers.Whole.{Stream, Next}
use open_snell.Layers.SealedStream.{sealed_reads}

module _ {Block : Type 0} (lib : CryptoLib Block) (a : Aead) (salt : List ℕ)
    (hs : length salt ≡ salt_size) (law : IsAead a) {S : Type 0} ⦃io : NetConn S⦄
    (src : ByteSource io) (rest : List ℕ) where
  -- In front of the first `Read`: the salt, and frames of the cipher.
  abbrev pub Unread : List ℕ → StreamConn S → Type 0
  Unread b sc =
      (ps : List (List ℕ)) × (sc.reader ≡ none)
      × (sc.fallback ≡ none)
      × (decrypter lib sc.cipher salt ≡ ok a)
      × All Chunk ps
      × (joined ps ≡ b)
      × src.Holds (salt ++ (frames a (start_nonce a) ps ++ rest)) sc.conn

  abbrev pub Begun : List ℕ → StreamConn S → Type 0
  Begun b sc =
      (r : Reader S) × (sc.reader ≡ some r) × Pending src b rest (record r { conn = sc.conn })

  abbrev pub ReplyHolds : List ℕ → StreamConn S → Type 0
  ReplyHolds b sc = Begun b sc ⊎ Unread b sc

  abbrev NextRead : ℕ → List ℕ → StreamConn S → Result (List ℕ) × StreamConn S → Type 0
  NextRead n b sc x = Next ReplyHolds (λ sc. 0) n b sc x

  -- A stream with its reader kept.
  Begun-Next :
      (n : ℕ) (b out b' : List ℕ) (r : Reader S) (sc sc' : StreamConn S)
      → out ++ b' ≡ b
      → 0 < length out
      → length out ≤ n
      → Pending src b' rest r
      → sc'.reader ≡ some r
      → sc'.conn ≡ r.conn
      → NextRead n b sc (ok out, sc')
  Begun-Next n b out b' r sc sc' whole lo hi pending reader conn = (
    out,
    b',
    sc',
    refl,
    whole,
    hi,
    omega (arith, lo),
    inl (
      r,
      reader,
      subst (λ (d : S). Pending src b' rest (record r { conn = d })) (sym conn) pending,
    ),
  )

  first_read-Next :
      (n : ℕ) (b : List ℕ) (r : Reader S) (sc sc0 : StreamConn S)
      → 0 < n
      → 0 < length b
      → Pending src b rest r
      → NextRead n b sc (first_read n sc0 (ok r, r.conn))
  unfolding first_read
  first_read-Next n b r sc sc0 hn hb p =
      let (out, b', r', e, whole, lo, hi, pending) = reader_read-Pending src n b rest r p hn hb in
      rw e (
        Begun-Next n b out b' r' sc (switch_cipher r'.switched (keep_reader r' sc0)) whole lo hi
          pending (reader_kept r'.switched r' sc0) (conn_kept r'.switched r' sc0))

  init_reader-Unread :
      (ps : List (List ℕ)) (sc : StreamConn S)
      → sc.fallback ≡ none
      → decrypter lib sc.cipher salt ≡ ok a
      → src.Holds (salt ++ (frames a (start_nonce a) ps ++ rest)) sc.conn
      → (c' : S) × (init_reader lib sc ≡ (ok (new_reader c' a none), c'))
        × src.Holds (frames a (start_nonce a) ps ++ rest) c'
  unfolding init_reader
  init_reader-Unread ps sc alone key holds =
      let (c', e, behind) =
        src.read_full-Holds salt (frames a (start_nonce a) ps ++ rest) sc.conn holds in
      let e' : io.read_full 16 sc.conn ≡ (ok salt, c') = rw hs at e in
      (c', rw (e', key, alone), behind)

  pub ReplyHolds-Next :
      (n : ℕ) (b : List ℕ) (sc : StreamConn S)
      → 0 < n
      → 0 < length b
      → ReplyHolds b sc
      → NextRead n b sc (stream_read lib n sc)
  unfolding stream_read new_reader
  ReplyHolds-Next n b sc hn hb (inl (r, reader, p)) =
      let (out, b', r', e, whole, lo, hi, pending) =
        reader_read-Pending src n b rest (record r { conn = sc.conn }) p hn hb in
      rw (reader, e) (Begun-Next n b out b' r' sc (keep_reader r' sc) whole lo hi pending refl refl)
  ReplyHolds-Next n b sc hn hb (inr (ps, reader, alone, key, chunks, whole, holds)) =
      let (c', started, behind) = init_reader-Unread ps sc alone key holds in
      rw (reader, started)
        (first_read-Next n b (new_reader c' a none) sc sc hn hb (record {
          law = law;
          settled = refl;
          room = omega arith;
          chunks = ps;
          fit = chunks;
          wire = behind;
          whole = whole;
        }))

  abbrev pub reply_stream : Stream (sealed_reads lib {S = S})
  reply_stream = record {
    Holds = ReplyHolds;
    stalls = λ sc. 0;
    stalls_bound = λ sc. omega arith;
    read-Holds = ReplyHolds-Next;
  }
