-- ===== src/Layers/SealedStream.antt =====
-- The server's end of the encrypted stream, as a stream for the layer above.
use mathlib.Core.Path.{subst}
use open_snell.Base.{
  replicate, ℕ, ◌<◌, ◌≡◌, ◌⊎◌, refl, sym, ap, inl, inr, List, ◌++◌, none, some, arith, length, All,
  joined,
}
use open_snell.Io.{Result, ok, NetConn}
use open_snell.Io.Streams.{ByteSource}
use open_snell.Aead.{Aead, IsAead}
use open_snell.Aead.Cipher.{CryptoLib, Cipher, salt_size, decrypter}
use open_snell.Aead.Reader.{Reader}
use open_snell.Aead.Frames.{Chunk, frames}
use open_snell.Aead.Stream.{StreamConn, new_conn_with_fallback, stream_read, keep_reader}
use open_snell.Aead.Pending.{Pending, reader_read-Pending}
use open_snell.Aead.FirstRead.{start_nonce, Negotiated}
use open_snell.Aead.Negotiate.{opens-switch, opens-keep}
use open_snell.Layers.Loop.{Readable}
use open_snell.Layers.Whole.{Stream, Next}

-- A `Read` that succeeds returns a byte at least, unless a cipher opens to nothing.
abbrev pub sealed_reads :
    {Block : Type 0} (lib : CryptoLib Block) {S : Type 0} ⦃io : NetConn S⦄ → Readable (StreamConn S)
sealed_reads lib = record { read = stream_read lib; idle_reads = λ sc. 0 }

-- The first cipher refuses what the other one seals, and the two are cut alike.
pub record IsOther (am af : Aead) : Type 0 where
  pub even : af.overhead ≡ am.overhead
  pub alike : af.nonce_size ≡ am.nonce_size
  pub refused : (m : List ℕ) → am.unseal (start_nonce af) (af.seal (start_nonce af) m) ≡ none

module _ {Block : Type 0} (lib : CryptoLib Block) (main fb : Cipher) (am af : Aead) (salt : List ℕ)
    (hs : length salt ≡ salt_size) (hm : decrypter lib main salt ≡ ok am)
    (hf : decrypter lib fb salt ≡ ok af) (lm : IsAead am) (lf : IsAead af) (other : IsOther am af)
    {S : Type 0} ⦃io : NetConn S⦄ (src : ByteSource io) (rest : List ℕ) where
  -- In front of the first `Read`: the salt, and frames of one of the two ciphers.
  abbrev pub Unread : List ℕ → StreamConn S → Type 0
  Unread b sc =
      (s : S) × (ps : List (List ℕ)) × (sc ≡ new_conn_with_fallback s main fb)
      × All Chunk ps
      × (joined ps ≡ b)
      × (src.Holds (salt ++ (frames am (start_nonce am) ps ++ rest)) s
          ⊎ src.Holds (salt ++ (frames af (start_nonce af) ps ++ rest)) s)

  abbrev pub Begun : List ℕ → StreamConn S → Type 0
  Begun b sc =
      (r : Reader S) × (sc.reader ≡ some r) × Pending src b rest (record r { conn = sc.conn })

  abbrev pub SealedHolds : List ℕ → StreamConn S → Type 0
  SealedHolds b sc = Begun b sc ⊎ Unread b sc

  abbrev NextRead : ℕ → List ℕ → StreamConn S → Result (List ℕ) × StreamConn S → Type 0
  NextRead n b sc x = Next SealedHolds (λ sc. 0) n b sc x

  Negotiated-Next :
      (n : ℕ) (b : List ℕ) (cipher : Cipher) (sc : StreamConn S)
      (x : Result (List ℕ) × StreamConn S)
      → Negotiated src n b rest cipher x
      → NextRead n b sc x
  Negotiated-Next n b cipher sc x (out, b', r, sc', e, whole, some_byte, fits, c, reader, conn, p) =
      (
        out,
        b',
        sc',
        e,
        whole,
        fits,
        omega (arith, some_byte),
        inl (
          r,
          reader,
          subst (λ (d : S). Pending src b' rest (record r { conn = d })) (sym conn) p,
        ),
      )

  Begun-Next :
      (n : ℕ) (b : List ℕ) (sc : StreamConn S)
      → 0 < n
      → 0 < length b
      → Begun b sc
      → NextRead n b sc (stream_read lib n sc)
  unfolding stream_read
  Begun-Next n b sc hn hb (r, reader, p) =
      let (out, b', r', e, whole, lo, hi, pending) =
        reader_read-Pending src n b rest (record r { conn = sc.conn }) p hn hb in
      (
        out,
        b',
        keep_reader r' sc,
        rw (reader, e) refl,
        whole,
        hi,
        omega (arith, lo),
        inl (r', refl, pending),
      )

  Unread-Next :
      (n : ℕ) (b : List ℕ) (sc : StreamConn S)
      → 0 < n
      → 0 < length b
      → Unread b sc
      → NextRead n b sc (stream_read lib n sc)
  Unread-Next n b sc hn hb (s, ps, e, chunks, whole, held) =
      let fresh = new_conn_with_fallback s main fb in
      let some_bytes : 0 < length (joined ps) = rw whole hb in
      let z : start_nonce af ≡ start_nonce am = ap (λ (k : ℕ). replicate k 0) other.alike in
      let next : NextRead n (joined ps) fresh (stream_read lib n fresh) = elim held [
        | inl first ↦ Negotiated-Next n (joined ps) main fresh (stream_read lib n fresh) (
            opens-keep lib main fb am af salt hs hm hf src n rest ps s lm hn chunks some_bytes
              first)
        | inr second ↦ Negotiated-Next n (joined ps) fb fresh (stream_read lib n fresh) (
            opens-switch lib main fb am af salt hs hm hf src n rest ps s lf other.even z
              (rw z at (other.refused)) hn chunks some_bytes
              (subst (λ (k : List ℕ). src.Holds (salt ++ (frames af k ps ++ rest)) s) z second))
      ] in
      rw (← whole, e) next

  pub SealedHolds-Next :
      (n : ℕ) (b : List ℕ) (sc : StreamConn S)
      → 0 < n
      → 0 < length b
      → SealedHolds b sc
      → NextRead n b sc (stream_read lib n sc)
  SealedHolds-Next n b sc hn hb (inl begun) = Begun-Next n b sc hn hb begun
  SealedHolds-Next n b sc hn hb (inr unread) = Unread-Next n b sc hn hb unread

  -- The server's end, with a cipher that may have to be switched.
  abbrev pub sealed_stream : Stream (sealed_reads lib {S = S})
  sealed_stream = record {
    Holds = SealedHolds;
    stalls = λ sc. 0;
    stalls_bound = λ sc. omega arith;
    read-Holds = SealedHolds-Next;
  }
