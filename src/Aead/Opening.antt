-- ===== src/Aead/Opening.antt =====
-- `r.read()` on a frame, on the size of a zero chunk, and where the ciphers are switched, over any
-- connection that delivers its bytes.
use open_snell.Base.{
  ℕ, ◌+◌, ◌≤◌, ◌≡◌, refl, ◌∙◌, List, [], ◌∷◌, ◌++◌, append_assoc, none, some, true, false, arith,
  length, ltb-false, ◌==◌, be16,
}
use open_snell.Io.{ok, err, zero_chunk, NetConn, plain}
use open_snell.Io.Streams.{ByteSource}
use open_snell.Aead.Types.{Aead, IsAead, payload_size_mask}
use open_snell.Aead.Nonce.{increment}
use open_snell.Aead.Writer.{frame}
use open_snell.Aead.Reader.{Reader, read_chunk, read_payload, open_payload, payload_size}
use open_snell.Aead.Frames.{Chunk}

payload_size-be16 : (n : ℕ) → n ≤ payload_size_mask → payload_size (be16 n) ≡ n
unfolding payload_size
payload_size-be16 n h = omega arith

module _ {S : Type 0} ⦃io : NetConn S⦄ (src : ByteSource io) where
  open src use {Holds, read_full-Holds}

  -- `io.ReadFull` of what a cipher sealed.
  read_sealed :
      (a : Aead) (nonce p rest : List ℕ) (n : ℕ) (c : S)
      → IsAead a
      → length p + a.overhead ≡ n
      → Holds (a.seal nonce p ++ rest) c
      → (c' : S) × (io.read_full n c ≡ (ok (a.seal nonce p), c')) × Holds rest c'
  read_sealed a nonce p rest n c law e h =
      let (c', q, holds) = read_full-Holds (a.seal nonce p) rest c h in
      let len : length (a.seal nonce p) ≡ n = law.length-seal nonce p ∙ e in
      (c', rw len at q, holds)

  -- The payload behind a size that was opened.
  read_payload-sealed :
      (r : Reader S) (p rest : List ℕ)
      → IsAead r.aead
      → Chunk p
      → length p + r.aead.overhead ≤ r.capacity
      → Holds (r.aead.seal r.nonce p ++ rest) r.conn
      → (c' : S) × (read_payload (length p) r
          ≡ (ok p, record r { nonce = increment r.nonce; conn = c' }))
        × Holds rest c'
  unfolding read_payload
  read_payload-sealed r p rest law h room holds =
      let some_bytes : (length p == 0) ≡ false = ground arith in
      let (c', e, behind) =
        read_sealed r.aead r.nonce p rest (length p + r.aead.overhead) r.conn law refl holds in
      (
        c',
        rw (
          some_bytes,
          ltb-false r.capacity (length p + r.aead.overhead) room,
          e,
          open_payload,
          law.unseal-seal r.nonce p,
        ),
        behind,
      )

  -- A reader in front of one frame, with no fallback any more, returns the payload and counts the
  -- nonce on twice.
  pub read_chunk-frame :
      (r : Reader S) (p rest : List ℕ)
      → IsAead r.aead
      → Chunk p
      → length p + r.aead.overhead ≤ r.capacity
      → Holds (frame r.aead r.nonce p ++ rest) r.conn
      → (c' : S) × (read_chunk (record r { fallback = none })
          ≡ (ok p, record r { nonce = increment (increment r.nonce); fallback = none; conn = c' }))
        × Holds rest c'
  unfolding read_chunk frame
  read_chunk-frame r p rest law h room holds =
      let size = be16 (length p) in
      let sealed = r.aead.seal (increment r.nonce) p in
      let holds' : Holds (r.aead.seal r.nonce size ++ (sealed ++ rest)) r.conn =
        rw (append_assoc (r.aead.seal r.nonce size) sealed rest) at holds in
      let (c1, e1, holds1) =
        read_sealed r.aead r.nonce size (sealed ++ rest) (2 + r.aead.overhead) r.conn law refl
          holds' in
      let (c2, e2, holds2) =
        read_payload-sealed (record r { nonce = increment r.nonce; fallback = none; conn = c1 }) p
          rest law h room holds1 in
      (c2, rw (e1, law.unseal-seal r.nonce size, payload_size-be16 (length p) h.1, e2), holds2)

  -- The size 0 of `Write` of nothing: `ErrZeroChunk`, and the nonce goes on once.
  pub read_chunk-zero :
      (r : Reader S) (rest : List ℕ)
      → IsAead r.aead
      → Holds (r.aead.seal r.nonce (0 ∷ 0 ∷ []) ++ rest) r.conn
      → (c' : S) × (read_chunk (record r { fallback = none })
          ≡ (err zero_chunk, record r { nonce = increment r.nonce; fallback = none; conn = c' }))
        × Holds rest c'
  unfolding read_chunk
  read_chunk-zero r rest law holds =
      let size : List ℕ = 0 ∷ 0 ∷ [] in
      let (c1, e1, holds1) =
        read_sealed r.aead r.nonce size rest (2 + r.aead.overhead) r.conn law refl holds in
      (c1, rw (e1, law.unseal-seal r.nonce size), holds1)

  -- With a fallback set, a reader in front of a frame that the fallback sealed, and whose size the
  -- first cipher refuses, switches to the fallback for good and returns the payload, on every
  -- connection that delivers its bytes. Both ciphers have one overhead, and the buffer has room.
  pub read_chunk-switch :
      (r : Reader S) (fb : Aead) (p rest : List ℕ)
      → IsAead fb
      → Chunk p
      → fb.overhead ≡ r.aead.overhead
      → length p + r.aead.overhead ≤ r.capacity
      → r.aead.unseal r.nonce (fb.seal r.nonce (be16 (length p))) ≡ none
      → Holds (frame fb r.nonce p ++ rest) r.conn
      → (c' : S) × (read_chunk (record r { fallback = some fb }) ≡ (
        ok p,
        record r {
          aead = fb;
          nonce = increment (increment r.nonce);
          fallback = none;
          switched = true;
          conn = c';
        },
      ))
        × Holds rest c'
  unfolding read_chunk frame
  read_chunk-switch r fb p rest law h even room refused holds =
      let size = be16 (length p) in
      let sealed = fb.seal (increment r.nonce) p in
      let holds' : Holds (fb.seal r.nonce size ++ (sealed ++ rest)) r.conn =
        rw (append_assoc (fb.seal r.nonce size) sealed rest) at holds in
      let (c1, e1, holds1) =
        read_sealed fb r.nonce size (sealed ++ rest) (2 + r.aead.overhead) r.conn law (rw even)
          holds' in
      let (c2, e2, holds2) =
        read_payload-sealed
          (record r {
            aead = fb;
            nonce = increment r.nonce;
            fallback = none;
            switched = true;
            conn = c1;
          })
          p rest law h (rw even room) holds1 in
      (
        c2,
        rw (e1, refused, law.unseal-seal r.nonce size, payload_size-be16 (length p) h.1, e2),
        holds2,
      )

  -- With a fallback set, a frame of the first cipher is read as usual, and the fallback is given up.
  pub read_chunk-keep :
      (r : Reader S) (fb : Aead) (p rest : List ℕ)
      → IsAead r.aead
      → Chunk p
      → length p + r.aead.overhead ≤ r.capacity
      → Holds (frame r.aead r.nonce p ++ rest) r.conn
      → (c' : S) × (read_chunk (record r { fallback = some fb })
          ≡ (ok p, record r { nonce = increment (increment r.nonce); fallback = none; conn = c' }))
        × Holds rest c'
  unfolding read_chunk frame
  read_chunk-keep r fb p rest law h room holds =
      let size = be16 (length p) in
      let sealed = r.aead.seal (increment r.nonce) p in
      let holds' : Holds (r.aead.seal r.nonce size ++ (sealed ++ rest)) r.conn =
        rw (append_assoc (r.aead.seal r.nonce size) sealed rest) at holds in
      let (c1, e1, holds1) =
        read_sealed r.aead r.nonce size (sealed ++ rest) (2 + r.aead.overhead) r.conn law refl
          holds' in
      let (c2, e2, holds2) =
        read_payload-sealed (record r { nonce = increment r.nonce; fallback = none; conn = c1 }) p
          rest law h room holds1 in
      (c2, rw (e1, law.unseal-seal r.nonce size, payload_size-be16 (length p) h.1, e2), holds2)
