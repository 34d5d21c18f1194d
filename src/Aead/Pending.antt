-- ===== src/Aead/Pending.antt =====
-- `reader.Read` as a byte stream, over any connection that delivers its bytes: the slices that it is
-- given do not show.
use open_snell.Base.{
  ℕ, ◌+◌, ◌≤◌, ◌<◌, ◌≡◌, refl, sym, ap, ◌∙◌, List, [], ◌∷◌, ◌++◌, append_assoc, none, false, arith,
  length, length-take, take, drop, take-append-drop, All, joined, ltb, lt→ltb, ltb-false, inl, inr,
  List-cases,
}
use open_snell.Io.{Result, ok, NetConn}
use open_snell.Io.Streams.{ByteSource}
use open_snell.Aead.Types.{IsAead, payload_size_mask}
use open_snell.Aead.Nonce.{increment}
use open_snell.Aead.Reader.{Reader, read_chunk, reader_read, deliver}
use open_snell.Aead.Writer.{frame}
use open_snell.Aead.Frames.{Chunk, frames}
use open_snell.Aead.Opening.{read_chunk-frame}

pub cut_whole : (n : ℕ) (p q : List ℕ) → take n p ++ (drop n p ++ q) ≡ p ++ q
cut_whole n p q =
    sym (append_assoc (take n p) (drop n p) q) ∙ ap (λ (l : List ℕ). l ++ q) (take-append-drop n p)

pub cut_some :
    (n : ℕ) (p : List ℕ) → 0 < n → 0 < length p → (0 < length (take n p)) × (length (take n p) ≤ n)
cut_some n p hn hp = omega (arith, length-take n p)

-- `b` is to come: what is left of a chunk, and chunks on the connection, in front of `rest`.
pub record Pending {S : Type 0} {io : NetConn S} (src : ByteSource io) (b rest : List ℕ)
    (r : Reader S) : Type 0 where
  pub law : IsAead r.aead
  pub settled : r.fallback ≡ none
  pub room : payload_size_mask + r.aead.overhead ≤ r.capacity
  pub chunks : List (List ℕ)
  pub fit : All Chunk chunks
  pub wire : src.Holds (frames r.aead r.nonce chunks ++ rest) r.conn
  pub whole : r.leftover ++ joined chunks ≡ b

-- What a `Read` makes of pending bytes: the next of them, and the others still to come.
abbrev pub Advances :
    {S : Type 0} {io : NetConn S}
    → ByteSource io
    → ℕ
    → List ℕ
    → List ℕ
    → Result (List ℕ) × Reader S
    → Type 0
Advances {S} src n b rest x =
    (out : List ℕ) × (b' : List ℕ) × (r' : Reader S) × (x ≡ (ok out, r'))
    × (out ++ b' ≡ b)
    × (0 < length out)
    × (length out ≤ n)
    × Pending src b' rest r'

module _ {S : Type 0} ⦃io : NetConn S⦄ (src : ByteSource io) where
  open src use {Holds}

  pub deliver-Pending :
      (n : ℕ) (p rest : List ℕ) (r : Reader S) (ps : List (List ℕ))
      → IsAead r.aead
      → r.fallback ≡ none
      → payload_size_mask + r.aead.overhead ≤ r.capacity
      → 0 < length p
      → All Chunk ps
      → Holds (frames r.aead r.nonce ps ++ rest) r.conn
      → 0 < n
      → Advances src n (p ++ joined ps) rest (deliver n (ok p, r))
  unfolding deliver
  deliver-Pending n p rest r ps law settled room hp fit wire hn =
      let (lo, hi) = cut_some n p hn hp in
      (
        take n p,
        drop n p ++ joined ps,
        record r { leftover = drop n p },
        refl,
        cut_whole n p (joined ps),
        lo,
        hi,
        record {
          law = law;
          settled = settled;
          room = room;
          chunks = ps;
          fit = fit;
          wire = wire;
          whole = refl;
        },
      )

  read_chunk-Pending :
      (n : ℕ) (rest : List ℕ) (r : Reader S) (ps : List (List ℕ))
      → IsAead r.aead
      → r.fallback ≡ none
      → payload_size_mask + r.aead.overhead ≤ r.capacity
      → All Chunk ps
      → Holds (frames r.aead r.nonce ps ++ rest) r.conn
      → 0 < n
      → 0 < length (joined ps)
      → Advances src n (joined ps) rest (deliver n (read_chunk r))
  read_chunk-Pending n rest r [] law settled room fit wire hn hb = absurd (omega arith)
  read_chunk-Pending n rest r (p ∷ ps) law settled room (hp, fit) wire hn hb =
      let head = frame r.aead r.nonce p in
      let n2 = increment (increment r.nonce) in
      let more = frames r.aead n2 ps ++ rest in
      let split : Holds (head ++ more) r.conn =
        rw (append_assoc head (frames r.aead n2 ps) rest) at wire in
      let same : r ≡ record r { fallback = none } = λ i. record r { fallback = settled i } in
      let (c', e, behind) = read_chunk-frame src r p more law hp (omega arith) split in
      let opened = ap (λ (x : Reader S). read_chunk x) same ∙ e in
      rw opened (
        deliver-Pending n p rest (record r { nonce = n2; fallback = none; conn = c' }) ps law refl
          room (omega arith) fit behind hn)

  -- While bytes of a sealed stream are to come on a connection that delivers its bytes, a `Read` into
  -- a slice that is not empty returns the next of them, one at least and no more than fit, with no
  -- error, and the others stay to come.
  pub reader_read-Pending :
      (n : ℕ) (b rest : List ℕ) (r : Reader S)
      → Pending src b rest r
      → 0 < n
      → 0 < length b
      → Advances src n b rest (reader_read n r)
  unfolding reader_read
  reader_read-Pending n b rest r p hn hb = elim (List-cases r.leftover) [
    | inl e ↦
        let all : joined p.chunks ≡ b = rw e at (p.whole) in
        let some_bytes : 0 < length (joined p.chunks) =
          omega (arith, ap (λ (l : List ℕ). length l) all) in
        let none_left : ltb 0 (length r.leftover) ≡ false =
          ltb-false 0 (length r.leftover) (omega (arith, ap (λ (l : List ℕ). length l) e)) in
        rw (none_left, ← all)
          (read_chunk-Pending n rest r p.chunks p.law p.settled p.room p.fit p.wire hn some_bytes)
    | inr more ↦
        rw (lt→ltb 0 (length r.leftover) more, ← p.whole)
          (unfold deliver in
            deliver-Pending n r.leftover rest r p.chunks p.law p.settled p.room more p.fit p.wire
              hn)
  ]
