-- ===== src/Tls/Records.antt =====
-- `readBlock` in front of one block: it returns a part of the block, and says what is left of it.
use open_snell.Base.{
  ℕ, ◌≤◌, ◌<◌, ◌≡◌, refl, inl, inr, List, [], ◌∷◌, ◌++◌, append-nil, append_assoc, arith, length,
  length-append, length-take, length-drop, take, drop, take-append-drop, append-split, min, ltb,
  lt→ltb, ltb-false, Bool-cases, ltb→lt, to_byte, to_u16, from_be16, ◌/◌,
}
use open_snell.Io.{Conn, ok, read_full}
use open_snell.Io.Laws.{read_full-append, read_full_enough, read_some}
use open_snell.Tls.Types.{chunk_size}
use open_snell.Tls.Hello.{put16}
use open_snell.Tls.Block.{Block, read_block, read_remain, read_body}

-- `out` was read of `p` and `q` is left, in front of `rest`.
pub record Part (n : ℕ) (p rest : List ℕ) (b : Block) : Type 0 where
  pub out : List ℕ
  pub left : List ℕ
  pub returned : b.result ≡ ok out
  pub counted : b.remain ≡ length left
  pub whole : out ++ left ≡ p
  pub input : b.conn.input ≡ left ++ rest
  pub some : 0 < length out
  pub fits : length out ≤ n

read_body-Part :
    (n : ℕ) (p rest : List ℕ) (c : Conn)
    → 0 < n
    → 0 < length p
    → Part n p rest (read_body n (length p) (record c { input = p ++ rest }))
unfolding read_body
read_body-Part n p rest c hn hp = elim (Bool-cases (ltb n (length p))) [
  | inl short ↦
      let bigger : n < length p = ltb→lt n (length p) short in
      let (out, c', e, cut, lo, hi, same) =
        read_some n (record c { input = p ++ rest }) hn (omega (arith, length-append p rest)) in
      let (a, b) = append-split out c'.input p rest cut (omega arith) in
      rw (short, e)
        (record {
          out = out;
          left = drop (length out) p;
          returned = refl;
          counted = omega (arith, length-drop (length out) p);
          whole = a;
          input = b;
          some = lo;
          fits = hi;
        })
  | inr long ↦
      rw (long, read_full-append (length p) p rest c refl)
        (record {
          out = p;
          left = [];
          returned = refl;
          counted = refl;
          whole = append-nil p;
          input = refl;
          some = hp;
          fits = ground arith;
        })
]

pub read_block-Part :
    (n skip : ℕ) (h p rest : List ℕ) (c : Conn)
    → 0 < n
    → length h ≡ skip
    → 0 < skip
    → 0 < length p
    → length p < 65536
    → Part n p rest
        (read_block n skip (record c { input = h ++ (put16 (length p) ++ (p ++ rest)) }))
unfolding read_block
read_block-Part n skip h p rest c hn hs pos hp small =
    let body = p ++ rest in
    let size : from_be16 (to_byte (to_u16 (length p) / 256)) (to_byte (to_u16 (length p)))
        ≡ length p =
      omega arith in
    rw
      (
        lt→ltb 0 skip pos,
        read_full-append skip h (put16 (length p) ++ body) c hs,
        read_full_enough 2 (put16 (length p) ++ body) c (omega arith),
        size,
      )
      (read_body-Part n p rest c hn hp)

-- The rest of a block that is begun.
pub read_remain-Part :
    (n : ℕ) (q rest : List ℕ) (c : Conn)
    → 0 < n
    → 0 < length q
    → Part n q rest (read_remain n (length q) (record c { input = q ++ rest }))
unfolding read_remain
read_remain-Part n q rest c hn hq =
    let k : ℕ = min (length q) n in
    let seam : q ++ rest ≡ take k q ++ (drop k q ++ rest) =
      rw (← append_assoc, take-append-drop k q) in
    let len : length (take k q) ≡ k = omega (arith, length-take k q) in
    let got : read_full k (record c { input = q ++ rest })
        ≡ (ok (take k q), record c { input = drop k q ++ rest }) =
      rw seam (read_full-append k (take k q) (drop k q ++ rest) c len) in
    rw got (record {
      out = take k q;
      left = drop k q;
      returned = refl;
      counted = omega (arith, length-append q rest, length-append (drop k q) rest, length-drop k q);
      whole = take-append-drop k q;
      input = refl;
      some = omega arith;
      fits = omega arith;
    })

-- A block that fits the slice is returned whole.
pub read_block-whole :
    (n skip : ℕ) (h p rest : List ℕ) (c : Conn)
    → length h ≡ skip
    → 0 < skip
    → length p ≤ n
    → length p < 65536
    → read_block n skip (record c { input = h ++ (put16 (length p) ++ (p ++ rest)) })
      ≡ record { result = ok p; remain = 0; conn = record c { input = rest } }
unfolding read_block
read_block-whole n skip h p rest c hs pos fits small =
    let body = p ++ rest in
    let size : from_be16 (to_byte (to_u16 (length p) / 256)) (to_byte (to_u16 (length p)))
        ≡ length p =
      omega arith in
    rw (
      lt→ltb 0 skip pos,
      read_full-append skip h (put16 (length p) ++ body) c hs,
      read_full_enough 2 (put16 (length p) ++ body) c (omega arith),
      size,
      ltb-false n (length p) fits,
      read_full-append (length p) p rest c refl,
    )

-- Chunks of data in records.
abbrev pub Piece : List ℕ → Type 0
Piece p = (1 ≤ length p) × (length p ≤ chunk_size)

abbrev pub records : List (List ℕ) → List ℕ
records [] = []
records (p ∷ ps) = (0x17 ∷ 0x03 ∷ 0x03 ∷ []) ++ (put16 (length p) ++ (p ++ records ps))
