-- ===== src/Http/Taps.antt =====
-- Behind the first message, `Read` is that of a byte stream.
use open_snell.Base.{
  ℕ, zero, suc, ◌+◌, ◌≤◌, ◌<◌, ◌≡◌, inl, inr, refl, sym, ap, ◌∙◌, List, [], ◌∷◌, ◌++◌, append_assoc,
  append-nil, Option, none, some, arith, length, length-take, length-drop, take, drop,
  take-append-drop, take_all, drop_all, drop-append, ltb, ◌==◌, Bool-cases,
}
use open_snell.Io.{Conn, Result, ok}
use open_snell.Io.Laws.{read_some}
use open_snell.Http.Types.{Tap, let_go, read_buf, read_bio, keep_rest}

abbrev pub held : Option (List ℕ) → ℕ → List ℕ
held none offset = []
held (some b) offset = drop offset b

-- What the next `Read`s return.
abbrev pub to_come : Tap → List ℕ
to_come t = held t.buf t.offset ++ t.conn.input

abbrev pub InBuf : Option (List ℕ) → ℕ → Type 0
InBuf none offset = Unit {0}
InBuf (some b) offset = offset < length b

-- A `Read` returned the next bytes of `b`, one at least and no more than fit, and leaves the others.
abbrev pub Next : ℕ → List ℕ → Result (List ℕ) × Tap → Type 0
Next n b x =
    (out : List ℕ) × (t : Tap) × (x ≡ (ok out, t))
    × (out ++ to_come t ≡ b)
    × (0 < length out)
    × (length out ≤ n)
    × InBuf t.buf t.offset

drop-drop : (m n : ℕ) (xs : List ℕ) → drop n (drop m xs) ≡ drop (m + n) xs
drop-drop zero n xs = ap (λ (k : ℕ). drop k xs) (omega arith)
drop-drop (suc m) zero [] = let e : suc m + 0 ≡ suc m = omega arith in rw e
drop-drop (suc m) (suc n) [] = let e : suc m + suc n ≡ suc (m + suc n) = omega arith in rw e
drop-drop (suc m) n (x ∷ xs) =
    let e : suc m + n ≡ suc (m + n) = omega arith in rw e (drop-drop m n xs)

-- What a copy takes, and what it leaves.
copy_split : (n : ℕ) (d : List ℕ) → take n d ++ drop (length (take n d)) d ≡ d
copy_split n d =
    let rest : drop (length (take n d)) d ≡ drop n d =
      ap (λ (l : List ℕ). drop (length (take n d)) l) (sym (take-append-drop n d))
      ∙ drop-append (length (take n d)) (take n d) (drop n d) refl in
    ap (λ (l : List ℕ). take n d ++ l) rest ∙ take-append-drop n d

copy_split_from :
    (n o : ℕ) (b : List ℕ) → take n (drop o b) ++ drop (o + length (take n (drop o b))) b ≡ drop o b
copy_split_from n o b =
    let d = drop o b in
    ap (λ (l : List ℕ). take n d ++ l) (sym (drop-drop o (length (take n d)) b)) ∙ copy_split n d

pub read_buf-Next :
    (n : ℕ) (b : List ℕ) (t : Tap)
    → 0 < n
    → t.offset < length b
    → Next n (drop t.offset b ++ t.conn.input) (read_buf n b t)
unfolding read_buf let_go
read_buf-Next n b t hn ho =
    let out = take n (drop t.offset b) in
    let end : ℕ = t.offset + length out in
    let lo : 0 < length out =
      omega (arith, length-take n (drop t.offset b), length-drop t.offset b) in
    let hi : length out ≤ n = omega (arith, length-take n (drop t.offset b)) in
    let fits : end ≤ length b =
      omega (arith, length-take n (drop t.offset b), length-drop t.offset b) in
    elim (Bool-cases (end == length b)) [
      | inl e ↦
          let last : length b ≤ end = ground arith in
          let none_left : drop end b ≡ [] = drop_all end b last in
          let all : out ≡ drop t.offset b =
            sym (append-nil out)
            ∙ ap (λ (l : List ℕ). out ++ l) (sym none_left)
            ∙ copy_split_from n t.offset b in
          (
            out,
            record { buf = none; offset = 0; conn = t.conn },
            rw e,
            ap (λ (l : List ℕ). l ++ t.conn.input) all,
            lo,
            hi,
            tt,
          )
      | inr e ↦ (
        out,
        record { buf = some b; offset = end; conn = t.conn },
        rw e,
        sym (append_assoc out (drop end b) t.conn.input)
            ∙ ap (λ (l : List ℕ). l ++ t.conn.input) (copy_split_from n t.offset b),
        lo,
        hi,
        ground arith,
      )
    ]

pub read_bio-Next :
    (n : ℕ) (t : Tap)
    → 0 < n
    → t.buf ≡ none
    → 0 < length t.conn.input
    → Next n t.conn.input (read_bio n t)
unfolding read_bio
read_bio-Next n t hn e more =
    let (out, c, q, whole, lo, hi, same) = read_some n t.conn hn more in
    (out, record { buf = none; offset = t.offset; conn = c }, rw (q, e), whole, lo, hi, tt)

-- The body of a first message, in front of what stands on the connection.
pub keep_rest-Next :
    (n : ℕ) (body : List ℕ) (c : Conn) (t : Tap)
    → 0 < n
    → 0 < length body
    → t.buf ≡ none
    → Next n (body ++ c.input) (keep_rest n body c t)
unfolding keep_rest
keep_rest-Next n body c t hn hb e =
    let out = take n body in
    let lo : 0 < length out = omega (arith, length-take n body) in
    let hi : length out ≤ n = omega (arith, length-take n body) in
    elim (Bool-cases (ltb (length out) (length body))) [
      | inl some_left ↦ (
        out,
        record { buf = some body; offset = length out; conn = c },
        rw some_left,
        sym (append_assoc out (drop (length out) body) c.input)
            ∙ ap (λ (l : List ℕ). l ++ c.input) (copy_split n body),
        lo,
        hi,
        ground arith,
      )
      | inr none_left ↦
          let whole : length body ≤ n = ground (arith, length-take n body) in
          (
            out,
            record { buf = none; offset = t.offset; conn = c },
            rw (none_left, e),
            rw (take_all n body whole),
            lo,
            hi,
            tt,
          )
    ]
