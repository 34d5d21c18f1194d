-- ===== src/Layers/Whole.antt =====
-- `io.ReadFull` over a connection whose `Read` returns the next bytes.
use open_snell.Base.{
  ℕ, zero, suc, ◌+◌, ◌-◌, ◌≤◌, ◌<◌, ◌≡◌, refl, List, [], ◌∷◌, ◌++◌, Option, some, false, ◌==◌,
  arith, length, length-drop, drop, append-split,
}
use open_snell.Io.{Error, Result, ok}
use open_snell.Io.Streams.{ByteSource}
use open_snell.Layers.Loop.{Readable, read_loop, loop_read_full, looped, behind}

-- What a `Read` into a slice of length `n` makes of the bytes `b` that are to come: the next of them,
-- no more than fit, and none only where fewer such `Read`s are left.
abbrev pub Next :
    {S : Type 0} → (List ℕ → S → Type 0) → (S → ℕ) → ℕ → List ℕ → S → Result (List ℕ) × S → Type 0
Next {S} Holds stalls n b s x =
    (out : List ℕ) × (b' : List ℕ) × (s' : S) × (x ≡ (ok out, s'))
    × (out ++ b' ≡ b)
    × (length out ≤ n)
    × (stalls s' < stalls s + length out)
    × Holds b' s'

-- A connection from which the bytes `b` are to come.
pub record Stream {S : Type 0} (c : Readable S) : Type 1 where
  pub Holds : List ℕ → S → Type 0
  pub stalls : S → ℕ
  pub stalls_bound : (s : S) → stalls s ≤ c.idle_reads s
  pub read-Holds :
      (n : ℕ) (b : List ℕ) (s : S)
      → 0 < n
      → 0 < length b
      → Holds b s
      → Next Holds stalls n b s (c.read n s)

module _ {S : Type 0} (c : Readable S) (stream : Stream c) where
  open stream use {Holds, stalls, stalls_bound, read-Holds}

  read_loop-Holds :
      (f n : ℕ) (xs ys : List ℕ) (s : S)
      → Holds (xs ++ ys) s
      → length xs ≡ n
      → n + stalls s < f
      → (s' : S) × (read_loop c f n s ≡ some (ok xs, s')) × Holds ys s'
  unfolding read_loop
  read_loop-Holds zero n xs ys s h len fuel = absurd (omega arith)
  read_loop-Holds (suc f) n [] ys s h len fuel = let e : n ≡ 0 = omega arith in (s, rw e refl, h)
  read_loop-Holds (suc f) n (x ∷ xs) ys s h len fuel =
      let more : (n == 0) ≡ false = ground arith in
      let (out, b', s1, e, whole, fits, fewer, h1) =
        read-Holds n ((x ∷ xs) ++ ys) s (omega arith) (omega arith) h in
      let (front, back) = append-split out b' (x ∷ xs) ys whole (omega (arith, len)) in
      let left : length (drop (length out) (x ∷ xs)) ≡ n - length out =
        omega (arith, length-drop (length out) (x ∷ xs)) in
      let (s2, e2, h2) =
        read_loop-Holds f (n - length out) (drop (length out) (x ∷ xs)) ys s1 (rw back at h1) left
          (omega arith) in
      (s2, rw (more, e, e2, front) refl, h2)

  -- Where the `Read` of a connection returns the next bytes, or nothing a bounded number of times,
  -- `io.ReadFull` comes to an end: it returns exactly the bytes that fill its slice, with no error, and
  -- leaves those behind them to come.
  pub loop_read_full-Holds :
      (xs ys : List ℕ) (s : S)
      → Holds (xs ++ ys) s
      → (s' : S) × (loop_read_full c (length xs) s ≡ (ok xs, s')) × Holds ys s'
  unfolding loop_read_full
  loop_read_full-Holds xs ys s h =
      let (s', e, behind) =
        read_loop-Holds (suc (length xs + c.idle_reads s)) (length xs) xs ys s h refl
          (omega (arith, stalls_bound s)) in
      (s', rw e, behind)

abbrev pub stream_source :
    {S : Type 0} {c : Readable S} (send : List ℕ → S → (ℕ × Option Error) × S)
    → Stream c
    → ByteSource (looped c send)
stream_source {c} send stream = record {
  Holds = stream.Holds;
  read_full-Holds = λ xs ys s h. loop_read_full-Holds c stream xs ys s h;
}
