-- ===== src/Layers/Loop.antt =====
-- `io.ReadFull` over the `Read` of any connection, as the loop that it is.
use open_snell.Base.{
  ℕ, zero, suc, ◌+◌, ◌-◌, List, [], ◌++◌, Option, none, some, ◌==◌, if◌then◌else◌, length,
}
use open_snell.Io.{Error, Result, ok, err, panic, cut_short, NetConn}

-- `Read(b)` with `len(b) == n`, and a bound on the `Read`s to come that return nothing.
pub record Readable (S : Type 0) : Type 0 where
  pub read : ℕ → S → Result (List ℕ) × S
  pub idle_reads : S → ℕ

module _ {S : Type 0} where
  -- What a round puts in front of the rounds behind it.
  unfoldable pub behind : List ℕ → Option (Result (List ℕ) × S) → Option (Result (List ℕ) × S)
  unfolding cut_short
  behind p none = none
  behind p (some (ok q, s)) = some (ok (p ++ q), s)
  behind p (some (err e, s)) = some (err (if length p == 0 then e else cut_short e), s)
  behind p (some (panic, s)) = some (panic, s)

  unfoldable pub round :
      (ℕ → S → Option (Result (List ℕ) × S))
      → ℕ
      → Result (List ℕ) × S
      → Option (Result (List ℕ) × S)
  unfolding behind
  round next n (ok p, s) = behind p (next (n - length p) s)
  round next n (err e, s) = some (err e, s)
  round next n (panic, s) = some (panic, s)

  -- `none` means that the fuel ran out.
  unfoldable pub read_loop : Readable S → ℕ → ℕ → S → Option (Result (List ℕ) × S)
  unfolding round
  read_loop c zero n s = none
  read_loop c (suc f) n s = if n == 0 then some (ok [], s) else round (read_loop c f) n (c.read n s)

  -- A loop that does not end is shown as a panic.
  unfoldable pub ended : S → Option (Result (List ℕ) × S) → Result (List ℕ) × S
  ended s none = (panic, s)
  ended s (some x) = x

  -- `io.ReadFull(c, b)` with `len(b) == n`
  unfoldable pub loop_read_full : Readable S → ℕ → S → Result (List ℕ) × S
  unfolding read_loop ended
  loop_read_full c n s = ended s (read_loop c (suc (n + c.idle_reads s)) n s)

  -- A connection by its `Read` and its `Write`.
  abbrev pub looped : Readable S → (List ℕ → S → (ℕ × Option Error) × S) → NetConn S
  looped c send = record { read_full = loop_read_full c; send = send }
