-- ===== src/Io.antt =====
-- What the program uses of Go's `io` and `net`: errors, byte connections, `Read`, `io.ReadFull` and
-- `Write`, as a state and error monad over one connection.
pub mod Laws
pub mod Streams
pub mod Errors
mod Types
pub use Types.*
use Prim.Native.String.{String}
use open_snell.Base.{
  ℕ, suc, ◌+◌, ◌-◌, min, List, [], ◌∷◌, ◌++◌, Option, none, some, ltb, leb, ◌==◌, if◌then◌else◌,
  length, take, drop,
}

-- The bytes that one `Read` into a slice of length `n` may return, by the network's next cut.
next_size : List ℕ → ℕ → ℕ
next_size [] n = n
next_size (k ∷ ks) n = min n (suc k)

-- `c.Read(b)` with `len(b) == n`: nothing for an empty slice, otherwise at least one byte, or the
-- error at the end of the input.
unfoldable pub read : ℕ → Action (List ℕ)
unfolding next_size
read n c =
    if n == 0
    then (ok [], c)
    else (if length c.input == 0
        then (err c.closing, c)
        else (let k = next_size c.cuts n in
            (ok (take k c.input), record c { input = drop k c.input; cuts = drop 1 c.cuts })))

-- `io.ReadFull` turns an end of file after some bytes into `io.ErrUnexpectedEOF`.
unfoldable pub cut_short : Error → Error
cut_short eof = unexpected_eof
cut_short e = e

-- `io.ReadFull(c, b)` with `len(b) == n`: all `n` bytes, or the error that came first. Its result
-- does not depend on how the network cuts the stream.
unfoldable pub read_full : ℕ → Action (List ℕ)
unfolding cut_short
read_full n c =
    if leb n (length c.input) then (ok (take n c.input), record c { input = drop n c.input }) else (
      err (if length c.input == 0 then c.closing else cut_short c.closing),
      record c { input = [] },
    )

send_by : List (Option (ℕ × Error)) → List ℕ → Conn → (ℕ × Option Error) × Conn
send_by [] b c = ((length b, none), record c { output = c.output ++ b })
send_by (none ∷ fs) b c = ((length b, none), record c { output = c.output ++ b; faults = fs })
send_by (some (k, e) ∷ fs) b c =
    ((min k (length b), some e), record c { output = c.output ++ take k b; faults = fs })

-- `n, err := c.Write(b)`
unfoldable pub send : List ℕ → Conn → (ℕ × Option Error) × Conn
unfolding send_by
send b c = send_by c.faults b c

unfoldable pub finish : {S : Type 0} → (ℕ × Option Error) × S → Result (Unit {0}) × S
finish ((n, none), c) = (ok tt, c)
finish ((n, some e), c) = (err e, c)

-- `_, err := c.Write(b)`
unfoldable pub write : List ℕ → Action (Unit {0})
unfolding send finish
write b c = finish (send b c)

-- What the layers above use of a `net.Conn`: `io.ReadFull(c, b)` with `len(b) == n`, and `c.Write(b)`.
pub record NetConn (S : Type 0) : Type 0 where
  pub read_full : ℕ → S → Result (List ℕ) × S
  pub send : List ℕ → S → (ℕ × Option Error) × S

-- `_, err := c.Write(b)`
unfoldable pub write_to_conn : {S : Type 0} ⦃io : NetConn S⦄ → List ℕ → S → Result (Unit {0}) × S
unfolding finish
write_to_conn ⦃io⦄ b c = finish (io.send b c)

-- A connection with nothing in between.
instance abbrev pub plain : NetConn Conn
plain = record { read_full = read_full; send = send }
