-- ===== src/Mux/Link.antt =====
-- A connection that carries sessions, as the encrypted stream shows it.
use open_snell.Base.{
  ◌*◌, ℕ, zero, suc, ◌+◌, List, [], ◌∷◌, ◌++◌, Option, none, some, length, take, drop,
}
use open_snell.Io.{
  Conn, Error, Result, ok, err, panic, Action, op_error, writing, read, write, send,
}
use open_snell.Aead.Writer.{hide_eof}
use open_snell.Relay.Steps.{drop_timeout}

-- `now` is the stream up to the next error that a `Read` meets, such as `ErrZeroChunk`, and `later`
-- what comes behind that error. `sent` is the output up to the last zero chunk, cut at the zero
-- chunks; the output behind it stands in `now`.
pub record Link : Type 0 where
  pub now : Conn
  pub later : List (List ℕ × Error)
  pub sent : List (List ℕ)

-- An error is met once; behind it comes the next part of the stream.
abbrev pub next_part : List (List ℕ × Error) → Link → Link
next_part [] l = l
next_part ((b, e) ∷ parts) l = record l {
  now = record l.now { input = b; closing = e };
  later = parts;
}

abbrev pub advance : Link → Link
advance l = next_part l.later l

-- What the code does with the connection between two errors of its reads.
abbrev pub on_now {ℓ} : {A : Type ℓ} → Action A → Link → Result A × Link
on_now m l = let (r, c) = m l.now in (r, record l { now = c })

unfoldable pub met : Result (List ℕ) × Link → Result (List ℕ) × Link
met (ok p, l) = (ok p, l)
met (err e, l) = (err e, advance l)
met (panic, l) = (panic, l)

-- `conn.Read(buf)` with `len(buf) == n`
unfoldable pub link_read : ℕ → Link → Result (List ℕ) × Link
unfolding met
link_read n l = met (on_now (read n) l)

-- `p.RelayBufferSize`
abbrev pub relay_buffer_size : ℕ
relay_buffer_size = 20 * 1024

unfoldable pub drain_on :
    (Link → Option (Error × Link)) → Result (List ℕ) × Link → Option (Error × Link)
drain_on next (ok p, l) = next l
drain_on next (err e, l) = some (e, l)
drain_on next (panic, l) = none

-- `for el == nil { _, err := conn.Read(buf); el = err }`; `none` means that the fuel ran out.
unfoldable pub drain : ℕ → Link → Option (Error × Link)
unfolding drain_on
drain zero l = none
drain (suc fuel) l = drain_on (drain fuel) (link_read relay_buffer_size l)

unfoldable pub closed : Result (Unit {0}) × Link → Option Error × Link
closed (ok u, l) =
    (none, record l { now = record l.now { output = [] }; sent = l.sent ++ (l.now.output ∷ []) })
closed (err e, l) = (some e, l)
closed (panic, l) = (none, l)

-- `_, err := conn.Write([]byte{})`: a zero chunk.
unfoldable pub write_zero : Link → Option Error × Link
unfolding closed
write_zero l = closed (on_now (write []) l)

-- How a copy of a relay out of the connection ends: behind the last byte; by the deadline, behind
-- `k` bytes; or by a write that failed, with `j` of the first `k` bytes written.
pub data Cut : Type 0 where
  whole : Cut
  stopped : ℕ → Cut
  broken : ℕ → ℕ → Error → Cut

abbrev pub drop_input : ℕ → Link → Link
drop_input k l = record l { now = record l.now { input = drop k l.now.input } }

-- The copy out of the connection: what was written, and what `Relay` returns for it.
unfoldable pub copy_out : Cut → Link → List ℕ × Option Error × Link
copy_out whole l = (
  l.now.input,
  drop_timeout (hide_eof l.now.closing),
  advance (record l { now = record l.now { input = [] } }),
)
copy_out (stopped k) l = (take k l.now.input, none, drop_input k l)
copy_out (broken k j e) l =
    (take j (take k l.now.input), drop_timeout (some (op_error writing e)), drop_input k l)

-- The copy into the connection. No byte is no write.
unfoldable pub copy_in : List ℕ → Link → Link
copy_in [] l = l
copy_in (x ∷ b) l = record l { now = (send (x ∷ b) l.now).1 }

-- What is left to read.
abbrev pub parts_size : List (List ℕ × Error) → ℕ
parts_size [] = 0
parts_size ((b, e) ∷ parts) = suc (length b + parts_size parts)

abbrev pub size : Link → ℕ
size l = length l.now.input + parts_size l.later
