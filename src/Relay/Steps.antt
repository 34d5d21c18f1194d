-- ===== src/Relay/Steps.antt =====
-- `Relay` as a step relation: its two goroutines in any order.
use open_snell.Base.{
  ℕ, suc, ◌≤◌, ◌≡◌, List, [], ◌++◌, Bool, true, false, Option, none, some, if◌then◌else◌, length,
  take,
}
use open_snell.Io.{Error, op_error, deadline, reading, writing}
use open_snell.Io.Errors.{is_timeout}
use open_snell.Aead.Writer.{hide_eof}

-- One `io.CopyBuffer`. Of its source: the bytes that lie in buffers above the connection, from which a
-- `Read` takes whether the deadline is set or not; the bytes that the connection has still to give, and the
-- error behind them (`none` if it stays open and silent); and whether its read deadline is set. Then the
-- bytes that were read last and are not written yet, those that were written, and the result of the copy
-- once it has ended.
pub record Half : Type 0 where
  pub held : List ℕ
  pub input : List ℕ
  pub closing : Option Error
  pub expired : Bool
  pub pending : List ℕ
  pub moved : List ℕ
  pub result : Option (Option Error)

-- What a copy that runs may do. In its `Read`: take some of the bytes in the buffers; or, if there are none
-- and the deadline is not set, some of the connection's, of which others may come to lie in the buffers; or
-- return the error behind the last byte; or fail by the deadline. In its `Write`, which no read deadline
-- ends: write what was read; or fail, with the first `k` bytes of it written.
pub data Copies (h : Half) : Half → Type 0 where
  buffered :
      (p rest : List ℕ)
      → h.result ≡ none
      → h.pending ≡ []
      → 1 ≤ length p
      → h.held ≡ p ++ rest
      → Copies h (record h { held = rest; pending = p })
  fetches :
      (p q rest : List ℕ)
      → h.result ≡ none
      → h.pending ≡ []
      → h.expired ≡ false
      → h.held ≡ []
      → 1 ≤ length p
      → h.input ≡ p ++ (q ++ rest)
      → Copies h (record h { held = q; input = rest; pending = p })
  ends :
      (e : Error)
      → h.result ≡ none
      → h.pending ≡ []
      → h.expired ≡ false
      → h.held ≡ []
      → h.input ≡ []
      → h.closing ≡ some e
      → Copies h (record h { result = some (hide_eof e) })
  expires :
      h.result ≡ none
      → h.pending ≡ []
      → h.expired ≡ true
      → h.held ≡ []
      → Copies h (record h { result = some (some (op_error reading deadline)) })
  writes :
      h.result ≡ none
      → 1 ≤ length h.pending
      → Copies h (record h { moved = h.moved ++ h.pending; pending = [] })
  breaks :
      (k : ℕ) (e : Error)
      → h.result ≡ none
      → 1 ≤ length h.pending
      → Copies h (record h {
        moved = h.moved ++ take k h.pending;
        result = some (some (op_error writing e));
      })

-- `SetReadDeadline(time.Now())` on the source of the other copy, once this one has ended.
abbrev pub interrupt : Option (Option Error) → Half → Half
interrupt none h = h
interrupt (some r) h = record h { expired = true }

-- `out` copies from left to right, `back` from right to left, in a goroutine of its own.
pub record Pair : Type 0 where
  pub out : Half
  pub back : Half

pub data Step (p : Pair) : Pair → Type 0 where
  out_step :
      (h : Half) → Copies p.out h → Step p (record { out = h; back = interrupt h.result p.back })
  back_step :
      (h : Half) → Copies p.back h → Step p (record { out = interrupt h.result p.out; back = h })

-- What a source gives: the bytes in its buffers when the relay begins, and those of its connection.
pub record Source : Type 0 where
  pub held : List ℕ
  pub input : List ℕ
  pub closing : Option Error

abbrev pub new_half : Source → Half
new_half s = record {
  held = s.held;
  input = s.input;
  closing = s.closing;
  expired = false;
  pending = [];
  moved = [];
  result = none;
}

abbrev pub start : Source → Source → Pair
start l r = record { out = new_half l; back = new_half r }

-- The states that a relay comes to from its start, with the number of steps.
pub data Runs (s : Pair) : ℕ → Pair → Type 0 where
  begun : Runs s 0 s
  then_step : {n : ℕ} {p q : Pair} → Runs s n p → Step p q → Runs s (suc n) q

-- `Relay` returns when both copies have; a time-out is no error.
unfoldable pub drop_timeout : Option Error → Option Error
drop_timeout none = none
drop_timeout (some e) = if is_timeout e then none else some e
