-- ===== src/Aead/Reader.antt =====
-- `reader` of components/aead/stream.go: sealed chunks back to a stream.
use open_snell.Base.{
  ℕ, zero, suc, ◌+◌, ◌%◌, List, [], ◌∷◌, Bool, true, false, Option, none, some, ltb, ◌==◌,
  if◌then◌else◌, length, get_or, take, drop, replicate, from_be16,
}
use open_snell.Io.{Conn, Error, Result, ok, err, panic, unopened, zero_chunk, NetConn, plain, send}
use open_snell.Aead.Types.{Aead, payload_size_mask}
use open_snell.Aead.Nonce.{increment}
use open_snell.Aead.Writer.{hide_eof}

-- `capacity` is `len(r.buf)`.
pub record Reader (S : Type 0) : Type 0 where
  pub aead : Aead
  pub nonce : List ℕ
  pub capacity : ℕ
  pub leftover : List ℕ
  pub fallback : Option Aead
  pub switched : Bool
  pub conn : S

-- `newReader`
unfoldable pub new_reader : {S : Type 0} → S → Aead → Option Aead → Reader S
new_reader c a fallback = record {
  aead = a;
  nonce = replicate a.nonce_size 0;
  capacity = payload_size_mask + a.overhead;
  leftover = [];
  fallback = fallback;
  switched = false;
  conn = c;
}

-- `r.Open` of the first size, while a fallback is set: by the other cipher if this one refuses.
unfoldable pub open_or_switch :
    {S : Type 0} → Option (List ℕ) → List ℕ → Aead → Reader S → Option (List ℕ) × Reader S
open_or_switch (some p) buf fb r = (some p, record r { fallback = none })
open_or_switch none buf fb r =
    (fb.unseal r.nonce buf, record r { aead = fb; switched = true; fallback = none })

unfoldable pub open_by : {S : Type 0} → Option Aead → List ℕ → Reader S → Option (List ℕ) × Reader S
unfolding open_or_switch
open_by none buf r = (r.aead.unseal r.nonce buf, r)
open_by (some fb) buf r = open_or_switch (r.aead.unseal r.nonce buf) buf fb r

-- `r.Open` of a sealed size, and `increment(r.nonce)`, which is made on an error too.
unfoldable pub open_size : {S : Type 0} → List ℕ → Reader S → Option (List ℕ) × Reader S
unfolding open_by
open_size buf r =
    let (p, r') = open_by r.fallback buf r in (p, record r' { nonce = increment r'.nonce })

unfoldable pub open_payload :
    {S : Type 0} → Result (List ℕ) × S → Reader S → Result (List ℕ) × Reader S
open_payload (err e, c) r = (err e, record r { conn = c })
open_payload (panic, c) r = (panic, record r { conn = c })
open_payload (ok buf, c) r = elim (r.aead.unseal r.nonce buf) [
  | none ↦ (err unopened, record r { nonce = increment r.nonce; conn = c })
  | some p ↦ (ok p, record r { nonce = increment r.nonce; conn = c })
]

-- `r.read()` behind the size. A slice behind the end of `r.buf` is a panic.
unfoldable pub read_payload :
    {S : Type 0} ⦃io : NetConn S⦄ → ℕ → Reader S → Result (List ℕ) × Reader S
unfolding open_payload
read_payload ⦃io⦄ size r =
    if size == 0
    then (err zero_chunk, r)
    else (if ltb r.capacity (size + r.aead.overhead)
        then (panic, r)
        else open_payload (io.read_full (size + r.aead.overhead) r.conn) r)

-- `(int(buf[0])<<8 + int(buf[1])) & payloadSizeMask`; the mask keeps the lowest 14 bits.
unfoldable pub payload_size : List ℕ → ℕ
payload_size p = from_be16 (get_or p 0 0) (get_or p 1 0) % (payload_size_mask + 1)

unfoldable pub read_sized :
    {S : Type 0} ⦃io : NetConn S⦄ → Option (List ℕ) × Reader S → Result (List ℕ) × Reader S
unfolding read_payload payload_size
read_sized (none, r) = (err unopened, r)
read_sized (some p, r) = read_payload (payload_size p) r

unfoldable pub read_opened :
    {S : Type 0} ⦃io : NetConn S⦄ → Result (List ℕ) × S → Reader S → Result (List ℕ) × Reader S
unfolding read_sized open_size
read_opened (err e, c) r = (err e, record r { conn = c })
read_opened (panic, c) r = (panic, record r { conn = c })
read_opened (ok buf, c) r = read_sized (open_size buf (record r { conn = c }))

-- `r.read()`: the payload of one chunk, which stands in `r.buf[:n]`.
unfoldable pub read_chunk : {S : Type 0} ⦃io : NetConn S⦄ → Reader S → Result (List ℕ) × Reader S
unfolding read_opened
read_chunk ⦃io⦄ r = read_opened (io.read_full (2 + r.aead.overhead) r.conn) r

unfoldable pub deliver : {S : Type 0} → ℕ → Result (List ℕ) × Reader S → Result (List ℕ) × Reader S
deliver n (ok p, r) = (ok (take n p), record r { leftover = drop n p })
deliver n (err e, r) = (err e, r)
deliver n (panic, r) = (panic, r)

-- `r.Read(b)` with `len(b) == n`
unfoldable pub reader_read :
    {S : Type 0} ⦃io : NetConn S⦄ → ℕ → Reader S → Result (List ℕ) × Reader S
unfolding deliver
reader_read n r =
    if ltb 0 (length r.leftover)
    then (ok (take n r.leftover), record r { leftover = drop n r.leftover })
    else deliver n (read_chunk r)

-- Where `WriteTo` ends: its two results, the writer that it filled, and the reader.
pub record Relayed : Type 0 where
  pub count : ℕ
  pub failure : Option Error
  pub sink : Conn
  pub reader : Reader Conn

unfoldable pub drain_on :
    (ℕ → Conn → Reader Conn → Option (Result Relayed))
    → ℕ
    → Reader Conn
    → (ℕ × Option Error) × Conn
    → Option (Result Relayed)
drain_on next n r ((nw, none), sink) = next (n + nw) sink r
drain_on next n r ((nw, some e), sink) =
    some (ok (record { count = n + nw; failure = some e; sink = sink; reader = r }))

-- One round of the second loop of `WriteTo`, from what `r.read()` returned.
unfoldable pub drain :
    (ℕ → Conn → Reader Conn → Option (Result Relayed))
    → ℕ
    → Conn
    → Result (List ℕ) × Reader Conn
    → Option (Result Relayed)
unfolding drain_on
drain next n sink (ok [], r) = next n sink r
drain next n sink (ok (x ∷ p), r) = drain_on next n r (send (x ∷ p) sink)
drain next n sink (err e, r) =
    some (ok (record { count = n; failure = hide_eof e; sink = sink; reader = r }))
drain next n sink (panic, r) = some panic

-- The second loop of `WriteTo`; `none` means that the fuel ran out.
unfoldable pub write_to_loop : ℕ → ℕ → Conn → Reader Conn → Option (Result Relayed)
unfolding drain
write_to_loop zero n sink r = none
write_to_loop (suc f) n sink r = drain (write_to_loop f) n sink (read_chunk r)

-- The first loop of `WriteTo`. A write without an error takes all, so there is one round at most.
unfoldable pub write_leftover : List ℕ → Conn → (ℕ × Option Error) × Conn
write_leftover [] sink = ((0, none), sink)
write_leftover (x ∷ p) sink = send (x ∷ p) sink

-- `r.WriteTo(w)`. Each round but the last takes two bytes of the input at least.
unfoldable pub write_to : Conn → Reader Conn → Option (Result Relayed)
unfolding write_leftover drain_on
write_to sink r =
    let ((nw, failure), sink') = write_leftover r.leftover sink in
    drain_on (write_to_loop (suc (length r.conn.input))) 0
      (record r { leftover = drop nw r.leftover }) ((nw, failure), sink')
