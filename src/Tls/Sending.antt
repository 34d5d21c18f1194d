-- ===== src/Tls/Sending.antt =====
-- What `Write` puts on the wire: the hello with the first chunk, and the other chunks in records.
use open_snell.Base.{
  ℕ, zero, suc, ◌≤◌, ◌<◌, ◌≡◌, refl, ap, ◌∙◌, true, false, List, [], ◌∷◌, ◌++◌, append-nil,
  append_assoc, Option, none, arith, length, length-take, length-drop, take, drop, take-append-drop,
  All, joined,
}
use open_snell.Io.{Conn, Error}
use open_snell.Io.Laws.{send_well}
use open_snell.Tls.Types.{Draw, IsDraw, chunk_size}
use open_snell.Tls.Hello.{make_client_hello_msg}
use open_snell.Tls.Writing.{record_head, write_one, write_loop, write_next}
use open_snell.Tls.Client.{client_write, new_tls_client}
use open_snell.Tls.Server.{server_read, new_tls_server}
use open_snell.Tls.Records.{Piece, records}
use open_snell.Tls.ServerFlow.{Delivers, server_read-hello}

-- Writes that no fault awaits: the results, and what they add to the output.
abbrev pub Added : ℕ → List ℕ → Conn → (ℕ × Option Error) × Conn → Type 0
Added n b c r = r ≡ ((n, none), record c { output = c.output ++ b })

write_one-record :
    (hello : List ℕ → List ℕ) (p : List ℕ) (c : Conn)
    → c.faults ≡ []
    → Added (length p) (records (p ∷ [])) c (write_one hello false p c)
unfolding write_one
write_one-record hello p c h =
    let head = record_head (length p) in
    rw
      (
        send_well head c h,
        send_well p (record c { output = c.output ++ head }) h,
        append-nil,
        append_assoc c.output head p,
      )
      refl

write_one-hello :
    (hello : List ℕ → List ℕ) (p : List ℕ) (c : Conn)
    → c.faults ≡ []
    → Added (length p) (hello p) c (write_one hello true p c)
unfolding write_one
write_one-hello hello p c h = rw (send_well (hello p) c h)

-- The first chunk of some bytes, and the bytes behind it.
first_chunk :
    (x : ℕ) (b : List ℕ)
    → Piece (take chunk_size (x ∷ b)) × (length (drop chunk_size (x ∷ b)) ≤ length b)
first_chunk x b = (
  (omega (arith, length-take chunk_size (x ∷ b)), omega (arith, length-take chunk_size (x ∷ b))),
  omega (arith, length-drop chunk_size (x ∷ b)),
)

module _ (hello : List ℕ → List ℕ) (next : Conn → (ℕ × Option Error) × Conn) (total : ℕ)
    (p : List ℕ) (ps : List (List ℕ)) (c : Conn) (hc : c.faults ≡ []) where
  -- One chunk in a record, and the others behind it.
  then_records :
      (let c' = record c { output = c.output ++ records (p ∷ []) } in
        Added total (records ps) c' (next c'))
      → Added total (records (p ∷ ps)) c (write_next next (write_one hello false p c))
  unfolding write_next
  then_records e =
      rw
        (
          write_one-record hello p c hc,
          e,
          append_assoc c.output (records (p ∷ [])) (records ps),
          append-nil,
        )
        refl

  -- One chunk in the hello, and the others behind it.
  hello_then_records :
      (let c' = record c { output = c.output ++ hello p } in Added total (records ps) c' (next c'))
      → Added total (hello p ++ records ps) c (write_next next (write_one hello true p c))
  unfolding write_next
  hello_then_records e =
      rw (write_one-hello hello p c hc, e, append_assoc c.output (hello p) (records ps)) refl

pub write_loop-records :
    (f total : ℕ) (hello : List ℕ → List ℕ) (b : List ℕ) (c : Conn)
    → length b ≤ f
    → c.faults ≡ []
    → (ps : List (List ℕ)) × All Piece ps
      × (joined ps ≡ b)
      × Added total (records ps) c (write_loop f total hello false b c)
unfolding write_loop
write_loop-records f total hello [] c h hc = ([], tt, refl, rw append-nil)
write_loop-records zero total hello (x ∷ b) c h hc = absurd (omega arith)
write_loop-records (suc f) total hello (x ∷ b) c h hc =
    let p : List ℕ = take chunk_size (x ∷ b) in
    let (piece, shorter) = first_chunk x b in
    let c' : Conn = record c { output = c.output ++ records (p ∷ []) } in
    let (ps, pieces, whole, e) =
      write_loop-records f total hello (drop chunk_size (x ∷ b)) c' (omega arith) hc in
    (
      p ∷ ps,
      (piece, pieces),
      ap (λ l. p ++ l) whole ∙ take-append-drop chunk_size (x ∷ b),
      then_records hello (write_loop f total hello false (drop chunk_size (x ∷ b))) total p ps c hc
          e,
    )

-- The loop of a first `Write`.
pub write_loop-hello :
    (x total : ℕ) (b : List ℕ) (hello : List ℕ → List ℕ) (c : Conn)
    → c.faults ≡ []
    → (p : List ℕ) × (ps : List (List ℕ)) × Piece p
      × All Piece ps
      × (p ++ joined ps ≡ x ∷ b)
      × Added total
          (hello p ++ records ps)
          c
          (write_loop (length (x ∷ b)) total hello true (x ∷ b) c)
unfolding write_loop
write_loop-hello x total b hello c hc =
    let p : List ℕ = take chunk_size (x ∷ b) in
    let (piece, shorter) = first_chunk x b in
    let c' : Conn = record c { output = c.output ++ hello p } in
    let (ps, pieces, whole, e) =
      write_loop-records (length b) total hello (drop chunk_size (x ∷ b)) c' shorter hc in
    (
      p,
      ps,
      piece,
      pieces,
      ap (λ l. p ++ l) whole ∙ take-append-drop chunk_size (x ∷ b),
      hello_then_records hello (write_loop (length b) total hello false (drop chunk_size (x ∷ b)))
          total p ps c hc e,
    )

-- What a new client writes, a new server reads: `Write` of any bytes takes them all with no error, and
-- on the bytes that it put on the wire the server's first `Read`, into a slice of any length but 0,
-- returns the first of them, and leaves the server where every further `Read` returns the next, up to
-- the last.
pub server_read-client_write :
    (n x : ℕ) (b name : List ℕ) (d : Draw) (c s : Conn)
    → 0 < n
    → IsDraw d
    → length name ≤ 255
    → c.faults ≡ []
    → let (r, c') = client_write d (x ∷ b) (new_tls_client (record c { output = [] }) name) in
      (r ≡ (length (x ∷ b), none))
      × Delivers n (x ∷ b) (server_read n (new_tls_server (record s { input = c'.conn.output })))
unfolding client_write new_tls_client
server_read-client_write n x b name d c s hn law hname hc =
    let (p, ps, piece, pieces, whole, e) =
      write_loop-hello x (length (x ∷ b)) b (λ p. make_client_hello_msg d p name)
        (record c { output = [] }) hc in
    rw (e, ← whole) (refl, server_read-hello n d p name ps s hn law piece hname pieces)
