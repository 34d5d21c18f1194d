-- ===== src/Tls/ServerFlow.antt =====
-- The server's `Read` is the `Read` of a byte stream: it returns what the client wrote.
use open_snell.Base.{
  ℕ, ◌≤◌, ◌<◌, ◌≡◌, ◌⊎◌, refl, ap, ◌∙◌, inl, inr, Bool, true, false, List, [], ◌∷◌, ◌++◌,
  append_assoc, arith, length, All, joined, lt→ltb, List-cases,
}
use open_snell.Io.{Conn, Result, ok}
use open_snell.Io.Laws.{read_full-append}
use open_snell.Tls.Types.{Draw, IsDraw, TlsServer}
use open_snell.Tls.Hello.{
  put16, hello_head, hello_tail, name_head, last_exts, make_client_hello_msg,
}
use open_snell.Tls.Block.{Block}
use open_snell.Tls.Server.{server_read, skip_other_exts, new_tls_server}
use open_snell.Tls.Records.{
  Part, read_remain-Part, read_block-Part, read_block-whole, Piece, records,
}
use open_snell.Tls.Shape.{length-hello_head, length-name_head, length-last_exts}

-- The bytes between the block that is begun and the records, by the state of the session ticket.
abbrev pub Gap : Bool → List ℕ → Type 0
Gap done gap =
    ((done ≡ true) × (gap ≡ []))
    ⊎ ((name : List ℕ) × (done ≡ false) × (gap ≡ hello_tail name) × (length name ≤ 255))

-- Behind the first `Read`: `todo` is what is still to be delivered, `left` the rest of the block that is
-- begun, and then the records of `ps`.
pub record Flow (s : TlsServer) (todo : List ℕ) : Type 0 where
  pub left : List ℕ
  pub gap : List ℕ
  pub ps : List (List ℕ)
  pub pieces : All Piece ps
  pub input : s.conn.input ≡ left ++ (gap ++ records ps)
  pub counted : s.remain ≡ length left
  pub whole : todo ≡ left ++ joined ps
  pub begun : s.first_request ≡ false
  pub ticket : Gap s.session_ticket_done gap

-- A `Read` of `n` bytes returns the next bytes of `todo`, one at least, and keeps the flow.
pub record Delivers (n : ℕ) (todo : List ℕ) (r : Result (List ℕ) × TlsServer) : Type 0 where
  pub out : List ℕ
  pub rest : List ℕ
  pub returned : r.0 ≡ ok out
  pub next : todo ≡ out ++ rest
  pub some : 0 < length out
  pub fits : length out ≤ n
  pub flow : Flow r.1 rest

abbrev over : TlsServer → List ℕ → TlsServer
over s inp = record s { conn = record s.conn { input = inp } }

-- From a part of a block to what `Read` has delivered.
Part-Delivers :
    (n : ℕ) (s : TlsServer) (p gap : List ℕ) (ps : List (List ℕ)) (b : Block)
    → Part n p (gap ++ records ps) b
    → All Piece ps
    → s.first_request ≡ false
    → Gap s.session_ticket_done gap
    → Delivers n (p ++ joined ps) (b.result, record s { conn = b.conn; remain = b.remain })
Part-Delivers n s p gap ps b part pieces begun ticket = record {
  out = part.out;
  rest = part.left ++ joined ps;
  returned = part.returned;
  next = rw (← part.whole) (append_assoc part.out part.left (joined ps));
  some = part.some;
  fits = part.fits;
  flow = record {
    left = part.left;
    gap = gap;
    ps = ps;
    pieces = pieces;
    input = part.input;
    counted = part.counted;
    whole = refl;
    begun = begun;
    ticket = ticket;
  };
}

-- Inside a block.
read_left :
    (n : ℕ) (s : TlsServer) (left gap : List ℕ) (ps : List (List ℕ))
    → 0 < n
    → 0 < length left
    → All Piece ps
    → s.first_request ≡ false
    → Gap s.session_ticket_done gap
    → Delivers n
        (left ++ joined ps)
        (server_read n (record (over s (left ++ (gap ++ records ps))) { remain = length left }))
unfolding server_read
read_left n s left gap ps hn hl pieces begun ticket = rw (lt→ltb 0 (length left) hl) (
    Part-Delivers n s left gap ps _ (read_remain-Part n left (gap ++ records ps) s.conn hn hl)
      pieces begun ticket)

-- In front of a record.
read_record :
    (n : ℕ) (s : TlsServer) (p : List ℕ) (ps : List (List ℕ))
    → 0 < n
    → Piece p
    → All Piece ps
    → s.first_request ≡ false
    → s.session_ticket_done ≡ true
    → Delivers n
        (p ++ joined ps)
        (server_read n (record (over s (records (p ∷ ps))) { remain = 0 }))
unfolding server_read
read_record n s p ps hn hp pieces begun done =
    rw (begun, done)
      (Part-Delivers n (record s { first_request = false; session_ticket_done = true }) p [] ps _
        (read_block-Part n 3 (0x17 ∷ 0x03 ∷ 0x03 ∷ []) p (records ps) s.conn hn refl (omega arith)
          hp.0 (omega arith))
        pieces refl (inl (refl, refl)))

skip_other_exts-tail :
    (s : TlsServer) (name rest : List ℕ)
    → length name ≤ 255
    → skip_other_exts (over s (hello_tail name ++ rest))
      ≡ (ok last_exts, record (over s rest) { remain = 0 })
unfolding skip_other_exts hello_tail
skip_other_exts-tail s name rest h =
    let seam : (name_head name ++ (put16 (length name) ++ (name ++ last_exts))) ++ rest
        ≡ name_head name ++ (put16 (length name) ++ (name ++ (last_exts ++ rest))) =
      simp append_assoc in
    rw (
      seam,
      read_block-whole 256 7 (name_head name) name (last_exts ++ rest) s.conn
          (length-name_head name) (omega arith) (omega arith) (omega arith),
      read_full-append 66 last_exts rest s.conn length-last_exts,
    )

-- In front of the first record, where the rest of the hello is skipped.
read_first_record :
    (n : ℕ) (s : TlsServer) (name p : List ℕ) (ps : List (List ℕ))
    → 0 < n
    → Piece p
    → All Piece ps
    → length name ≤ 255
    → s.first_request ≡ false
    → s.session_ticket_done ≡ false
    → Delivers n
        (p ++ joined ps)
        (server_read n (record (over s (hello_tail name ++ records (p ∷ ps))) { remain = 0 }))
unfolding server_read
read_first_record n s name p ps hn hp pieces hname begun done =
    rw
      (
        begun,
        done,
        skip_other_exts-tail
            (record s { first_request = false; session_ticket_done = true; remain = 0 }) name
            (records (p ∷ ps)) hname,
      )
      (Part-Delivers n (record s { first_request = false; session_ticket_done = true }) p [] ps _
        (read_block-Part n 3 (0x17 ∷ 0x03 ∷ 0x03 ∷ []) p (records ps) s.conn hn refl (omega arith)
          hp.0 (omega arith))
        pieces refl (inl (refl, refl)))

-- A flow with the block that is begun read to its end.
read_next :
    (n : ℕ) (s : TlsServer) (gap : List ℕ) (ps : List (List ℕ))
    → 0 < n
    → All Piece ps
    → s.first_request ≡ false
    → Gap s.session_ticket_done gap
    → 0 < length (joined ps)
    → Delivers n (joined ps) (server_read n (record (over s (gap ++ records ps)) { remain = 0 }))
read_next n s gap [] hn pieces begun ticket more = absurd (omega arith)
read_next n s gap (p ∷ ps) hn (hp, pieces) begun (inl (done, e)) more =
    rw e (read_record n s p ps hn hp pieces begun done)
read_next n s gap (p ∷ ps) hn (hp, pieces) begun (inr (name, done, e, h)) more =
    rw e (read_first_record n s name p ps hn hp pieces h begun done)

read-Flow :
    (n : ℕ) (s : TlsServer) (todo inp : List ℕ) (k : ℕ) (f : Flow s todo)
    → 0 < n
    → 0 < length todo
    → inp ≡ f.left ++ (f.gap ++ records f.ps)
    → k ≡ length f.left
    → Delivers n todo (server_read n (record (over s inp) { remain = k }))
read-Flow n s todo inp k f hn more ei ek = elim (List-cases f.left) [
  | inl empty ↦
      let start : inp ≡ f.gap ++ records f.ps = ei ∙ ap (λ l. l ++ (f.gap ++ records f.ps)) empty in
      let none_left : k ≡ 0 = ek ∙ ap length empty in
      let all : todo ≡ joined f.ps = f.whole ∙ ap (λ l. l ++ joined f.ps) empty in
      let some : 0 < length (joined f.ps) = omega (arith, ap length all) in
      rw (start, none_left, all) (read_next n s f.gap f.ps hn f.pieces f.begun f.ticket some)
  | inr some ↦
      rw (ei, ek, f.whole) (read_left n s f.left f.gap f.ps hn some f.pieces f.begun f.ticket)
]

-- While there is something to deliver, every `Read` into a slice that is not empty returns the next
-- bytes of what the client wrote, one at least and no more than fit, without an error, and however
-- the network cuts the stream; and so on from there.
pub server_read-Flow :
    (n : ℕ) (s : TlsServer) (todo : List ℕ)
    → 0 < n
    → 0 < length todo
    → Flow s todo
    → Delivers n todo (server_read n s)
server_read-Flow n s todo hn more f =
    read-Flow n s todo s.conn.input s.remain f hn more f.input f.counted

-- The first `Read` of a new server takes the data out of the client's hello, and the flow begins.
pub server_read-hello :
    (n : ℕ) (d : Draw) (p name : List ℕ) (ps : List (List ℕ)) (c : Conn)
    → 0 < n
    → IsDraw d
    → Piece p
    → length name ≤ 255
    → All Piece ps
    → Delivers n (p ++ joined ps) (
        server_read n
          (new_tls_server (record c { input = make_client_hello_msg d p name ++ records ps })))
unfolding server_read new_tls_server make_client_hello_msg
server_read-hello n d p name ps c hn law hp hname pieces =
    let head = hello_head d (length p) (length name) in
    let seam : (head ++ (put16 (length p) ++ (p ++ hello_tail name))) ++ records ps
        ≡ head ++ (put16 (length p) ++ (p ++ (hello_tail name ++ records ps))) =
      simp append_assoc in
    rw seam (
      Part-Delivers n (record (new_tls_server c) { first_request = false }) p (hello_tail name) ps _
        (read_block-Part n 140 head p (hello_tail name ++ records ps) c hn
          (length-hello_head d (length p) (length name) law) (omega arith) hp.0 (omega arith))
        pieces refl (inr (name, refl, refl, hname)))
