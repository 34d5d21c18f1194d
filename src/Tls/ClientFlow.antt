-- ===== src/Tls/ClientFlow.antt =====
-- The client's `Read` is the `Read` of a byte stream: it returns what the server wrote.
use open_snell.Base.{
  ℕ, ◌≤◌, ◌<◌, ◌≡◌, refl, ap, ◌∙◌, inl, inr, true, false, List, [], ◌∷◌, ◌++◌, append_assoc, none,
  arith, length, All, joined, lt→ltb, List-cases,
}
use open_snell.Io.{Result, ok}
use open_snell.Tls.Types.{Draw, IsDraw, TlsClient, TlsServer}
use open_snell.Tls.Hello.{put16, answer_head, make_server_hello}
use open_snell.Tls.Block.{Block}
use open_snell.Tls.Client.{client_read}
use open_snell.Tls.Server.{server_write}
use open_snell.Tls.Records.{Part, read_remain-Part, read_block-Part, Piece, records}
use open_snell.Tls.Shape.{length-answer_head}
use open_snell.Tls.Sending.{write_loop-hello}

-- Behind the first `Read`: `todo` is what is still to be delivered, `left` the rest of the block that is
-- begun, and then the records of `ps`.
pub record Flow (s : TlsClient) (todo : List ℕ) : Type 0 where
  pub left : List ℕ
  pub ps : List (List ℕ)
  pub pieces : All Piece ps
  pub input : s.conn.input ≡ left ++ records ps
  pub counted : s.remain ≡ length left
  pub whole : todo ≡ left ++ joined ps
  pub begun : s.first_response ≡ false

-- A `Read` of `n` bytes returns the next bytes of `todo`, one at least, and keeps the flow.
pub record Delivers (n : ℕ) (todo : List ℕ) (r : Result (List ℕ) × TlsClient) : Type 0 where
  pub out : List ℕ
  pub rest : List ℕ
  pub returned : r.0 ≡ ok out
  pub next : todo ≡ out ++ rest
  pub some : 0 < length out
  pub fits : length out ≤ n
  pub flow : Flow r.1 rest

abbrev over : TlsClient → List ℕ → TlsClient
over s inp = record s { conn = record s.conn { input = inp } }

-- From a part of a block to what `Read` has delivered.
Part-Delivers :
    (n : ℕ) (s : TlsClient) (p : List ℕ) (ps : List (List ℕ)) (b : Block)
    → Part n p (records ps) b
    → All Piece ps
    → Delivers n
        (p ++ joined ps)
        (b.result, record s { conn = b.conn; remain = b.remain; first_response = false })
Part-Delivers n s p ps b part pieces = record {
  out = part.out;
  rest = part.left ++ joined ps;
  returned = part.returned;
  next = rw (← part.whole) (append_assoc part.out part.left (joined ps));
  some = part.some;
  fits = part.fits;
  flow = record {
    left = part.left;
    ps = ps;
    pieces = pieces;
    input = part.input;
    counted = part.counted;
    whole = refl;
    begun = refl;
  };
}

-- Inside a block.
read_left :
    (n : ℕ) (s : TlsClient) (left : List ℕ) (ps : List (List ℕ))
    → 0 < n
    → 0 < length left
    → All Piece ps
    → s.first_response ≡ false
    → Delivers n
        (left ++ joined ps)
        (client_read n (record (over s (left ++ records ps)) { remain = length left }))
unfolding client_read
read_left n s left ps hn hl pieces begun =
    rw (lt→ltb 0 (length left) hl, begun)
      (Part-Delivers n s left ps _ (read_remain-Part n left (records ps) s.conn hn hl) pieces)

-- In front of a record.
read_record :
    (n : ℕ) (s : TlsClient) (p : List ℕ) (ps : List (List ℕ))
    → 0 < n
    → Piece p
    → All Piece ps
    → s.first_response ≡ false
    → Delivers n
        (p ++ joined ps)
        (client_read n (record (over s (records (p ∷ ps))) { remain = 0 }))
unfolding client_read
read_record n s p ps hn hp pieces begun = rw begun (
    Part-Delivers n s p ps _
      (read_block-Part n 3 (0x17 ∷ 0x03 ∷ 0x03 ∷ []) p (records ps) s.conn hn refl (omega arith)
        hp.0 (omega arith))
      pieces)

read_next :
    (n : ℕ) (s : TlsClient) (ps : List (List ℕ))
    → 0 < n
    → All Piece ps
    → s.first_response ≡ false
    → 0 < length (joined ps)
    → Delivers n (joined ps) (client_read n (record (over s (records ps)) { remain = 0 }))
read_next n s [] hn pieces begun more = absurd (omega arith)
read_next n s (p ∷ ps) hn (hp, pieces) begun more = read_record n s p ps hn hp pieces begun

read-Flow :
    (n : ℕ) (s : TlsClient) (todo inp : List ℕ) (k : ℕ) (f : Flow s todo)
    → 0 < n
    → 0 < length todo
    → inp ≡ f.left ++ records f.ps
    → k ≡ length f.left
    → Delivers n todo (client_read n (record (over s inp) { remain = k }))
read-Flow n s todo inp k f hn more ei ek = elim (List-cases f.left) [
  | inl empty ↦
      let start : inp ≡ records f.ps = ei ∙ ap (λ l. l ++ records f.ps) empty in
      let none_left : k ≡ 0 = ek ∙ ap length empty in
      let all : todo ≡ joined f.ps = f.whole ∙ ap (λ l. l ++ joined f.ps) empty in
      let some : 0 < length (joined f.ps) = omega (arith, ap length all) in
      rw (start, none_left, all) (read_next n s f.ps hn f.pieces f.begun some)
  | inr some ↦ rw (ei, ek, f.whole) (read_left n s f.left f.ps hn some f.pieces f.begun)
]

-- While there is something to deliver, every `Read` of the client into a slice that is not empty
-- returns the next bytes of what the server wrote, one at least and no more than fit, without an
-- error, and however the network cuts the stream; and so on from there.
pub client_read-Flow :
    (n : ℕ) (s : TlsClient) (todo : List ℕ)
    → 0 < n
    → 0 < length todo
    → Flow s todo
    → Delivers n todo (client_read n s)
client_read-Flow n s todo hn more f =
    read-Flow n s todo s.conn.input s.remain f hn more f.input f.counted

-- The first `Read` takes the data out of the server's hello, and the flow begins.
pub client_read-hello :
    (n : ℕ) (d : Draw) (p : List ℕ) (ps : List (List ℕ)) (s : TlsClient) (inp : List ℕ)
    → 0 < n
    → IsDraw d
    → Piece p
    → All Piece ps
    → s.first_response ≡ true
    → s.remain ≡ 0
    → inp ≡ make_server_hello d p ++ records ps
    → Delivers n (p ++ joined ps) (client_read n (over s inp))
unfolding client_read make_server_hello
client_read-hello n d p ps s inp hn law hp pieces first fresh e =
    let seam : (answer_head d ++ (put16 (length p) ++ p)) ++ records ps
        ≡ answer_head d ++ (put16 (length p) ++ (p ++ records ps)) =
      simp append_assoc in
    rw (e, fresh, first, seam)
      (Part-Delivers n s p ps _
        (read_block-Part n 105 (answer_head d) p (records ps) s.conn hn (length-answer_head d law)
          (omega arith) hp.0 (omega arith))
        pieces)

-- What a server writes first, a client that has read nothing yet reads: over a connection that has sent
-- nothing and takes every write, `Write` of any bytes takes them all with no error, and on the bytes that
-- it put on the wire the client's first `Read`, into a slice of any length but 0, returns the first of
-- them, and leaves the client where every further `Read` returns the next, up to the last. The random
-- parts of the hello have their lengths.
pub client_read-server_write :
    (n x : ℕ) (b : List ℕ) (d : Draw) (s : TlsServer) (c : TlsClient)
    → 0 < n
    → IsDraw d
    → s.conn.faults ≡ []
    → s.conn.output ≡ []
    → s.first_response ≡ true
    → c.first_response ≡ true
    → c.remain ≡ 0
    → let (r, s') = server_write d (x ∷ b) s in
      (r ≡ (length (x ∷ b), none))
      × Delivers n
          (x ∷ b)
          (client_read n (record c { conn = record c.conn { input = s'.conn.output } }))
unfolding server_write
client_read-server_write n x b d s c hn law clean empty answers waits fresh =
    let (p, ps, piece, pieces, whole, e) =
      write_loop-hello x (length (x ∷ b)) b (make_server_hello d) s.conn clean in
    rw (answers, e, ← whole)
      (
        refl,
        client_read-hello n d p ps c _ hn law piece pieces waits fresh
            (ap (λ (o : List ℕ). o ++ (make_server_hello d p ++ records ps)) empty),
      )
