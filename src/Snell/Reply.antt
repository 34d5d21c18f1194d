-- ===== src/Snell/Reply.antt =====
-- What the client's first `Read` makes of the server's answer.
use open_snell.Base.{
  ap, ◌∙◌, ◌==◌, if◌then◌else◌, ℕ, ◌≤◌, ◌≡◌, ◌≢◌, inl, inr, refl, List, [], ◌∷◌, ◌++◌, true, false,
  arith, length, ltb, length-take, Bool-cases, to_byte,
}
use open_snell.Io.Streams.{ByteSource}
use open_snell.Io.{NetConn, plain, Conn, ok, err, text, app}
use open_snell.Io.Laws.{read_full_enough, read_full-append, write_well}
use open_snell.Snell.Session.{
  session_read, read_reply, DialError, error_text, error_code, cut_text, report, write_error,
}

length-cut_text : (s : List ℕ) → length (cut_text s) ≤ 250
unfolding cut_text
length-cut_text s = elim (Bool-cases (ltb 250 (length s))) [
  | inl long ↦ rw long (omega (arith, length-take 250 s))
  | inr short ↦ rw short (ground arith)
]

pub read_reply-report :
    (e : DialError) (rest : List ℕ) (c : Conn)
    → read_reply (record c { input = report e ++ rest })
      ≡ (err (app 0 (cut_text (error_text e))), record c { input = rest })
unfolding read_reply report
read_reply-report e rest c =
    let msg = cut_text (error_text e) in
    let whole : to_byte (length msg) ≡ length msg = omega (arith, length-cut_text (error_text e)) in
    rw (
      whole,
      read_full_enough 1 (2 ∷ error_code e ∷ length msg ∷ msg ++ rest) c (omega arith),
      read_full_enough 1 (error_code e ∷ length msg ∷ msg ++ rest) c (omega arith),
      read_full_enough 1 (length msg ∷ msg ++ rest) c (omega arith),
      read_full-append (length msg) msg rest c refl,
    )

-- Over any connection that holds the report, the same error comes out.
pub read_reply-Holds :
    {S : Type 0} ⦃io : NetConn S⦄ (src : ByteSource io) (e : DialError) (rest : List ℕ) (s : S)
    → src.Holds (report e ++ rest) s
    → (s' : S) × (read_reply s ≡ (err (app 0 (cut_text (error_text e))), s')) × src.Holds rest s'
unfolding read_reply report
read_reply-Holds ⦃io⦄ src e rest s h =
    let msg = cut_text (error_text e) in
    let whole : to_byte (length msg) ≡ length msg = omega (arith, length-cut_text (error_text e)) in
    let tail : List ℕ = error_code e ∷ to_byte (length msg) ∷ (msg ++ rest) in
    let (s1, e1, h1) = src.read_full-Holds (2 ∷ []) tail s h in
    let (s2, e2, h2) =
      src.read_full-Holds (error_code e ∷ []) (to_byte (length msg) ∷ (msg ++ rest)) s1 h1 in
    let (s3, e3, h3) = src.read_full-Holds (to_byte (length msg) ∷ []) (msg ++ rest) s2 h2 in
    let (s4, e4, h4) = src.read_full-Holds msg rest s3 h3 in
    let got : io.read_full (to_byte (length msg)) s3 ≡ (ok msg, s4) =
      ap (λ (k : ℕ). io.read_full k s3) whole ∙ e4 in
    (s4, rw (e1, e2, e3, got) refl, h4)

pub read_reply-tunnel :
    (rest : List ℕ) (c : Conn)
    → read_reply (record c { input = 0 ∷ rest }) ≡ (ok tt, record c { input = rest })
unfolding read_reply
read_reply-tunnel rest c = rw (read_full_enough 1 (0 ∷ rest) c (omega arith)) refl

session_read-report :
    (n : ℕ) (e : DialError) (rest : List ℕ) (c : Conn)
    → session_read n (record { conn = record c { input = report e ++ rest }; reply = false }) ≡ (
      err (app 0 (cut_text (error_text e))),
      record { conn = record c { input = rest }; reply = true },
    )
unfolding session_read
session_read-report n e rest c = rw (read_reply-report e rest c)

-- An error that the server reports reaches the client: the first `Read` of a session, into a slice of
-- any length, fails with an `AppError` that carries the first 250 bytes of the error's text and the
-- code 0, takes exactly the report, and marks the session as answered.
pub session_read-write_error :
    (n : ℕ) (e : DialError) (rest : List ℕ) (s c : Conn)
    → s.faults ≡ []
    → let (r, s') = write_error e (record s { output = [] }) in
      (r ≡ ok tt)
      × (session_read n (record { conn = record c { input = s'.output ++ rest }; reply = false })
          ≡ (
            err (app 0 (cut_text (error_text e))),
            record { conn = record c { input = rest }; reply = true },
          ))
unfolding write_error
session_read-write_error n e rest s c hs =
    rw (write_well (report e) (record s { output = [] }) hs) (refl, session_read-report n e rest c)

-- The first `Read` of a session behind a byte that is not `ResponseError`: after `ResponseTunnel` it
-- is the `Read` of a session that is answered already, and after any other byte it fails and takes
-- that byte alone. Either way the session is answered afterwards.
pub session_read_first :
    (n code : ℕ) (xs : List ℕ) (c : Conn)
    → code ≢ 2
    → session_read n (record { conn = record c { input = code ∷ xs }; reply = false }) ≡ (
        if code == 0
        then session_read n (record { conn = record c { input = xs }; reply = true })
        else (
          err (text "Command not support"),
          record { conn = record c { input = xs }; reply = true },
        ))
unfolding session_read
session_read_first n code xs c h =
    rw (read_full_enough 1 (code ∷ xs) c (omega arith)) (elim (Bool-cases (code == 0)) [
      | inl tunnel ↦ rw tunnel
      | inr other ↦ let ne : (code == 2) ≡ false = ground arith in rw (other, ne)
    ])
