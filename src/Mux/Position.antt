-- ===== src/Mux/Position.antt =====
-- Where a connection stands in its stream: sessions end at the zero chunks.
use Prim.Native.String.{String}
use open_snell.Base.{
  get_or, not, ℕ, ◌≡◌, refl, sym, ap, ◌∙◌, List, [], ◌∷◌, true, false, Option, none, some,
  if◌then◌else◌, Bool-cases, inl, inr, ◌⊎◌, length, ◌==◌, leb,
}
use open_snell.Io.{
  plain, Conn, Error, Result, ok, err, panic, Action, bind_result, read_full, cut_short, text, app,
  op_error, copying, writing, reading, deadline, eof, unexpected_eof, short_buffer, zero_chunk,
  unopened, net, socks,
}
use open_snell.Io.Errors.{is_zero_chunk, is_timeout}
use open_snell.Aead.Writer.{hide_eof}
use open_snell.Relay.Steps.{drop_timeout}
use open_snell.Snell.Session.{read_report, read_reply, check_reply}
use open_snell.Mux.Link.{Link, next_part, advance}
use open_snell.Mux.Client.{copy_error, forgive}

-- What is still to be read, cut at the errors.
abbrev pub Part : Type 0
Part = List ℕ × Error

abbrev pub stream_of : Link → List Part
stream_of l = (l.now.input, l.now.closing) ∷ l.later

-- Behind an error comes the next part, and behind the last one the error again.
abbrev pub behind : Error → List Part → List Part
behind e [] = ([], e) ∷ []
behind e (p ∷ ps) = p ∷ ps

-- The stream behind the first zero chunk.
abbrev pub next_session : List Part → Option (List Part)
next_session [] = none
next_session ((b, e) ∷ ps) = if is_zero_chunk e then some (behind e ps) else next_session ps

zero-not_timeout : (e : Error) → is_zero_chunk e ≡ true → is_timeout e ≡ false
unfolding is_zero_chunk is_timeout
zero-not_timeout eof h = refl
zero-not_timeout unexpected_eof h = refl
zero-not_timeout short_buffer h = refl
zero-not_timeout zero_chunk h = refl
zero-not_timeout unopened h = refl
zero-not_timeout deadline h = cc
zero-not_timeout (op_error o e) h = zero-not_timeout e h
zero-not_timeout (net n) h = refl
zero-not_timeout (text s) h = refl
zero-not_timeout (socks n) h = refl
zero-not_timeout (app n m) h = refl

-- A copy does not hide a zero chunk, nor does the client forgive it.
pub zero_stays :
    (e : Error)
    → is_zero_chunk e ≡ true
    → forgive (copy_error (hide_eof e)) ≡ some (op_error copying e)
unfolding is_zero_chunk copy_error hide_eof drop_timeout is_timeout forgive
zero_stays zero_chunk h = refl
zero_stays (op_error o e) h = rw (zero-not_timeout e h) refl
zero_stays eof h = absurd (cc h)
zero_stays unexpected_eof h = absurd (cc h)
zero_stays short_buffer h = absurd (cc h)
zero_stays unopened h = absurd (cc h)
zero_stays deadline h = absurd (cc h)
zero_stays (net n) h = absurd (cc h)
zero_stays (text s) h = absurd (cc h)
zero_stays (socks n) h = absurd (cc h)
zero_stays (app n m) h = absurd (cc h)

-- No zero chunk, or no error.
abbrev pub NotZero : Option Error → Type 0
NotZero none = Unit {0}
NotZero (some e) = is_zero_chunk e ≡ false

pub forgive-NotZero : (o : Option Error) → NotZero o → NotZero (forgive o)
unfolding forgive
forgive-NotZero none h = tt
forgive-NotZero (some (op_error writing e)) h = tt
forgive-NotZero (some (op_error reading (app n m))) h = tt
forgive-NotZero (some (op_error copying (app n m))) h = tt
forgive-NotZero (some e) h = h

drop_timeout-NotZero : (e : Error) → is_zero_chunk e ≡ false → NotZero (drop_timeout (some e))
unfolding drop_timeout
drop_timeout-NotZero e h = elim (Bool-cases (is_timeout e)) [
  | inl late ↦ rw late tt
  | inr early ↦ rw early h
]

pub copy_error-NotZero : (o : Option Error) → NotZero o → NotZero (copy_error o)
unfolding copy_error is_zero_chunk
copy_error-NotZero none h = tt
copy_error-NotZero (some e) h = drop_timeout-NotZero (op_error copying e) h

next_part-stream :
    (l : Link) (ps : List Part)
    → ps ≡ l.later
    → l.now.input ≡ []
    → stream_of (next_part ps l) ≡ behind l.now.closing ps
next_part-stream l [] e empty = rw (← e, empty) refl
next_part-stream l ((b, f) ∷ ps) e empty = refl

-- Behind an error that was met.
pub advance-stream :
    (l : Link) → l.now.input ≡ [] → stream_of (advance l) ≡ behind l.now.closing l.later
advance-stream l empty = next_part-stream l l.later refl empty

next_session-behind :
    (e : Error) (ps : List Part)
    → is_zero_chunk e ≡ false
    → next_session (behind e ps) ≡ next_session ps
next_session-behind e [] h = rw h refl
next_session-behind e (p ∷ ps) h = refl

next_session-part :
    (l : Link) (ps : List Part)
    → ps ≡ l.later
    → is_zero_chunk l.now.closing ≡ false
    → next_session (stream_of (next_part ps l)) ≡ next_session ps
next_session-part l [] e h = rw (← e, h) refl
next_session-part l ((b, f) ∷ ps) e h = refl

-- Another error leaves the next session where it is.
pub next_session-advance :
    (l : Link)
    → is_zero_chunk l.now.closing ≡ false
    → next_session (stream_of (advance l)) ≡ next_session (stream_of l)
next_session-advance l h = next_session-part l l.later refl h ∙ sym (rw h refl)

pub next_session-zero :
    (l : Link)
    → is_zero_chunk l.now.closing ≡ true
    → l.now.input ≡ []
    → next_session (stream_of l) ≡ some (stream_of (advance l))
next_session-zero l h empty = rw h (ap some (sym (advance-stream l empty)))

-- The errors that `clientSession.Read` makes itself.
pub data IsOwn : Error → Type 0 where
  reported : (n : ℕ) (m : List ℕ) → IsOwn (app n m)
  unsupported : (s : String) → IsOwn (text s)

-- An error is that of the connection, which is read to its end then, or one of the session's own.
abbrev pub Fails : Conn → Error → Conn → Type 0
Fails c e c' = ((is_zero_chunk e ≡ is_zero_chunk c.closing) × (c'.input ≡ [])) ⊎ IsOwn e

abbrev pub Reads {ℓ} : {A : Type ℓ} → Conn → Result A × Conn → Type 0
Reads c (ok a, c') = c'.closing ≡ c.closing
Reads c (err e, c') = (c'.closing ≡ c.closing) × Fails c e c'
Reads c (panic, c') = c'.closing ≡ c.closing

cut_short-zero : (e : Error) → is_zero_chunk (cut_short e) ≡ is_zero_chunk e
unfolding cut_short is_zero_chunk
cut_short-zero eof = refl
cut_short-zero unexpected_eof = refl
cut_short-zero short_buffer = refl
cut_short-zero zero_chunk = refl
cut_short-zero unopened = refl
cut_short-zero deadline = refl
cut_short-zero (op_error o e) = refl
cut_short-zero (net n) = refl
cut_short-zero (text s) = refl
cut_short-zero (socks n) = refl
cut_short-zero (app n m) = refl

read_full-Reads : (n : ℕ) (c : Conn) → Reads c (read_full n c)
unfolding read_full
read_full-Reads n c = elim (Bool-cases (leb n (length c.input))) [
  | inl enough ↦ rw enough refl
  | inr short ↦ elim (Bool-cases (length c.input == 0)) [
    | inl none_left ↦ rw (short, none_left) (refl, inl (refl, refl))
    | inr some_left ↦ rw (short, some_left) (refl, inl (cut_short-zero c.closing, refl))
  ]
]

bind-Reads {ℓ κ} :
    {A : Type ℓ} {B : Type κ} (c : Conn) (x : Result A × Conn) (f : A → Action B)
    → Reads c x
    → ((a : A) (d : Conn) → Reads d (f a d))
    → Reads c (bind_result x f)
bind-Reads {B = B} c (ok a, d) f h k = onto (f a d) (k a d)
  where
    onto : (y : Result B × Conn) → Reads d y → Reads c y
    onto (ok b, d') e = e ∙ h
    onto (err e', d') (e, inl (same, empty)) = (e ∙ h, inl (same ∙ ap is_zero_chunk h, empty))
    onto (err e', d') (e, inr own) = (e ∙ h, inr own)
    onto (panic, d') e = e ∙ h
bind-Reads c (err e, d) f h k = h
bind-Reads c (panic, d) f h k = h

read_report-Reads : (d : Conn) → Reads d (read_report d)
unfolding read_report
read_report-Reads d = bind-Reads d (read_full 1 d) _ (read_full-Reads 1 d) λ a d1.
    bind-Reads d1 (read_full 1 d1) _ (read_full-Reads 1 d1) λ k d2.
      bind-Reads d2 (read_full (get_or k 0 0) d2) _ (read_full-Reads (get_or k 0 0) d2)
        (λ msg d3. (refl, inr (reported 0 msg)))

check_reply-Reads : (code : ℕ) (d : Conn) → Reads d (check_reply code d)
unfolding check_reply
check_reply-Reads code d = elim (Bool-cases (code == 0)) [
  | inl tunnel ↦ rw tunnel refl
  | inr other ↦ elim (Bool-cases (not (code == 2))) [
    | inl strange ↦ rw (other, strange) (refl, inr (unsupported _))
    | inr report ↦ rw (other, report) (read_report-Reads d)
  ]
]

pub read_reply-Reads : (c : Conn) → Reads c (read_reply c)
unfolding read_reply
read_reply-Reads c =
    bind-Reads c (read_full 1 c) (λ b. check_reply (get_or b 0 0)) (read_full-Reads 1 c)
      (λ b d. check_reply-Reads (get_or b 0 0) d)
