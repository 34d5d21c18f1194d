-- ===== src/Mux/Copied.antt =====
-- Where the relay of a session leaves its connection.
use open_snell.Base.{
  ℕ, ◌≡◌, refl, sym, ap, ◌∙◌, List, [], ◌∷◌, true, false, Option, none, some, Bool-cases, inl, inr,
}
use open_snell.Io.{
  plain, Conn, send, Error, Result, ok, err, panic, text, app, op_error, writing, deadline, eof,
  unexpected_eof, short_buffer, zero_chunk, unopened, net, socks,
}
use open_snell.Io.Errors.{is_zero_chunk}
use open_snell.Io.Laws.{send-closing}
use open_snell.Aead.Writer.{hide_eof}
use open_snell.Snell.Session.{read_reply}
use open_snell.Mux.Link.{Link, advance, Cut, whole, stopped, broken, copy_in, drop_input}
use open_snell.Mux.Client.{
  Local, copy_error, copy_back, forgive, met_reply, copy_replied, copy_session,
}
use open_snell.Mux.Position.{
  Part, stream_of, next_session, zero_stays, NotZero, forgive-NotZero, copy_error-NotZero,
  next_session-advance, next_session-zero, IsOwn, reported, unsupported, Reads, read_reply-Reads,
}

-- The local connection does not fail with the error of the encrypted stream.
abbrev pub IsLocalCut : Option Cut → Type 0
IsLocalCut none = Unit {0}
IsLocalCut (some whole) = Unit {0}
IsLocalCut (some (stopped k)) = Unit {0}
IsLocalCut (some (broken k j e)) = is_zero_chunk e ≡ false

-- With `o` for the error of the relay, as far as it counts, and `next` for the stream behind the next
-- zero chunk: that one was met, or it is still to come.
abbrev pub Placed : Option (List Part) → Option Error → Link → Type 0
Placed next none l = next ≡ next_session (stream_of l)
Placed next (some e) l = is_zero_chunk e ≡ true → next ≡ some (stream_of l)

same-Placed :
    (next : Option (List Part)) (o : Option Error) (l : Link)
    → NotZero o
    → next ≡ next_session (stream_of l)
    → Placed next o l
same-Placed next none l h e = e
same-Placed next (some f) l h e = λ z. let no : true ≡ false = sym z ∙ h in absurd cc

-- Only what is to be read counts.
pub moved-Placed :
    (next : Option (List Part)) (o : Option Error) (l l' : Link)
    → stream_of l' ≡ stream_of l
    → Placed next o l
    → Placed next o l'
moved-Placed next none l l' e at = at ∙ ap next_session (sym e)
moved-Placed next (some f) l l' e at = λ z. at z ∙ ap some (sym e)

hide_eof-NotZero : (e : Error) → is_zero_chunk e ≡ false → NotZero (hide_eof e)
unfolding hide_eof
hide_eof-NotZero eof h = tt
hide_eof-NotZero unexpected_eof h = h
hide_eof-NotZero short_buffer h = h
hide_eof-NotZero zero_chunk h = h
hide_eof-NotZero unopened h = h
hide_eof-NotZero deadline h = h
hide_eof-NotZero (op_error o e) h = h
hide_eof-NotZero (net n) h = h
hide_eof-NotZero (text s) h = h
hide_eof-NotZero (socks n) h = h
hide_eof-NotZero (app n m) h = h

-- Only the error behind the part counts, not its bytes.
pub kept_now :
    (l : Link) (c : Conn)
    → c.closing ≡ l.now.closing
    → next_session (stream_of (record l { now = c })) ≡ next_session (stream_of l)
kept_now l c e = rw e

-- Behind the error that ended a copy.
met-Placed :
    (next : Option (List Part)) (e : Error) (l : Link)
    → is_zero_chunk e ≡ is_zero_chunk l.now.closing
    → l.now.input ≡ []
    → next ≡ next_session (stream_of l)
    → (l' : Link) → (is_zero_chunk e ≡ true → l' ≡ advance l)
    → ((is_zero_chunk e ≡ false) → next_session (stream_of l') ≡ next_session (stream_of l))
    → Placed next (forgive (copy_error (hide_eof e))) l'
unfolding hide_eof
met-Placed next e l same empty at l' met kept = elim (Bool-cases (is_zero_chunk e)) [
  | inl zero ↦
      rw (zero_stays e zero, met zero) (λ h. at ∙ next_session-zero l (sym same ∙ zero) empty)
  | inr other ↦
      same-Placed next (forgive (copy_error (hide_eof e))) l'
        (forgive-NotZero _ (copy_error-NotZero (hide_eof e) (hide_eof-NotZero e other)))
        (at ∙ sym (kept other))
]

met_reply_zero : (e : Error) (l : Link) → is_zero_chunk e ≡ true → met_reply e l ≡ advance l
unfolding met_reply is_zero_chunk
met_reply_zero zero_chunk l h = refl
met_reply_zero (op_error o e) l h = refl
met_reply_zero eof l h = refl
met_reply_zero unexpected_eof l h = refl
met_reply_zero short_buffer l h = refl
met_reply_zero unopened l h = refl
met_reply_zero deadline l h = refl
met_reply_zero (net n) l h = refl
met_reply_zero (socks n) l h = refl
met_reply_zero (text s) l h = let no : false ≡ true = h in absurd cc
met_reply_zero (app n m) l h = let no : false ≡ true = h in absurd cc

met_reply-next :
    (e : Error) (l : Link)
    → is_zero_chunk l.now.closing ≡ false
    → next_session (stream_of (met_reply e l)) ≡ next_session (stream_of l)
unfolding met_reply
met_reply-next zero_chunk l h = next_session-advance l h
met_reply-next (op_error o e) l h = next_session-advance l h
met_reply-next eof l h = next_session-advance l h
met_reply-next unexpected_eof l h = next_session-advance l h
met_reply-next short_buffer l h = next_session-advance l h
met_reply-next unopened l h = next_session-advance l h
met_reply-next deadline l h = next_session-advance l h
met_reply-next (net n) l h = next_session-advance l h
met_reply-next (socks n) l h = next_session-advance l h
met_reply-next (text s) l h = refl
met_reply-next (app n m) l h = refl

-- The error, the link behind it, of what a copy returns.
abbrev At : Option (List Part) → List ℕ × Option Error × Link → Type 0
At next (b, er, l) = Placed next (forgive er) l

copy_back-At :
    (next : Option (List Part)) (cut : Cut) (l : Link)
    → IsLocalCut (some cut)
    → next ≡ next_session (stream_of l)
    → At next (copy_back cut l)
unfolding copy_back is_zero_chunk forgive
copy_back-At next whole l clean at =
    let l0 : Link = record l { now = record l.now { input = [] } } in
    met-Placed next l.now.closing l0 refl refl at (advance l0) (λ z. refl)
      (λ other. next_session-advance l0 other)
copy_back-At next (stopped k) l clean at = at
copy_back-At next (broken k j e) l clean at =
    same-Placed next (forgive (copy_error (some (op_error writing e)))) (drop_input k l)
      (forgive-NotZero _ (copy_error-NotZero (some (op_error writing e)) clean)) at

own-At :
    (next : Option (List Part)) (e : Error) (l : Link)
    → IsOwn e
    → next ≡ next_session (stream_of l)
    → Placed next (forgive (copy_error (hide_eof e))) (met_reply e l)
unfolding met_reply copy_error hide_eof is_zero_chunk
own-At next _ l (reported n m) at =
    same-Placed next (forgive (copy_error (some (app n m)))) l
      (forgive-NotZero _ (copy_error-NotZero (some (app n m)) refl)) at
own-At next _ l (unsupported s) at =
    same-Placed next (forgive (copy_error (some (text s)))) l
      (forgive-NotZero _ (copy_error-NotZero (some (text s)) refl)) at

copy_session-At :
    (next : Option (List Part)) (cut : Option Cut) (l : Link)
    → IsLocalCut cut
    → next ≡ next_session (stream_of l)
    → At next (copy_session cut l)
unfolding copy_session copy_replied forgive
copy_session-At next none l clean at = at
copy_session-At next (some cut) l clean at = replied (read_reply l.now) (read_reply-Reads l.now)
  where
    replied :
        (x : Result (Unit {0}) × Conn)
        → Reads l.now x
        → At next (copy_replied cut (x.0, record l { now = x.1 }))
    replied (ok u, c) same =
        copy_back-At next cut (record l { now = c }) clean (at ∙ sym (kept_now l c same))
    replied (err e, c) (same, inl (zero, empty)) =
        met-Placed next e (record l { now = c }) (zero ∙ ap is_zero_chunk (sym same)) empty
          (at ∙ sym (kept_now l c same)) (met_reply e (record l { now = c }))
          (λ z. met_reply_zero e (record l { now = c }) z)
          (λ z. met_reply-next e (record l { now = c }) (ap is_zero_chunk same ∙ sym zero ∙ z))
    replied (err e, c) (same, inr own) =
        own-At next e (record l { now = c }) own (at ∙ sym (kept_now l c same))
    replied (panic, c) same = at ∙ sym (kept_now l c same)

copy_in-next :
    (b : List ℕ) (l : Link) → next_session (stream_of (copy_in b l)) ≡ next_session (stream_of l)
unfolding copy_in
copy_in-next [] l = refl
copy_in-next (x ∷ b) l = kept_now l (send (x ∷ b) l.now).1 (send-closing (x ∷ b) l.now)

-- Both copies of a session.
pub copies-At :
    (next : Option (List Part)) (t : Local) (l : Link)
    → IsLocalCut t.cut
    → next ≡ next_session (stream_of l)
    → At next (copy_session t.cut (copy_in t.up l))
copies-At next t l clean at =
    copy_session-At next t.cut (copy_in t.up l) clean (at ∙ sym (copy_in-next t.up l))
