-- ===== src/Mux/Answers.antt =====
-- A client's session on what the server sends back.
use open_snell.Base.{
  ℕ, suc, ◌≡◌, refl, List, [], ◌∷◌, ◌++◌, append-nil, true, false, Option, none, some, arith,
  length, drop,
}
use open_snell.Io.{plain, Error, err, zero_chunk, op_error, copying, app}
use open_snell.Io.Errors.{is_zero_chunk, is_timeout}
use open_snell.Io.Laws.{write_to_conn_well}
use open_snell.Aead.Writer.{hide_eof}
use open_snell.Relay.Steps.{drop_timeout}
use open_snell.Socks5.Text.{NetLib, parse_uint16}
use open_snell.Snell.Header.{header, write_header}
use open_snell.Snell.Session.{DialError, report, read_reply, cut_text, error_text}
use open_snell.Snell.Reply.{read_reply-report, read_reply-tunnel}
use open_snell.Mux.Link.{Cut, whole, stopped, broken}
use open_snell.Mux.Drains.{drain_lem}
use open_snell.Mux.Visits.{streamed, reply_by, uploaded}
use open_snell.Mux.Serving.{within, write_zero_lem, copy_in_lem}
use open_snell.Mux.Client.{
  Session, Local, pooled, put_session, put_checked, await_end, finish_by, finish, copy_error,
  copy_back, forgive, relay_session, copy_session, stream_conn, use_session,
}

-- The ends of a copy to the local connection that leave the session in use.
abbrev pub Unbroken : Option Cut → Type 0
Unbroken none = Unit {0}
Unbroken (some whole) = Unit {0}
Unbroken (some (stopped k)) = Unit {0}
Unbroken (some (broken k j e)) = ⊥

abbrev pub delivered : Option DialError → Option Cut → List ℕ → List ℕ
delivered f none down = []
delivered none (some cut) down = uploaded cut down
delivered (some d) (some cut) down = []

-- A session as the pool hands it out.
abbrev pub fresh : List ℕ → List (List ℕ) → List (List ℕ) → Session
fresh cuts sent bs = record { link = streamed cuts sent bs; reply = false }

finish-within :
    (er : Option Error) (input cuts output : List ℕ) (sent bs : List (List ℕ))
    → forgive er ≡ none
    → (cuts' : List ℕ) × (finish true (er, within input cuts output sent bs)
        ≡ pooled (fresh cuts' (sent ++ (output ∷ [])) bs))
unfolding finish await_end put_checked put_session is_zero_chunk
finish-within er input cuts output sent bs h =
    let (cuts', e) =
      drain_lem (suc (length input)) (within input cuts [] (sent ++ (output ∷ [])) bs)
        (omega arith) in
    (
      cuts',
      rw (write_zero_lem (within input cuts output sent bs) refl, finish_by, h, await_end, e) refl,
    )

finish-behind :
    (cuts output : List ℕ) (sent bs : List (List ℕ))
    → finish true (
      some (op_error copying zero_chunk),
      record (streamed cuts sent bs) {
        now = record (streamed cuts sent bs).now { output = output };
      },
    )
      ≡ pooled (fresh cuts (sent ++ (output ∷ [])) bs)
unfolding finish finish_by forgive await_end put_checked put_session is_zero_chunk
finish-behind cuts output sent bs = rw (
    write_zero_lem
      (record (streamed cuts sent bs) {
        now = record (streamed cuts sent bs).now { output = output };
      })
      refl)

-- From the relay on, with the header and the uploaded bytes in `output`.
answered :
    (f : Option DialError) (cut : Option Cut) (down cuts output : List ℕ) (sent bs : List (List ℕ))
    → Unbroken cut
    → let (got, er, l) = copy_session cut (within (reply_by f down) cuts output sent bs) in
      (got ≡ delivered f cut down)
      × (cuts' : List ℕ) × (finish true (er, l) ≡ pooled (fresh cuts' (sent ++ (output ∷ [])) bs))
unfolding copy_session copy_back copy_error drop_timeout hide_eof is_timeout forgive
answered f none down cuts output sent bs u =
    let (cuts', e) = finish-within none (reply_by f down) cuts output sent bs refl in
    (refl, cuts', e)
answered none (some whole) down cuts output sent bs u =
    rw (read_reply-tunnel down (within (0 ∷ down) cuts output sent bs).now)
      (refl, cuts, finish-behind cuts output sent bs)
answered none (some (stopped k)) down cuts output sent bs u =
    let (cuts', e) = finish-within none (drop k down) cuts output sent bs refl in
    rw (read_reply-tunnel down (within (0 ∷ down) cuts output sent bs).now) (refl, cuts', e)
answered none (some (broken k j e)) down cuts output sent bs u = absurd u
answered (some d) (some cut) down cuts output sent bs u =
    let msg = cut_text (error_text d) in
    let (cuts', e) =
      finish-within (some (op_error copying (app 0 msg))) [] cuts output sent bs refl in
    let bare : report d ++ [] ≡ report d = append-nil (report d) in
    let fails : read_reply (within (report d) cuts output sent bs).now
        ≡ (err (app 0 msg), (within [] cuts output sent bs).now) =
      rw bare at (read_reply-report d [] (within (report d) cuts output sent bs).now) in
    rw fails (refl, cuts', e)

-- One session of the client against one answer of the server.
pub use_session-answer :
    (lib : NetLib) (target host digits : List ℕ) (port : ℕ) (t : Local) (f : Option DialError)
    (down cuts : List ℕ) (sent bs : List (List ℕ))
    → lib.split_host_port target ≡ some (host, digits)
    → parse_uint16 digits ≡ some port
    → Unbroken t.cut
    → (cuts' : List ℕ) × (use_session lib true target t (fresh cuts sent (reply_by f down ∷ bs)) ≡ (
      delivered f t.cut down,
      pooled (fresh cuts' (sent ++ ((header host port true ++ t.up) ∷ [])) bs),
    ))
unfolding use_session stream_conn write_header
use_session-answer lib target host digits port t f down cuts sent bs hs hp u =
    let request = header host port true in
    let (got, cuts', e) = answered f t.cut down cuts (request ++ t.up) sent bs u in
    (
      cuts',
      rw
          (
            hs,
            hp,
            write_to_conn_well request (within (reply_by f down) cuts [] sent bs).now refl,
            relay_session,
            copy_in_lem t.up (within (reply_by f down) cuts request sent bs) refl,
            got,
            e,
          )
          refl,
    )
