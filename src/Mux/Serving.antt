-- ===== src/Mux/Serving.antt =====
-- The server keeps in step with its clients from session to session.
use open_snell.Base.{
  ℕ, zero, suc, ◌+◌, ◌≤◌, ◌<◌, ◌≡◌, ◌⊎◌, inl, inr, refl, sym, ap, ◌∙◌, List, [], ◌∷◌, ◌++◌,
  append-nil, append_assoc, Bool, true, false, Option, none, some, arith, length, All, Bool-cases,
  Option-cases, if◌then◌else◌,
}
use open_snell.Io.{plain, Error, zero_chunk, op_error, writing}
use open_snell.Io.Errors.{is_timeout, is_zero_chunk, is_write_op}
use open_snell.Io.Laws.{write_well, send_well}
use open_snell.Aead.Writer.{hide_eof}
use open_snell.Relay.Steps.{drop_timeout}
use open_snell.Socks5.Text.{NetLib}
use open_snell.Udp.Forward.{CacheLib}
use open_snell.Snell.{response_tunnel}
use open_snell.Snell.Connect.{server_handshake-eof, server_handshake-header}
use open_snell.Snell.Session.{DialError, write_error, report}
use open_snell.Mux.Link.{
  Link, write_zero, Cut, whole, stopped, broken, copy_out, copy_in, size, parts_size,
}
use open_snell.Mux.Drains.{drain_lem}
use open_snell.Mux.Server.{
  Turn, Served, tunnelled, unreachable, End, note, connect_by, tunnel, settle, settle_by, await,
  again, forget_write, mux_loop, handle_snell,
}
use open_snell.Mux.Visits.{
  Visit, Fits, first_input, first_error, behind, streamed, requests, reply_by, uploaded, served_by,
  target_of, replies, all_served,
}

-- A connection within a session, in front of other sessions.
abbrev pub within : List ℕ → List ℕ → List ℕ → List (List ℕ) → List (List ℕ) → Link
within input cuts output sent bs = record {
  now = record { input = input; closing = zero_chunk; cuts = cuts; faults = []; output = output };
  later = (first_input bs, first_error bs) ∷ behind bs;
  sent = sent;
}

pub write_zero_lem :
    (l : Link)
    → l.now.faults ≡ []
    → write_zero l ≡ (
      none,
      record l { now = record l.now { output = [] }; sent = l.sent ++ (l.now.output ∷ []) },
    )
unfolding write_zero
write_zero_lem l h = rw (write_well [] l.now h, append-nil)

-- What is left of a session is read up to its zero chunk.
await-within :
    (next : Link → Option End) (input cuts : List ℕ) (sent : List (List ℕ)) (bs : List (List ℕ))
    → (cuts' : List ℕ) × (await next none (within input cuts [] sent bs)
        ≡ next (streamed cuts' sent bs))
unfolding await is_zero_chunk
await-within next input cuts sent bs =
    let (cuts', e) = drain_lem (suc (length input)) (within input cuts [] sent bs) (omega arith) in
    (cuts', rw (await, e))

forget_broken : (e : Error) → forget_write (drop_timeout (some (op_error writing e))) ≡ none
unfolding forget_write drop_timeout is_write_op
forget_broken e = elim (Bool-cases (is_timeout (op_error writing e))) [
  | inl t ↦ rw t
  | inr t ↦ rw t
]

settle-within :
    (next : Link → Option End) (s : Served) (el : Option Error) (input cuts output : List ℕ)
    (sent : List (List ℕ)) (bs : List (List ℕ))
    → forget_write el ≡ none
    → (cuts' : List ℕ) × (settle next (s, el, within input cuts output sent bs)
        ≡ note s (next (streamed cuts' (sent ++ (output ∷ [])) bs)))
unfolding settle
settle-within next s el input cuts output sent bs h =
    let (cuts', e) = await-within next input cuts (sent ++ (output ∷ [])) bs in
    (cuts', rw (write_zero_lem (within input cuts output sent bs) refl, settle_by, h, e) refl)

-- A relay that ended, in whatever way, leaves the connection in front of the next session.
settle-copy_out :
    (next : Link → Option End) (s : Served) (cut : Cut) (input cuts output : List ℕ)
    (sent : List (List ℕ)) (bs : List (List ℕ))
    → let (up, el, l) = copy_out cut (within input cuts output sent bs) in
      (cuts' : List ℕ) × (settle next (s, el, l)
        ≡ note s (next (streamed cuts' (sent ++ (output ∷ [])) bs)))
unfolding copy_out forget_write
settle-copy_out next s whole input cuts output sent bs = (cuts, passed)
  where
    passed :
        settle next (
          s,
          drop_timeout (hide_eof zero_chunk),
          record (streamed cuts sent bs) {
            now = record (streamed cuts sent bs).now { output = output };
          },
        )
        ≡ note s (next (streamed cuts (sent ++ (output ∷ [])) bs))
    passed =
        unfold settle settle_by await forget_write again is_zero_chunk is_write_op drop_timeout
          hide_eof is_timeout in
        rw (
          write_zero_lem
            (record (streamed cuts sent bs) {
              now = record (streamed cuts sent bs).now { output = output };
            })
            refl)
settle-copy_out next s (stopped k) input cuts output sent bs =
    settle-within next s none (open_snell.Base.drop k input) cuts output sent bs refl
settle-copy_out next s (broken k j e) input cuts output sent bs =
    settle-within next s (drop_timeout (some (op_error writing e))) (open_snell.Base.drop k input)
      cuts output sent bs (forget_broken e)

pub copy_in_lem :
    (b : List ℕ) (l : Link)
    → l.now.faults ≡ []
    → copy_in b l ≡ record l { now = record l.now { output = l.now.output ++ b } }
unfolding copy_in
copy_in_lem [] l h = rw append-nil
copy_in_lem (x ∷ b) l h = rw (send_well (x ∷ b) l.now h)

copy_out-uploaded :
    (cut : Cut) (input cuts output : List ℕ) (sent : List (List ℕ)) (bs : List (List ℕ))
    → (copy_out cut (within input cuts output sent bs)).0 ≡ uploaded cut input
unfolding copy_out
copy_out-uploaded whole input cuts output sent bs = refl
copy_out-uploaded (stopped k) input cuts output sent bs = refl
copy_out-uploaded (broken k j e) input cuts output sent bs = refl

settle-connect_by :
    (next : Link → Option End) (f : Option DialError) (t : Turn) (target body cuts : List ℕ)
    (sent : List (List ℕ)) (bs : List (List ℕ))
    → (cuts' : List ℕ) × (settle next (connect_by f t target (within body cuts [] sent bs))
        ≡ note
            (served_by f t.cut target body)
            (next (streamed cuts' (sent ++ (reply_by f t.down ∷ [])) bs)))
unfolding connect_by forget_write write_error
settle-connect_by next none t target body cuts sent bs =
    let ready = within body cuts (response_tunnel ∷ []) sent bs in
    let (cuts', e) =
      settle-copy_out next (tunnelled target (uploaded t.cut body)) t.cut body cuts
        (response_tunnel ∷ t.down) sent bs in
    (
      cuts',
      rw
          (
            write_well (response_tunnel ∷ []) (within body cuts [] sent bs).now refl,
            tunnel,
            copy_in_lem t.down ready refl,
            copy_out-uploaded t.cut body cuts (response_tunnel ∷ t.down) sent bs,
          )
          e,
    )
settle-connect_by next (some d) t target body cuts sent bs =
    let (cuts', e) =
      settle-within next (unreachable target) none body cuts (report d) sent bs refl in
    (cuts', rw (write_well (report d) (within body cuts [] sent bs).now refl) e)

length-behind : (bs : List (List ℕ)) → length bs ≤ parts_size (behind bs)
length-behind [] = omega arith
length-behind (v ∷ bs) = omega (arith, length-behind bs)

module _ {C : Type 0} (lib : NetLib) (cache : CacheLib C) where
  mux_loop-visits :
      (vs : List Visit) (turns : ℕ → Turn) (cuts : List ℕ) (sent : List (List ℕ)) (fuel : ℕ)
      → All Fits vs
      → length vs < fuel
      → (cuts' : List ℕ) × (mux_loop lib cache fuel turns (streamed cuts sent (requests vs))
          ≡ some (record {
            served = all_served lib turns vs;
            link = streamed cuts' (sent ++ replies turns vs) [];
            crashed = false;
          }))
  unfolding mux_loop
  mux_loop-visits vs turns cuts sent zero fits h = absurd (omega arith)
  mux_loop-visits [] turns cuts sent (suc fuel) fits h =
      (cuts, rw (server_handshake-eof lib (streamed cuts sent []).now, append-nil) refl)
  mux_loop-visits (v ∷ vs) turns cuts sent (suc fuel) ((fh, fp), fits) h =
      let t = turns 0 in
      let later = λ (n : ℕ). turns (suc n) in
      let (cuts1, e) =
        settle-connect_by (mux_loop lib cache fuel later) t.failure t (target_of lib v) v.body cuts
          sent (requests vs) in
      let (cuts2, ih) =
        mux_loop-visits vs later cuts1 (sent ++ (reply_by t.failure t.down ∷ [])) fuel fits
          (omega arith) in
      (
        cuts2,
        rw
            (
              server_handshake-header lib v.host v.body v.port true
                  (streamed cuts sent (requests (v ∷ vs))).now fh fp,
              e,
              ih,
              append_assoc sent (reply_by t.failure t.down ∷ []) (replies later vs),
            )
            refl,
      )

length-requests : (vs : List Visit) → length (requests vs) ≡ length vs
length-requests [] = refl
length-requests (v ∷ vs) = omega (arith, length-requests vs)

-- One connection, many clients' sessions: whatever each session meets (a target that cannot be
-- reached, or a relay that ends behind the last byte, by the deadline or by a failed write), the
-- server reaches the target of every request in order, with the bytes of that session alone, answers
-- each in a part of its own that a zero chunk closes, and ends by the end of the file, on a connection
-- that takes every write. It does not crash and its fuel is enough.
pub handle_snell-visits :
    {C : Type 0} (lib : NetLib) (cache : CacheLib C) (vs : List Visit) (turns : ℕ → Turn)
    (cuts : List ℕ) (sent : List (List ℕ))
    → All Fits vs
    → (cuts' : List ℕ) × (handle_snell lib cache turns (streamed cuts sent (requests vs))
        ≡ some (record {
          served = all_served lib turns vs;
          link = streamed cuts' (sent ++ replies turns vs) [];
          crashed = false;
        }))
unfolding handle_snell
handle_snell-visits lib cache vs turns cuts sent fits =
    mux_loop-visits lib cache vs turns cuts sent (suc (size (streamed cuts sent (requests vs))))
      fits (omega (arith, length-behind (requests vs), length-requests vs))
