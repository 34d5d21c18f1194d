-- ===== src/Mux/Reuse.antt =====
-- What goes back to the client's pool is fit for another session.
use open_snell.Base.{
  ℕ, suc, ◌≡◌, refl, sym, ap, ◌∙◌, List, [], ◌∷◌, ◌++◌, Bool, true, false, Option, none, some,
  arith, length, Bool-cases, inl, inr,
}
use open_snell.Io.{plain, Conn, write_to_conn, Error, Result, ok, err, panic}
use open_snell.Io.Errors.{is_zero_chunk}
use open_snell.Io.Laws.{write_cases, write-input, write-closing, write_to_conn-closing}
use open_snell.Snell.Header.{header, write_header}
use open_snell.Mux.Position.{Part, stream_of, next_session, next_session-zero}
use open_snell.Mux.Copied.{IsLocalCut, Placed, moved-Placed, kept_now, copies-At}
use open_snell.Socks5.Text.{NetLib}
use open_snell.Mux.Link.{Link, next_part, advance, closed, copy_in, write_zero}
use open_snell.Mux.Drains.{drain_lem, with_cuts}
use open_snell.Mux.Client.{
  Session, Local, Fate, dropped, hung, pooled, put_session, put_checked, await_end, finish_by,
  finish, forgive, relay_session, copy_session, stream_conn, use_session, host_of, port_of,
}

-- The next `Read` looks for a reply, and a zero chunk stands behind all that was sent.
abbrev pub IsFresh : Session → Type 0
IsFresh s = (s.reply ≡ false) × (s.link.now.output ≡ [])

-- The session came to its end: the stream of a connection that goes back to the pool stands right behind
-- the first zero chunk of what was to come in front of the session.
abbrev pub IsSound : Session → Fate → Type 0
IsSound s dropped = Unit {0}
IsSound s hung = ⊥
IsSound s (pooled s') = IsFresh s' × (next_session (stream_of s.link) ≡ some (stream_of s'.link))

-- The same, with the stream behind the session, where `clean` holds of the local connection.
abbrev Sound : Type 0 → Option (List Part) → Fate → Type 0
Sound clean next dropped = Unit {0}
Sound clean next hung = ⊥
Sound clean next (pooled s') = IsFresh s' × (clean → next ≡ some (stream_of s'.link))

put_checked-Sound :
    (clean : Type 0) (next : Option (List Part)) (e : Error) (l : Link)
    → l.now.output ≡ []
    → (clean → is_zero_chunk e ≡ true → next ≡ some (stream_of l))
    → Sound clean next (put_checked (e, l))
unfolding put_checked put_session
put_checked-Sound clean next e l h at = elim (Bool-cases (is_zero_chunk e)) [
  | inl z ↦ rw z ((refl, h), λ c. at c z)
  | inr z ↦ rw z tt
]

next_part-output :
    (parts : List (List ℕ × Error)) (l : Link) → (next_part parts l).now.output ≡ l.now.output
next_part-output [] l = refl
next_part-output ((b, e) ∷ parts) l = refl

await_end-Sound :
    (clean : Type 0) (next : Option (List Part)) (er : Option Error) (l : Link)
    → l.now.output ≡ []
    → (clean → Placed next er l)
    → Sound clean next (await_end er l)
unfolding await_end
await_end-Sound clean next (some e) l h at = put_checked-Sound clean next e l h at
await_end-Sound clean next none l h at =
    let (cuts, e) = drain_lem (suc (length l.now.input)) l (omega arith) in
    let l0 : Link = with_cuts [] cuts l in
    let quiet = next_part-output l.later l0 ∙ h in
    rw (await_end, e)
      (put_checked-Sound clean next l.now.closing (advance l0) quiet
        (λ c z. at c ∙ next_session-zero l0 z refl))

finish_by-Sound :
    (clean : Type 0) (next : Option (List Part)) (er : Option Error) (l : Link)
    → (clean → Placed next (forgive er) l)
    → Sound clean next (finish_by er (write_zero l))
unfolding finish_by write_zero closed
finish_by-Sound clean next er l at = elim (write_cases [] l.now) [
  | inl (e, c, q) ↦ rw q tt
  | inr (c, q) ↦
      let l' : Link = record {
        now = record c { output = [] };
        later = l.later;
        sent = l.sent ++ (c.output ∷ []);
      } in
      let input : c.input ≡ l.now.input =
        ap (λ (x : Result (Unit {0}) × Conn). x.1.input) (sym q) ∙ write-input [] l.now in
      let closing : c.closing ≡ l.now.closing =
        ap (λ (x : Result (Unit {0}) × Conn). x.1.closing) (sym q) ∙ write-closing [] l.now in
      rw q (
        await_end-Sound clean next (forgive er) l' refl
          (λ h. moved-Placed next (forgive er) l l' (rw (input, closing)) (at h)))
]

relay_session-Sound :
    (next : Option (List Part)) (v2 : Bool) (t : Local) (x : Result (Unit {0}) × Session)
    → next ≡ next_session (stream_of x.1.link)
    → Sound (IsLocalCut t.cut) next (relay_session v2 t x).1
unfolding relay_session finish put_session
relay_session-Sound next true t (ok u, s) at =
    let (down, er, l) = copy_session t.cut (copy_in t.up s.link) in
    finish_by-Sound (IsLocalCut t.cut) next er l (λ clean. copies-At next t s.link clean at)
relay_session-Sound next false t (ok u, s) at = tt
relay_session-Sound next true t (err e, s) at = tt
relay_session-Sound next false t (err e, s) at = tt
relay_session-Sound next true t (panic, s) at = tt
relay_session-Sound next false t (panic, s) at = tt

use_session-Sound :
    (lib : NetLib) (v2 : Bool) (target : List ℕ) (t : Local) (s : Session)
    → Sound (IsLocalCut t.cut) (next_session (stream_of s.link)) (use_session lib v2 target t s).1
unfolding use_session stream_conn write_header
use_session-Sound lib v2 target t s =
    let at = lib.split_host_port target in
    let b = header (host_of at) (port_of at) v2 in
    relay_session-Sound (next_session (stream_of s.link)) v2 t (stream_conn lib v2 target s)
      (sym (kept_now s.link (write_to_conn b s.link.now).1 (write_to_conn-closing b s.link.now)))

-- The handling of a session ends, and a session that is pooled is fresh.
abbrev pub HasEnded : Fate → Type 0
HasEnded dropped = Unit {0}
HasEnded hung = ⊥
HasEnded (pooled s) = IsFresh s

Sound-HasEnded :
    (clean : Type 0) (next : Option (List Part)) (f : Fate) → Sound clean next f → HasEnded f
Sound-HasEnded clean next dropped h = tt
Sound-HasEnded clean next hung h = h
Sound-HasEnded clean next (pooled s) h = h.0

pub use_session-HasEnded :
    (lib : NetLib) (v2 : Bool) (target : List ℕ) (t : Local) (s : Session)
    → HasEnded (use_session lib v2 target t s).1
use_session-HasEnded lib v2 target t s =
    Sound-HasEnded (IsLocalCut t.cut) (next_session (stream_of s.link)) _
      (use_session-Sound lib v2 target t s)

Sound-IsSound :
    (clean : Type 0) (s : Session) (f : Fate)
    → clean
    → Sound clean (next_session (stream_of s.link)) f
    → IsSound s f
Sound-IsSound clean s dropped c h = tt
Sound-IsSound clean s hung c h = h
Sound-IsSound clean s (pooled s') c (fresh, at) = (fresh, at c)

-- On any connection, with any answers and faults, and for any end of the relay in which the local
-- connection does not fail with ErrZeroChunk: the loop that awaits the server's end of the session comes to
-- an end, and a session goes back to the pool only right behind the first zero chunk of what was to come:
-- its next bytes are those of the next session. It reads a reply first and has sent nothing behind its own
-- zero chunk. Otherwise the connection is closed.
pub use_session-IsSound :
    (lib : NetLib) (v2 : Bool) (target : List ℕ) (t : Local) (s : Session)
    → IsLocalCut t.cut
    → IsSound s (use_session lib v2 target t s).1
use_session-IsSound lib v2 target t s clean =
    Sound-IsSound (IsLocalCut t.cut) s _ clean (use_session-Sound lib v2 target t s)
