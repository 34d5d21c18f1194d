-- ===== src/Mux/Meet.antt =====
-- A client and a server, session behind session on one connection.
use open_snell.Base.{
  ℕ, suc, ◌≡◌, List, [], ◌∷◌, ◌++◌, append_assoc, append-nil, true, false, Option, some, All,
}
use open_snell.Socks5.Text.{NetLib, parse_uint16}
use open_snell.Udp.Forward.{CacheLib}
use open_snell.Snell.Header.{header}
use open_snell.Mux.Link.{Cut}
use open_snell.Mux.Server.{Turn, handle_snell}
use open_snell.Mux.Visits.{Visit, Fits, streamed, requests, replies, all_served}
use open_snell.Mux.Serving.{handle_snell-visits}
use open_snell.Mux.Client.{Session, Fate, dropped, hung, pooled, use_session}
use open_snell.Mux.Answers.{Unbroken, delivered, fresh, use_session-answer}

-- A session that a client wants: its target as SOCKS has it, in two parts too, and how the copy to the
-- local connection ends.
pub record Job : Type 0 where
  pub target : List ℕ
  pub digits : List ℕ
  pub visit : Visit
  pub cut : Option Cut

abbrev pub IsJob : NetLib → Job → Type 0
IsJob lib j =
    Fits j.visit
    × (lib.split_host_port j.target ≡ some (j.visit.host, j.digits))
    × (parse_uint16 j.digits ≡ some j.visit.port)
    × Unbroken j.cut

abbrev pub visits : List Job → List Visit
visits [] = []
visits (j ∷ js) = j.visit ∷ visits js

-- One session behind the other, each on what the last one put back: what the local connections got,
-- and what became of the connection.
abbrev pub then_run : (Session → List (List ℕ) × Fate) → List ℕ × Fate → List (List ℕ) × Fate
then_run next (got, pooled s) = let (rest, fate) = next s in (got ∷ rest, fate)
then_run next (got, dropped) = (got ∷ [], dropped)
then_run next (got, hung) = (got ∷ [], hung)

abbrev pub run_jobs : NetLib → List Job → Session → List (List ℕ) × Fate
run_jobs lib [] s = ([], pooled s)
run_jobs lib (j ∷ js) s =
    then_run (run_jobs lib js)
      (use_session lib true j.target (record { up = j.visit.body; cut = j.cut }) s)

abbrev pub all_delivered : (ℕ → Turn) → List Job → List (List ℕ)
all_delivered turns [] = []
all_delivered turns (j ∷ js) =
    delivered (turns 0).failure j.cut (turns 0).down ∷ all_delivered (λ n. turns (suc n)) js

All-Fits : (lib : NetLib) (js : List Job) → All (IsJob lib) js → All Fits (visits js)
All-Fits lib [] h = tt
All-Fits lib (j ∷ js) (hj, h) = (hj.0, All-Fits lib js h)

run_jobs-replies :
    (lib : NetLib) (turns : ℕ → Turn) (js : List Job) (cuts : List ℕ) (sent : List (List ℕ))
    → All (IsJob lib) js
    → (cuts' : List ℕ) × (run_jobs lib js (fresh cuts sent (replies turns (visits js)))
        ≡ (all_delivered turns js, pooled (fresh cuts' (sent ++ requests (visits js)) [])))
run_jobs-replies lib turns [] cuts sent h = (cuts, rw append-nil)
run_jobs-replies lib turns (j ∷ js) cuts sent (hj, h) =
    let t = turns 0 in
    let later = λ (n : ℕ). turns (suc n) in
    let request = header j.visit.host j.visit.port true ++ j.visit.body in
    let (cuts1, e) =
      use_session-answer lib j.target j.visit.host j.digits j.visit.port
        (record { up = j.visit.body; cut = j.cut }) t.failure t.down cuts sent
        (replies later (visits js)) hj.1 hj.2 hj.3 in
    let (cuts2, ih) = run_jobs-replies lib later js cuts1 (sent ++ (request ∷ [])) h in
    (cuts2, rw (e, ih, append_assoc sent (request ∷ []) (requests (visits js))))

-- The two ends agree on every session of a connection of version 2, whatever happens in each: a target
-- that cannot be reached, a relay that the deadline ends early on either side, or a write to the target
-- that fails. Where the client's stream is what the server sends and the server's stream is what the
-- client sends, both cut at the zero chunks, the server serves each request with the bytes of that
-- session, the client delivers to each local connection the bytes of its own target (up to the
-- deadline, and none for a target that cannot be reached), and each sends just what the other one was
-- given; the session goes back to the pool each time, and the server does not crash. The connections
-- take every write, and no write to a local connection fails.
pub sessions_meet :
    {C : Type 0} (lib : NetLib) (cache : CacheLib C) (turns : ℕ → Turn) (js : List Job)
    (cuts cuts' : List ℕ)
    → All (IsJob lib) js
    → (k k' : List ℕ) × (handle_snell lib cache turns (streamed cuts [] (requests (visits js)))
        ≡ some (record {
          served = all_served lib turns (visits js);
          link = streamed k (replies turns (visits js)) [];
          crashed = false;
        }))
      × (run_jobs lib js (fresh cuts' [] (replies turns (visits js)))
          ≡ (all_delivered turns js, pooled (fresh k' (requests (visits js)) [])))
sessions_meet lib cache turns js cuts cuts' h =
    let (k, e) = handle_snell-visits lib cache (visits js) turns cuts [] (All-Fits lib js h) in
    let (k', e') = run_jobs-replies lib turns js cuts' [] h in (k, k', e, e')
