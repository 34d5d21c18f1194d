-- ===== src/Examples/MuxRuns.antt =====
-- Two sessions on one connection, and a relay.
use open_snell.Io.Errors.{is_zero_chunk}
use open_snell.Base.{
  ℕ, zero, suc, ◌≡◌, refl, List, [], ◌∷◌, ◌++◌, true, false, Option, none, some, arith,
}
use open_snell.Io.{eof}
use open_snell.Socks5.Text.{parse_uint16}
use open_snell.Snell.{response_pong}
use open_snell.Snell.Connect.{request}
use open_snell.Snell.Session.{DialError, errno}
use open_snell.Udp.Forward.{CacheLib, Socket}
use open_snell.Mux.Link.{Link, Cut, whole, stopped, broken}
use open_snell.Mux.Server.{Turn, End, handle_snell}
use open_snell.Mux.Visits.{Visit, streamed, requests, replies, all_served}
use open_snell.Mux.Serving.{handle_snell-visits}
use open_snell.Mux.Halts.{handle_snell_ends}
use open_snell.Mux.Client.{pooled, use_session}
use open_snell.Mux.Reuse.{IsSound, use_session-IsSound}
use open_snell.Mux.Answers.{fresh}
use open_snell.Mux.Meet.{Job, run_jobs, visits, all_delivered, sessions_meet}
use open_snell.Mux.Hostile.{handle_snell-foreign, handle_snell_crashes}
use open_snell.Examples.Toys.{names_only, zeros}

-- A cache that forgets at once, and a socket that resolves nothing.
abbrev forgetful : CacheLib (Unit {0})
forgetful = record { get = λ k c. (none, c); add = λ k v c. c; new = tt }

abbrev no_socket : Socket
no_socket = record { resolve = λ n k. none; refuses = λ n d. false }

-- The first session is stopped early by its target, and the second does not reach its own.
abbrev turn : Option DialError → Cut → Turn
turn f cut = record { failure = f; cut = cut; down = 4 ∷ 5 ∷ []; socket = no_socket; replies = [] }

abbrev turns : ℕ → Turn
turns zero = turn none (stopped 1)
turns (suc zero) = turn (some (errno 111 (b'n' ∷ b'o' ∷ []))) whole
turns (suc (suc n)) = turn none (broken 2 1 eof)

abbrev visit : List ℕ → Visit
visit body = record { host = b'g' ∷ b'o' ∷ []; port = 80; body = body }

abbrev two : List Visit
two = visit (7 ∷ 8 ∷ 9 ∷ []) ∷ visit (6 ∷ []) ∷ []

handle_snell-visits_example :
    (k : List ℕ) × (handle_snell names_only forgetful turns (streamed [] [] (requests two))
      ≡ some (record {
        served = all_served names_only turns two;
        link = streamed k ([] ++ replies turns two) [];
        crashed = false;
      }))
handle_snell-visits_example = handle_snell-visits names_only forgetful two turns [] [] (omega arith)

handle_snell_ends_example :
    (e : End) × (handle_snell names_only forgetful turns (streamed (1 ∷ []) [] (requests two))
      ≡ some e)
handle_snell_ends_example =
    handle_snell_ends names_only forgetful turns (streamed (1 ∷ []) [] (requests two))

-- `names_only` splits every target into itself and the port 80.
abbrev job : List ℕ → Option Cut → Job
job body cut = record {
  target = b'g' ∷ b'o' ∷ [];
  digits = b'8' ∷ b'0' ∷ [];
  visit = visit body;
  cut = cut;
}

abbrev jobs : List Job
jobs = job (7 ∷ 8 ∷ 9 ∷ []) (some whole) ∷ job (6 ∷ []) (some (stopped 3)) ∷ []

eighty : parse_uint16 (b'8' ∷ b'0' ∷ []) ≡ some 80
unfolding parse_uint16
eighty = refl

sessions_meet_example :
    (k k' : List ℕ) × (handle_snell names_only forgetful turns
        (streamed [] [] (requests (visits jobs)))
      ≡ some (record {
        served = all_served names_only turns (visits jobs);
        link = streamed k (replies turns (visits jobs)) [];
        crashed = false;
      }))
    × (run_jobs names_only jobs (fresh [] [] (replies turns (visits jobs)))
        ≡ (all_delivered turns jobs, pooled (fresh k' (requests (visits jobs)) [])))
sessions_meet_example =
    sessions_meet names_only forgetful turns jobs [] []
      ((omega arith, refl, eighty, tt), ((omega arith, refl, eighty, tt), tt))

use_session-IsSound_example :
    IsSound
      (fresh [] [] ((0 ∷ 5 ∷ 5 ∷ []) ∷ []))
      (use_session names_only true
        (b'g' ∷ b'o' ∷ [])
        (record { up = 1 ∷ []; cut = some (broken 1 0 eof) })
        (fresh [] [] ((0 ∷ 5 ∷ 5 ∷ []) ∷ []))).1
unfolding is_zero_chunk
use_session-IsSound_example =
    use_session-IsSound names_only true (b'g' ∷ b'o' ∷ [])
      (record { up = 1 ∷ []; cut = some (broken 1 0 eof) }) (fresh [] [] ((0 ∷ 5 ∷ 5 ∷ []) ∷ []))
      refl

abbrev plain : Link
plain = streamed [] [] []

handle_snell-foreign_example :
    handle_snell names_only forgetful turns
      (record plain { now = record plain.now { input = 2 ∷ 1 ∷ 0 ∷ 9 ∷ [] } })
    ≡ some (record {
      served = [];
      link = record plain {
        now = record plain.now {
          input = 9 ∷ [];
          output = plain.now.output ++ (response_pong ∷ []);
        };
      };
      crashed = false;
    })
handle_snell-foreign_example =
    handle_snell-foreign names_only forgetful turns 2 1 0 (9 ∷ []) plain (omega arith) refl

handle_snell_crashes_example :
    (e : End) × (handle_snell names_only forgetful turns (record plain {
      now = record plain.now { input = request 1 [] (zeros 254) (1 ∷ 187 ∷ []) };
    })
      ≡ some e)
    × (e.crashed ≡ true)
handle_snell_crashes_example =
    handle_snell_crashes names_only forgetful turns 1 [] (zeros 254) (1 ∷ 187 ∷ []) plain
      (omega arith) (omega arith) (omega arith) (omega arith)
