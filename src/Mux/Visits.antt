-- ===== src/Mux/Visits.antt =====
-- What well-behaved clients put on the wire, session behind session, and what they should get.
use open_snell.Base.{ℕ, suc, ◌≤◌, ◌<◌, List, [], ◌∷◌, ◌++◌, true, Option, none, some, length, take}
use open_snell.Io.{Error, eof, zero_chunk}
use open_snell.Socks5.Text.{NetLib, itoa}
use open_snell.Snell.{response_tunnel}
use open_snell.Snell.Header.{header}
use open_snell.Snell.Session.{DialError, report}
use open_snell.Mux.Link.{Link, Cut, whole, stopped, broken}
use open_snell.Mux.Server.{Turn, Served, tunnelled, unreachable}

-- A session of a client: the target, and what it uploads.
pub record Visit : Type 0 where
  pub host : List ℕ
  pub port : ℕ
  pub body : List ℕ

abbrev pub Fits : Visit → Type 0
Fits v = (length v.host ≤ 253) × (v.port < 65536)

-- A stream of sessions: the bytes of each up to a zero chunk, and the end of the file.
abbrev pub first_input : List (List ℕ) → List ℕ
first_input [] = []
first_input (b ∷ bs) = b

abbrev pub first_error : List (List ℕ) → Error
first_error [] = eof
first_error (b ∷ bs) = zero_chunk

abbrev pub behind : List (List ℕ) → List (List ℕ × Error)
behind [] = []
behind (b ∷ bs) = (first_input bs, first_error bs) ∷ behind bs

-- A connection that takes every write, with this stream to come.
abbrev pub streamed : List ℕ → List (List ℕ) → List (List ℕ) → Link
streamed cuts sent bs = record {
  now = record {
    input = first_input bs;
    closing = first_error bs;
    cuts = cuts;
    faults = [];
    output = [];
  };
  later = behind bs;
  sent = sent;
}

-- What the clients send.
abbrev pub requests : List Visit → List (List ℕ)
requests [] = []
requests (v ∷ vs) = (header v.host v.port true ++ v.body) ∷ requests vs

-- What goes back in one session.
abbrev pub reply_by : Option DialError → List ℕ → List ℕ
reply_by none down = response_tunnel ∷ down
reply_by (some d) down = report d

abbrev pub uploaded : Cut → List ℕ → List ℕ
uploaded whole b = b
uploaded (stopped k) b = take k b
uploaded (broken k j e) b = take j (take k b)

abbrev pub served_by : Option DialError → Cut → List ℕ → List ℕ → Served
served_by none cut target b = tunnelled target (uploaded cut b)
served_by (some d) cut target b = unreachable target

abbrev pub target_of : NetLib → Visit → List ℕ
target_of lib v = lib.join_host_port v.host (itoa v.port)

-- The sessions one by one, each by its own turn.
abbrev pub replies : (ℕ → Turn) → List Visit → List (List ℕ)
replies turns [] = []
replies turns (v ∷ vs) = reply_by (turns 0).failure (turns 0).down ∷ replies (λ n. turns (suc n)) vs

abbrev pub all_served : NetLib → (ℕ → Turn) → List Visit → List Served
all_served lib turns [] = []
all_served lib turns (v ∷ vs) =
    served_by (turns 0).failure (turns 0).cut (target_of lib v) v.body
    ∷ all_served lib (λ n. turns (suc n)) vs
