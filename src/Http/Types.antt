-- ===== src/Http/Types.antt =====
-- What both ends keep, and `net/http` as a parameter.
use Prim.Native.Char.{code}
use Prim.Native.String.{String}
use open_snell.Base.{
  ◌++◌, ◌≡◌, ℕ, ◌+◌, List, [], ◌∷◌, Option, none, some, ltb, ◌==◌, if◌then◌else◌, length, take,
  drop,
}
use open_snell.Io.{Conn, Result, ok, read}

-- The bytes of a text in ASCII.
abbrev pub codes : String → List ℕ
codes String.[] = []
codes (String.◌∷◌ c s) = code c ∷ codes s

-- The parts of a request that the client sets.
pub record Request : Type 0 where
  pub method : List ℕ
  pub url : List ℕ
  pub host : List ℕ
  pub user_agent : List ℕ
  pub upgrade : List ℕ
  pub connection : List ℕ
  pub key : List ℕ
  pub body : List ℕ

-- The parts of a request that the server asks for, in front of its body.
pub record Head : Type 0 where
  pub method : List ℕ
  pub connection : List ℕ
  pub content_length : ℕ

-- `Request.Write`, with the length of the body as `Content-Length`; `http.ReadRequest` on a
-- `bufio.Reader`, which stands for the connection from then on; `ioutil.ReadAll` of the request's
-- body; and `http.ReadResponse` with `ioutil.ReadAll` of the response's body.
pub record HttpLib : Type 0 where
  pub write_request : Request → List ℕ
  pub read_request : Conn → Result Head × Conn
  pub read_body : Head → Conn → Result (List ℕ) × Conn
  pub read_response : Conn → Result (List ℕ) × Conn

abbrev pub head_of : Request → Head
head_of r = record { method = r.method; connection = r.connection; content_length = length r.body }

-- A request that is read as it was written, in front of any bytes: one with no control characters in
-- its headers.
abbrev pub ReadsBack : HttpLib → Request → Type 0
ReadsBack lib r =
    (rest : List ℕ) (c : Conn)
    → (k : Conn) × (lib.read_request (record c { input = lib.write_request r ++ rest })
        ≡ (ok (head_of r), k))
      × (lib.read_body (head_of r) k ≡ (ok r.body, record c { input = rest }))

-- A response of status 101, which has no body.
abbrev pub ReadsEmpty : HttpLib → List ℕ → Type 0
ReadsEmpty lib response =
    (rest : List ℕ) (c : Conn)
    → lib.read_response (record c { input = response ++ rest }) ≡ (ok [], record c { input = rest })

-- `buf` and `offset`, the bytes of the first message that were not read yet, in front of `bio`.
pub record Tap : Type 0 where
  pub buf : Option (List ℕ)
  pub offset : ℕ
  pub conn : Conn

unfoldable pub let_go : List ℕ → ℕ → Tap → Tap
let_go b offset t =
    if offset == length b
    then record t { buf = none; offset = 0 }
    else record t { buf = some b; offset = offset }

-- The branch `buf != nil` of `Read`.
unfoldable pub read_buf : ℕ → List ℕ → Tap → Result (List ℕ) × Tap
unfolding let_go
read_buf n b t = let out = take n (drop t.offset b) in (ok out, let_go b (t.offset + length out) t)

-- Behind the first message: `bio.Read(b)`.
unfoldable pub read_bio : ℕ → Tap → Result (List ℕ) × Tap
read_bio n t = let (p, c) = read n t.conn in (p, record t { conn = c })

-- The body of the first message into a slice of length `n`.
unfoldable pub keep_rest : ℕ → List ℕ → Conn → Tap → Result (List ℕ) × Tap
keep_rest n body c t = (
  ok (take n body),
  if ltb (length (take n body)) (length body)
      then record { buf = some body; offset = length (take n body); conn = c }
      else record t { conn = c },
)
