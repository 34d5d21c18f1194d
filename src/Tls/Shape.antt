-- ===== src/Tls/Shape.antt =====
-- The lengths in the hellos, on which the skips of the other end rest.
use open_snell.Base.{ℕ, ◌+◌, ◌≤◌, ◌≡◌, refl, List, arith, length, length-append, get_or, from_be16}
use open_snell.Tls.Types.{Draw, IsDraw, chunk_size}
use open_snell.Tls.Hello.{
  hello_head, hello_tail, name_head, suites, last_exts, make_client_hello_msg, answer_head,
}

pub length-hello_head : (d : Draw) (n s : ℕ) → IsDraw d → length (hello_head d n s) ≡ 140
unfolding hello_head suites
length-hello_head d n s law = omega (arith, length-append {0}, law.random_len, law.session_id_len)

pub length-name_head : (server : List ℕ) → length (name_head server) ≡ 7
unfolding name_head
length-name_head server = refl

pub length-last_exts : length last_exts ≡ 66
unfolding last_exts
length-last_exts = refl

length-hello_tail : (server : List ℕ) → length (hello_tail server) ≡ 75 + length server
unfolding hello_tail
length-hello_tail server =
    omega (arith, length-append {0}, length-name_head server, length-last_exts)

pub length-answer_head : (d : Draw) → IsDraw d → length (answer_head d) ≡ 105
unfolding answer_head
length-answer_head d law = omega (arith, length-append {0}, law.random_len, law.session_id_len)

length-client_hello :
    (d : Draw) (payload server : List ℕ)
    → IsDraw d
    → length (make_client_hello_msg d payload server) ≡ 217 + length payload + length server
unfolding make_client_hello_msg
length-client_hello d payload server law = omega (
  arith,
  length-append {0},
  length-hello_head d (length payload) (length server) law,
  length-hello_tail server,
)

-- The 16-bit number in bytes `i` and `i + 1`.
abbrev pub field_at : ℕ → List ℕ → ℕ
field_at i b = from_be16 (get_or b i 0) (get_or b (i + 1) 0)

-- The client hello is a TLS record whose lengths are true: the record's length counts the bytes
-- behind its 5, the handshake's those behind its 9, for a chunk of data and a server name of at most
-- 255 bytes.
pub client_hello_lengths :
    (d : Draw) (payload server : List ℕ)
    → IsDraw d
    → length payload ≤ chunk_size
    → length server ≤ 255
    → let msg = make_client_hello_msg d payload server in
      (length msg ≡ 5 + field_at 3 msg) × (length msg ≡ 9 + field_at 7 msg)
client_hello_lengths d payload server law h hs =
    let size = length-client_hello d payload server law in
    (
      unfold make_client_hello_msg hello_head in rw size (omega arith),
      unfold make_client_hello_msg hello_head in rw size (omega arith),
    )
