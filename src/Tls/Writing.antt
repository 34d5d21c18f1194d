-- ===== src/Tls/Writing.antt =====
-- The `Write` of both ends, which differ in the hello that carries the first chunk.
use open_snell.Base.{
  ℕ, zero, suc, List, [], ◌∷◌, Bool, true, false, Option, none, some, length, take, drop,
}
use open_snell.Io.{Conn, Error, send}
use open_snell.Tls.Types.{chunk_size}
use open_snell.Tls.Hello.{put16}

unfoldable pub record_head : ℕ → List ℕ
record_head n = 0x17 ∷ 0x03 ∷ 0x03 ∷ put16 n

unfoldable pub send_body : List ℕ → (ℕ × Option Error) × Conn → (ℕ × Option Error) × Conn
send_body b ((n, none), c) = send b c
send_body b ((n, some e), c) = ((0, some e), c)

unfoldable pub send_hello : List ℕ → (ℕ × Option Error) × Conn → (ℕ × Option Error) × Conn
send_hello b ((n, failure), c) = ((length b, failure), c)

-- `write(b)`: the first time in a hello, then as a record. The flag is down behind it.
unfoldable pub write_one : (List ℕ → List ℕ) → Bool → List ℕ → Conn → (ℕ × Option Error) × Conn
unfolding send_body send_hello record_head
write_one hello true b c = send_hello b (send (hello b) c)
write_one hello false b c = send_body b (send (record_head (length b)) c)

unfoldable pub write_next :
    (Conn → (ℕ × Option Error) × Conn) → (ℕ × Option Error) × Conn → (ℕ × Option Error) × Conn
write_next next ((n, none), c) = next c
write_next next ((n, some e), c) = ((n, some e), c)

-- The loop of `Write(b)` over the chunks that are left. The fuel is the length of `b`, and each round
-- takes a byte at least. `total` is `len(b)`.
unfoldable pub write_loop :
    ℕ → ℕ → (List ℕ → List ℕ) → Bool → List ℕ → Conn → (ℕ × Option Error) × Conn
unfolding write_one write_next
write_loop fuel total hello first [] c = ((total, none), c)
write_loop zero total hello first (x ∷ b) c = ((total, none), c)
write_loop (suc f) total hello first (x ∷ b) c =
    write_next (write_loop f total hello false (drop chunk_size (x ∷ b)))
      (write_one hello first (take chunk_size (x ∷ b)) c)

-- The flag of the first write: `write` runs once at least unless `b` is empty.
unfoldable pub still_first : Bool → List ℕ → Bool
still_first first [] = first
still_first first (x ∷ b) = false
