-- ===== src/Tls/Block.antt =====
-- `readBlock` of components/simple-obfs/tls/common.go, and the rest of a block that is begun.
use open_snell.Base.{ℕ, ◌-◌, List, [], ltb, if◌then◌else◌, length, get_or, from_be16, min}
use open_snell.Io.{Conn, Action, Result, ok, err, panic, read, read_full, ◌>>◌}

-- The results of `readBlock`, and the connection behind it.
pub record Block : Type 0 where
  pub result : Result (List ℕ)
  pub remain : ℕ
  pub conn : Conn

-- What of a block of `size` bytes is left, by what was read of it.
unfoldable pub partly : ℕ → Result (List ℕ) × Conn → Block
partly size (ok p, c) = record { result = ok p; remain = size - length p; conn = c }
partly size (err e, c) = record { result = err e; remain = size; conn = c }
partly size (panic, c) = record { result = panic; remain = size; conn = c }

unfoldable pub wholly : Result (List ℕ) × Conn → Block
wholly (r, c) = record { result = r; remain = 0; conn = c }

unfoldable pub read_body : ℕ → ℕ → Conn → Block
unfolding partly wholly
read_body n size c = if ltb n size then partly size (read n c) else wholly (read_full size c)

-- `io.ReadFull(c, buf)` into the pool's buffer of `skip` bytes, unless there is nothing to skip.
unfoldable pub skip_bytes : ℕ → Action (List ℕ)
skip_bytes skip c = if ltb 0 skip then read_full skip c else (ok [], c)

unfoldable pub block_of : ℕ → Result (List ℕ) × Conn → Block
unfolding read_body
block_of n (ok size, c) = read_body n (from_be16 (get_or size 0 0) (get_or size 1 0)) c
block_of n (err e, c) = record { result = err e; remain = 0; conn = c }
block_of n (panic, c) = record { result = panic; remain = 0; conn = c }

-- `readBlock(c, b, skip)` with `len(b) == n`
unfoldable pub read_block : ℕ → ℕ → Conn → Block
unfolding block_of skip_bytes
read_block n skip c = block_of n ((do skip_bytes skip; read_full 2) c)

-- The branch `remain > 0` of both `Read`s. What a failed `ReadFull` took counts as read.
unfoldable pub read_remain : ℕ → ℕ → Conn → Block
read_remain n remain c =
    let (r, c') = read_full (min remain n) c in
    record { result = r; remain = remain - (length c.input - length c'.input); conn = c' }
