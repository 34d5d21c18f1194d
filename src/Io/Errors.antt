-- ===== src/Io/Errors.antt =====
-- How the program tells errors apart.
use open_snell.Base.{Bool, true, false}
use open_snell.Io.Types.{Error, deadline, op_error, zero_chunk, writing}

-- `err, ok := e.(net.Error); ok && err.Timeout()`
unfoldable pub is_timeout : Error → Bool
is_timeout deadline = true
is_timeout (op_error o e) = is_timeout e
is_timeout e = false

-- `errors.Is(e, aead.ErrZeroChunk)`
unfoldable pub is_zero_chunk : Error → Bool
is_zero_chunk zero_chunk = true
is_zero_chunk (op_error o e) = is_zero_chunk e
is_zero_chunk e = false

-- `e.(*net.OpError)` with `e.Op == "write"`
unfoldable pub is_write_op : Error → Bool
is_write_op (op_error writing e) = true
is_write_op e = false
