-- ===== src/Base/Bytes.antt =====
-- Bytes and 16-bit big-endian fields, as Go writes and reads them.
use Prim.Native.Nat.{ℕ, ◌+◌, ◌*◌, ◌/◌, ◌%◌, ◌<◌}
use mathlib.Core.Path.{◌≡◌}
use mathlib.Core.List.{List, [], ◌∷◌}
use native.Mathlib.Omega.{arith}

abbrev pub IsByte : ℕ → Type 0
IsByte b = b < 256

-- `byte(n)`
abbrev pub to_byte : ℕ → ℕ
to_byte n = n % 256

-- `uint16(n)`
abbrev pub to_u16 : ℕ → ℕ
to_u16 n = n % 65536

-- `byte(n >> 8), byte(n)`, and `binary.Write(buf, binary.BigEndian, uint16(n))`
abbrev pub be16 : ℕ → List ℕ
be16 n = to_byte (n / 256) ∷ to_byte n ∷ []

-- `(int(hi) << 8) | int(lo)` on two bytes
abbrev pub from_be16 : ℕ → ℕ → ℕ
from_be16 hi lo = hi * 256 + lo

pub from_be16-be16 : (n : ℕ) → n < 65536 → from_be16 (to_byte (n / 256)) (to_byte n) ≡ n
from_be16-be16 n h = omega arith
