-- ===== src/Aead/Nonce.antt =====
-- `increment` of components/aead/stream.go.
use open_snell.Base.{ℕ, ◌+◌, List, [], ◌∷◌, ◌==◌, if◌then◌else◌, to_byte}

-- `b[i]++` wraps round in a byte, and the loop returns at the first byte that is not 0 behind it.
unfoldable pub increment : List ℕ → List ℕ
increment [] = []
increment (b ∷ bs) =
    if to_byte (b + 1) == 0 then to_byte (b + 1) ∷ increment bs else to_byte (b + 1) ∷ bs
