-- ===== src/Aead/Frames.antt =====
-- The stream on the wire: the chunks one behind the other, each under its own two nonces.
use open_snell.Base.{ℕ, ◌≤◌, List, [], ◌∷◌, ◌++◌, length}
use open_snell.Aead.Types.{Aead, payload_size_mask}
use open_snell.Aead.Nonce.{increment}
use open_snell.Aead.Writer.{frame}

abbrev pub Chunk : List ℕ → Type 0
Chunk p = (1 ≤ length p) × (length p ≤ payload_size_mask)

abbrev pub frames : Aead → List ℕ → List (List ℕ) → List ℕ
frames a n [] = []
frames a n (p ∷ ps) = frame a n p ++ frames a (increment (increment n)) ps

abbrev pub nonce_after : List ℕ → List (List ℕ) → List ℕ
nonce_after n [] = n
nonce_after n (p ∷ ps) = nonce_after (increment (increment n)) ps
