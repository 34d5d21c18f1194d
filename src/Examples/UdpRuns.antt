-- ===== src/Examples/UdpRuns.antt =====
-- UDP over a session.
use open_snell.Base.{
  ℕ, zero, suc, ◌≡◌, ◌⊎◌, inl, inr, refl, false, List, [], ◌∷◌, ◌++◌, Option, none, some, arith,
  replicate,
}
use mathlib.Core.Logic.{ite, if_pos, if_neg}
use native.Mathlib.Decide.{ℕ_discrete}
use open_snell.Socks5.Text.{itoa, to4}
use open_snell.Udp.Request.{parse_packet, parse_head, cut_packet}
use open_snell.Udp.Forward.{CacheLib, IsCacheLib, Socket, handle_udp_request}
use open_snell.Udp.Ingress.{ingress_reply}
use open_snell.Udp.Formats.{shortest, parse_packet-ingress_reply}
use open_snell.Udp.Cached.{handle_udp_request-unresolved}
use open_snell.Examples.Toys.{names_only}

key_discrete : Discrete (List ℕ)
key_discrete = hlevel ℕ_discrete

-- A cache of one entry.
abbrev Slot : Type 0
Slot = Option (List ℕ × Option (List ℕ))

abbrev slot_get : List ℕ → Slot → Option (Option (List ℕ))
slot_get k none = none
slot_get k (some (j, v)) = ite (key_discrete k j) (some v) none

abbrev one_entry : CacheLib Slot
one_entry = record { get = λ k c. (slot_get k c, c); add = λ k v c. some (k, v); new = none }

slot_get-add :
    (j k : List ℕ) (v : Option (List ℕ)) (c : Slot)
    → (slot_get j (some (k, v)) ≡ none)
      ⊎ (slot_get j (some (k, v)) ≡ slot_get j c)
      ⊎ ((j ≡ k) × (slot_get j (some (k, v)) ≡ some v))
slot_get-add j k v c = elim (key_discrete j k) [
  | yes p ↦ inr (inr (p, if_pos (key_discrete j k) p (some v) none))
  | no p ↦ inl (if_neg (key_discrete j k) p (some v) none)
]

one_entry-IsCacheLib : IsCacheLib one_entry
one_entry-IsCacheLib = record {
  get-new = λ k. refl;
  get-get = λ j k c. inr refl;
  get-add = slot_get-add;
}

-- Names resolve to themselves, but for the empty one and those that begin with "x".
abbrev resolve_name : List ℕ → Option (List ℕ)
resolve_name [] = none
resolve_name (c ∷ cs) = ite (ℕ_discrete c b'x') none (some (c ∷ cs))

abbrev moved : Option (List ℕ) → Option (List ℕ)
moved none = none
moved (some a) = some (b'm' ∷ a)

-- Behind the first two packets every name has a new address.
abbrev resolve_at : ℕ → List ℕ → Option (List ℕ)
resolve_at zero k = resolve_name k
resolve_at (suc zero) k = resolve_name k
resolve_at (suc (suc n)) k = moved (resolve_name k)

abbrev socket : Socket
socket = record { resolve = λ n. resolve_at n; refuses = λ n d. false }

abbrev chunk : List ℕ
chunk = 1 ∷ 2 ∷ b'g' ∷ b'o' ∷ 0 ∷ 53 ∷ 7 ∷ 8 ∷ []

abbrev lost_chunk : List ℕ
lost_chunk = 1 ∷ 2 ∷ b'x' ∷ b'o' ∷ 0 ∷ 53 ∷ 7 ∷ []

lost_parses :
    parse_packet names_only lost_chunk
    ≡ some (record { target = b'x' ∷ b'o' ∷ b':' ∷ b'5' ∷ b'3' ∷ []; payload = 7 ∷ [] })
unfolding parse_packet itoa parse_head cut_packet
lost_parses = refl

lost_fails : (n : ℕ) → socket.resolve n (b'x' ∷ b'o' ∷ b':' ∷ b'5' ∷ b'3' ∷ []) ≡ none
unfolding ℕ_discrete
lost_fails zero = refl
lost_fails (suc zero) = refl
lost_fails (suc (suc n)) = refl

handle_udp_request-unresolved_example :
    handle_udp_request names_only one_entry socket (chunk ∷ lost_chunk ∷ chunk ∷ [])
    ≡ handle_udp_request names_only one_entry socket (chunk ∷ [])
handle_udp_request-unresolved_example =
    handle_udp_request-unresolved names_only one_entry socket (chunk ∷ []) lost_chunk (chunk ∷ [])
      (record { target = b'x' ∷ b'o' ∷ b':' ∷ b'5' ∷ b'3' ∷ []; payload = 7 ∷ [] })
      one_entry-IsCacheLib lost_parses lost_fails (omega arith)

abbrev mapped : List ℕ
mapped = replicate 10 0 ++ (255 ∷ 255 ∷ 127 ∷ 0 ∷ 0 ∷ 1 ∷ [])

parse_packet-ingress_reply_example :
    parse_packet names_only (1 ∷ 0 ∷ ingress_reply mapped 53 (7 ∷ []))
    ≡ some (record {
      target =
          names_only.join_host_port (names_only.ip_string (shortest (to4 mapped) mapped)) (itoa 53);
      payload = 7 ∷ [];
    })
parse_packet-ingress_reply_example =
    parse_packet-ingress_reply names_only mapped (7 ∷ []) 53 refl (omega arith)
