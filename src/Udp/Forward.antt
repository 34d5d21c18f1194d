-- ===== src/Udp/Forward.antt =====
-- The loop of `handleUDPRequest`: resolve by the cache, and send.
use open_snell.Base.{
  ◌++◌, ℕ, suc, ◌≡◌, ◌⊎◌, List, [], ◌∷◌, Bool, Option, none, some, ltb, if◌then◌else◌, length,
}
use open_snell.Socks5.Text.{NetLib}
use open_snell.Udp.Request.{Packet, parse_packet}

-- A datagram that went out. The destination is what `net.ResolveUDPAddr` returned.
pub record Datagram : Type 0 where
  pub dest : List ℕ
  pub payload : List ℕ

-- `lru.Cache` of golang-lru, from targets to resolved addresses (a nil address is `none`). `Get`
-- changes the order of the entries, so it returns the cache too.
pub record CacheLib (C : Type 0) : Type 0 where
  pub get : List ℕ → C → Option (Option (List ℕ)) × C
  pub add : List ℕ → Option (List ℕ) → C → C
  pub new : C

-- What the cache documents: it holds what was added, and may forget; a new one is empty.
pub record IsCacheLib {C : Type 0} (lib : CacheLib C) : Type 0 where
  pub get-new : (k : List ℕ) → (lib.get k lib.new).0 ≡ none
  pub get-get :
      (j k : List ℕ) (c : C)
      → ((lib.get j (lib.get k c).1).0 ≡ none) ⊎ ((lib.get j (lib.get k c).1).0 ≡ (lib.get j c).0)
  pub get-add :
      (j k : List ℕ) (v : Option (List ℕ)) (c : C)
      → ((lib.get j (lib.add k v c)).0 ≡ none)
        ⊎ ((lib.get j (lib.add k v c)).0 ≡ (lib.get j c).0)
        ⊎ ((j ≡ k) × ((lib.get j (lib.add k v c)).0 ≡ some v))

-- The socket, by the number of the packet in its session: how `ResolveUDPAddr` answers at that time,
-- and which datagrams `WriteTo` refuses then.
pub record Socket : Type 0 where
  pub resolve : ℕ → List ℕ → Option (List ℕ)
  pub refuses : ℕ → Datagram → Bool

module _ {C : Type 0} (cache : CacheLib C) (sock : Socket) where
  pub look_up_by : ℕ → List ℕ → C → Option (Option (List ℕ)) × C → Option (List ℕ) × C
  look_up_by n target c (some uaddr, c') = (uaddr, c')
  look_up_by n target c (none, c') =
      (sock.resolve n target, cache.add target (sock.resolve n target) c')

  -- The address of a target, from the cache or resolved now and added. A target that does not resolve
  -- is added with a nil address.
  unfoldable pub look_up : ℕ → List ℕ → C → Option (List ℕ) × C
  unfolding look_up_by
  look_up n target c = look_up_by n target c (cache.get target c)

-- `pc.WriteTo(payload, uaddr)`, unless the payload is empty; `none` is an error, which ends the
-- session. A nil address is an error.
unfoldable pub transmit : Socket → ℕ → Packet → Option (List ℕ) → Option (List Datagram)
transmit sock n p uaddr =
    if ltb 0 (length p.payload)
    then elim uaddr [
      | none ↦ none
      | some a ↦
          if sock.refuses n (record { dest = a; payload = p.payload })
          then none
          else some (record { dest = a; payload = p.payload } ∷ [])
    ]
    else some []

unfoldable pub send_then : Option (List Datagram) → List Datagram → List Datagram
send_then none rest = []
send_then (some sent) rest = sent ++ rest

-- One round of the loop, behind the head of the packet.
unfoldable pub serve_one :
    {C : Type 0} → CacheLib C → Socket → ℕ → (C → List Datagram) → Option Packet → C → List Datagram
unfolding send_then
serve_one cache sock n next none c = []
serve_one cache sock n next (some p) c =
    let (uaddr, c') = look_up cache sock n p.target c in
    let rest = next c' in send_then (transmit sock n p uaddr) rest

-- The loop over what the `conn.Read`s to come return, up to the first error of theirs, from the packet
-- with the number `n`: the datagrams that go out, in order.
unfoldable pub serve :
    {C : Type 0} → NetLib → CacheLib C → Socket → ℕ → List (List ℕ) → C → List Datagram
unfolding serve_one
serve lib cache sock n [] c = []
serve lib cache sock n (chunk ∷ chunks) c =
    serve_one cache sock n (serve lib cache sock (suc n) chunks) (parse_packet lib chunk) c

-- `handleUDPRequest` behind `ResponseReady`, with a new cache.
unfoldable pub handle_udp_request :
    {C : Type 0} → NetLib → CacheLib C → Socket → List (List ℕ) → List Datagram
handle_udp_request lib cache sock chunks = serve lib cache sock 0 chunks cache.new
