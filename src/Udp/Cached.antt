-- ===== src/Udp/Cached.antt =====
-- What the cache of addresses answers, where names may resolve differently from packet to packet.
use open_snell.Base.{
  ℕ, suc, ◌≡◌, ◌⊎◌, inl, inr, refl, ap, ◌∙◌, List, [], ◌∷◌, ◌++◌, Option, none, some, Option-cases,
  length, lt→ltb, ◌<◌,
}
use open_snell.Socks5.Text.{NetLib}
use open_snell.Udp.Request.{Packet, parse_packet}
use open_snell.Udp.Forward.{
  Datagram, CacheLib, IsCacheLib, Socket, look_up, transmit, send_then, serve, handle_udp_request,
}

-- The packets that were looked up, the last one first, each with its number and its target.
abbrev pub Log : Type 0
Log = List (ℕ × List ℕ)

-- A packet of that number asked for the target.
pub data Asked (j : ℕ) (target : List ℕ) : Log → Type 0 where
  now : (log : Log) → Asked j target ((j, target) ∷ log)
  before :
      {log : Log} (i : ℕ) (other : List ℕ) → Asked j target log → Asked j target ((i, other) ∷ log)

-- The datagrams of a session without a cache, from packet `n` on: each packet goes to what its own
-- target resolved to when it was looked up, or an earlier packet to the same target; the session ends
-- at the first packet that is broken or not sent.
pub data Sends (lib : NetLib) (sock : Socket)
    : ℕ → Log → List (List ℕ) → List Datagram → Type 0 where
  closes : (n : ℕ) (log : Log) → Sends lib sock n log [] []
  breaks :
      (n : ℕ) (log : Log) (chunk : List ℕ) (chunks : List (List ℕ))
      → parse_packet lib chunk ≡ none
      → Sends lib sock n log (chunk ∷ chunks) []
  goes :
      {n : ℕ} {log : Log} {chunk : List ℕ} {chunks : List (List ℕ)} {rest : List Datagram}
      (p : Packet) (j : ℕ)
      → parse_packet lib chunk ≡ some p
      → Asked j p.target ((n, p.target) ∷ log)
      → Sends lib sock (suc n) ((n, p.target) ∷ log) chunks rest
      → Sends lib sock n log
          (chunk ∷ chunks)
          (send_then (transmit sock n p (sock.resolve j p.target)) rest)

module _ {C : Type 0} (cache : CacheLib C) (law : IsCacheLib cache) (sock : Socket) where
  -- The cache answers nothing for a target, or what it resolved to for a packet of the log.
  abbrev Known : Log → List ℕ → Option (Option (List ℕ)) → Type 0
  Known log k v = (v ≡ none) ⊎ ((j : ℕ) × Asked j k log × (v ≡ some (sock.resolve j k)))

  abbrev Agrees : Log → C → Type 0
  Agrees log c = (k : List ℕ) → Known log k (cache.get k c).0

  -- What a look-up finds.
  abbrev Finds : ℕ → List ℕ → Log → Option (List ℕ) × C → Type 0
  Finds n t log x =
      (j : ℕ) × Asked j t ((n, t) ∷ log) × (x.0 ≡ sock.resolve j t) × Agrees ((n, t) ∷ log) x.1

module _ {C : Type 0} (cache : CacheLib C) (law : IsCacheLib cache) (sock : Socket) (t : List ℕ)
    (lost : (n : ℕ) → sock.resolve n t ≡ none) where
  -- What a cache answers for a target that never resolves.
  abbrev Nil : Option (Option (List ℕ)) → Type 0
  Nil v = (v ≡ none) ⊎ (v ≡ some none)

  same-Nil : (v w : Option (Option (List ℕ))) → w ≡ v → Nil v → Nil w
  same-Nil v w e (inl gone) = inl (e ∙ gone)
  same-Nil v w e (inr hit) = inr (e ∙ hit)

  get-Nil : (k : List ℕ) (c : C) → Nil (cache.get t c).0 → Nil (cache.get t (cache.get k c).1).0
  get-Nil k c h = elim (law.get-get t k c) [ inl gone ↦ inl gone | inr same ↦ same-Nil _ _ same h ]

  add-Nil :
      (n : ℕ) (k : List ℕ) (c : C)
      → Nil (cache.get t c).0
      → Nil (cache.get t (cache.add k (sock.resolve n k) c)).0
  add-Nil n k c h = elim (law.get-add t k (sock.resolve n k) c) [
    | inl gone ↦ inl gone
    | inr (inl same) ↦ same-Nil _ _ same h
    | inr (inr (e, hit)) ↦
        let nil : sock.resolve n k ≡ none = rw e at (lost n) in inr (hit ∙ ap some nil)
  ]

  look_up-Nil :
      (n : ℕ) (k : List ℕ) (c : C)
      → Nil (cache.get t c).0
      → Nil (cache.get t (look_up cache sock n k c).1).0
  unfolding look_up
  look_up-Nil n k c h = elim (Option-cases (cache.get k c).0) [
    | inl miss ↦ rw miss (add-Nil n k (cache.get k c).1 (get-Nil k c h))
    | inr (v, hit) ↦ rw hit (get-Nil k c h)
  ]

  look_up_lost : (n : ℕ) (c : C) → Nil (cache.get t c).0 → (look_up cache sock n t c).0 ≡ none
  unfolding look_up
  look_up_lost n c (inl miss) = rw miss (lost n)
  look_up_lost n c (inr hit) = rw hit refl

  serve_lost :
      (lib : NetLib) (n : ℕ) (pre : List (List ℕ)) (chunk : List ℕ) (post : List (List ℕ))
      (p : Packet) (c : C)
      → parse_packet lib chunk ≡ some p
      → p.target ≡ t
      → 0 < length p.payload
      → Nil (cache.get t c).0
      → serve lib cache sock n (pre ++ (chunk ∷ post)) c ≡ serve lib cache sock n pre c
  unfolding serve transmit send_then
  serve_lost lib n [] chunk post p c e same some_bytes h =
      rw (e, same, look_up_lost n c h, lt→ltb 0 (length p.payload) some_bytes)
  serve_lost lib n (first ∷ pre) chunk post p c e same some_bytes h =
      elim (Option-cases (parse_packet lib first)) [
        | inl broken ↦ rw broken
        | inr (q, f) ↦
            rw
              (
                f,
                serve_lost lib (suc n) pre chunk post p (look_up cache sock n q.target c).1 e same
                    some_bytes (look_up-Nil n q.target c h),
              )
              refl
      ]

-- A packet with a payload whose target does not resolve during the session ends the session, wherever it
-- comes, with its nil address from the cache or not: neither it nor any later packet goes out, and what
-- goes out is what the packets in front of it send.
pub handle_udp_request-unresolved :
    {C : Type 0} (lib : NetLib) (cache : CacheLib C) (sock : Socket) (pre : List (List ℕ))
    (chunk : List ℕ) (post : List (List ℕ)) (p : Packet)
    → IsCacheLib cache
    → parse_packet lib chunk ≡ some p
    → ((n : ℕ) → sock.resolve n p.target ≡ none)
    → 0 < length p.payload
    → handle_udp_request lib cache sock (pre ++ (chunk ∷ post))
      ≡ handle_udp_request lib cache sock pre
unfolding handle_udp_request
handle_udp_request-unresolved lib cache sock pre chunk post p law e lost some_bytes =
    serve_lost cache law sock p.target lost lib 0 pre chunk post p cache.new e refl some_bytes
      (inl (law.get-new p.target))
