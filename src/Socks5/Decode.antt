-- ===== src/Socks5/Decode.antt =====
-- Addresses delimit themselves, `ParseAddr` makes such addresses, and the UDP header is read back.
use open_snell.Base.{
  ℕ, suc, ◌+◌, ◌≤◌, ◌≡◌, refl, sym, ap, ◌∙◌, List, [], ◌∷◌, ◌++◌, none, some, arith, length, take,
  drop, length-take, length-append, take-append, drop-append, append-nil, take-append-drop,
  ltb-false,
}
use open_snell.Socks5.Defs.{Addr, IsAddr, split_addr}
use open_snell.Socks5.Packet.{decode_udp_packet, encode_udp_packet}
use open_snell.Socks5.Streams.{Tail, ipv4, ipv6, domain, split_addr_some}

pub split_addr-Tail :
    (t n : ℕ) (xs : List ℕ)
    → Tail t n xs
    → n ≤ length xs
    → split_addr (t ∷ xs) ≡ some (t ∷ take n xs)
unfolding split_addr
split_addr-Tail t n xs (ipv4 _ _ e) h = rw e (ground arith)
split_addr-Tail t n xs (ipv6 _ _ e) h = rw e (ground arith)
split_addr-Tail t n (l ∷ xs) (domain _ _ _ e) h = rw e (ground arith)

-- The head of a tail is all that its length depends on.
Tail-take :
    (t n : ℕ) (xs rest : List ℕ) → Tail t n xs → n ≤ length xs → Tail t n (take n xs ++ rest)
Tail-take t n xs rest (ipv4 _ _ e) h = ipv4 t _ e
Tail-take t n xs rest (ipv6 _ _ e) h = ipv6 t _ e
Tail-take t n (l ∷ xs) rest (domain _ _ _ e) h = domain t l (take (l + 2) xs ++ rest) e

-- An address that `SplitAddr` finds at the head of some bytes, it finds at the head of any other
-- bytes that begin with it.
pub split_addr-append :
    (b : List ℕ) (a : Addr) (rest : List ℕ)
    → split_addr b ≡ some a
    → split_addr (a ++ rest) ≡ some a
split_addr-append [] a rest h = unfold split_addr in cc
split_addr-append (t ∷ xs) a rest h =
    let (n, tail, fits, e) = split_addr_some t xs a h in
    let cut : length (take n xs) ≡ n = omega (arith, length-take n xs) in
    rw e (
      split_addr-Tail t n (take n xs ++ rest) (Tail-take t n xs rest tail fits)
        (omega (arith, length-append (take n xs) rest))
      ∙ rw (take-append n (take n xs) rest cut))

-- What `SplitAddr` finds is a prefix of the bytes, four bytes long at least.
pub split_addr-prefix :
    (b : List ℕ) (a : Addr) → split_addr b ≡ some a → (a ++ drop (length a) b ≡ b) × (4 ≤ length a)
split_addr-prefix [] a h = unfold split_addr in cc
split_addr-prefix (t ∷ xs) a h =
    let (n, tail, fits, e) = split_addr_some t xs a h in
    let cut : length (take n xs) ≡ n = omega (arith, length-take n xs) in
    rw (e, cut) (ap (λ l. t ∷ l) (take-append-drop n xs), lower tail)
  where
    lower : {t n : ℕ} {xs : List ℕ} → Tail t n xs → 4 ≤ suc n
    lower (ipv4 _ _ e) = omega arith
    lower (ipv6 _ _ e) = omega arith
    lower (domain _ l _ e) = omega arith

drop_three {ℓ} :
    {A : Type ℓ} (n : ℕ) (x y z : A) (l : List A) → drop (3 + n) (x ∷ y ∷ z ∷ l) ≡ drop n l
drop_three n x y z l = let e : 3 + n ≡ suc (suc (suc n)) = omega arith in rw e

-- A packet that `EncodeUDPPacket` makes of an address and a payload is decoded to both.
pub decode-encode :
    (a : Addr) (payload : List ℕ)
    → IsAddr a
    → decode_udp_packet (encode_udp_packet (some a) payload).0
      ≡ record { addr = some a; payload = payload; failure = none }
unfolding decode_udp_packet encode_udp_packet
decode-encode a payload h = rw (
  ltb-false (suc (suc (suc (length (a ++ payload))))) 5
      (omega (arith, length-append a payload, split_addr-prefix a a h)),
  split_addr-append a a payload h,
  drop_three,
  drop-append (length a) a payload refl,
)

decode_cases :
    (x y z : ℕ) (rest payload : List ℕ) (a : Addr)
    → decode_udp_packet (x ∷ y ∷ z ∷ rest)
      ≡ record { addr = some a; payload = payload; failure = none }
    → (x ≡ 0)
      × (y ≡ 0)
      × (z ≡ 0)
      × (split_addr rest ≡ some a)
      × (payload ≡ drop (3 + length a) (x ∷ y ∷ z ∷ rest))
unfolding decode_udp_packet
decode_cases x y z rest payload a h = ground arith

-- A packet that is decoded without an error is the packet that `EncodeUDPPacket` makes of the
-- address and the payload that come out, and the address stands by itself.
pub encode-decode :
    (packet payload : List ℕ) (a : Addr)
    → decode_udp_packet packet ≡ record { addr = some a; payload = payload; failure = none }
    → (encode_udp_packet (some a) payload ≡ (packet, none)) × IsAddr a
unfolding encode_udp_packet
encode-decode [] payload a h = unfold decode_udp_packet in absurd (ground arith)
encode-decode (x ∷ []) payload a h = unfold decode_udp_packet in absurd (ground arith)
encode-decode (x ∷ y ∷ []) payload a h = unfold decode_udp_packet in absurd (ground arith)
encode-decode (x ∷ y ∷ z ∷ rest) payload a h =
    let (ex, ey, ez, found, ep) = decode_cases x y z rest payload a h in
    let whole = (split_addr-prefix rest a found).0 in
    (
      rw (ex, ey, ez, ep, drop_three (length a) x y z rest, whole),
      ap split_addr (sym (append-nil a)) ∙ split_addr-append rest a [] found,
    )
