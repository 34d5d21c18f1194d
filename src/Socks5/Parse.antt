-- ===== src/Socks5/Parse.antt =====
-- Whatever text `ParseAddr` accepts, the address that it makes is well formed.
use open_snell.Base.{
  ℕ, zero, suc, ◌+◌, ◌≤◌, ◌≡◌, inl, inr, refl, ◌∙◌, List, ◌∷◌, ◌++◌, Option, none, some, arith,
  length, take, take_all, length-take, length-append, to_byte, be16, ltb, length-replicate,
  replicate, Option-cases, Bool-cases, false,
}
use open_snell.Socks5.Defs.{Addr, IsAddr, split_addr}
use open_snell.Socks5.Text.{NetLib, to4, parse_uint16, parse_addr, host_addr, ip_addr, add_port}
use open_snell.Socks5.Streams.{Tail, ipv4, ipv6, domain}
use open_snell.Socks5.Decode.{split_addr-Tail}

-- The address is in one piece and not longer than `MaxAddrLen`.
abbrev pub IsWhole : Addr → Type 0
IsWhole a = IsAddr a × (length a ≤ 259)

Tail-IsWhole : (t n : ℕ) (xs : List ℕ) → Tail t n xs → length xs ≡ n → n ≤ 258 → IsWhole (t ∷ xs)
Tail-IsWhole t n xs tail e h =
    (split_addr-Tail t n xs tail (omega arith) ∙ rw (take_all n xs (omega arith)), omega arith)

fit_len : (n : ℕ) (b : List ℕ) → length (take n (b ++ replicate n 0)) ≡ n
fit_len n b = omega (
  arith,
  length-take n (b ++ replicate n 0),
  length-append b (replicate n 0),
  length-replicate n (zero),
)

ip_addr-IsWhole : (o : Option (List ℕ)) (ip : List ℕ) (p : ℕ) → IsWhole (ip_addr o ip ++ be16 p)
unfolding ip_addr
ip_addr-IsWhole (some ip4) ip p =
    Tail-IsWhole 1 6 _ (ipv4 1 _ refl)
      (omega (arith, fit_len 4 ip4, length-append (take 4 (ip4 ++ replicate 4 0)) (be16 p)))
      (omega arith)
ip_addr-IsWhole none ip p =
    Tail-IsWhole 4 18 _ (ipv6 4 _ refl)
      (omega (arith, fit_len 16 ip, length-append (take 16 (ip ++ replicate 16 0)) (be16 p)))
      (omega arith)

name_addr-IsWhole :
    (host : List ℕ) (p : ℕ)
    → length host ≤ 255
    → IsWhole (3 ∷ to_byte (length host) ∷ (host ++ be16 p))
name_addr-IsWhole host p h =
    Tail-IsWhole 3 (suc (to_byte (length host) + 2)) _ (domain 3 _ _ refl)
      (omega (arith, length-append host (be16 p))) (omega arith)

host_addr-IsWhole :
    (o : Option (List ℕ)) (host : List ℕ) (q : Option ℕ) (a : Addr)
    → add_port (host_addr o host) q ≡ some a
    → IsWhole a
unfolding host_addr add_port
host_addr-IsWhole (some ip) host none a h = cc
host_addr-IsWhole (some ip) host (some p) a h =
    let e : ip_addr (to4 ip) ip ++ be16 p ≡ a = cc in rw (← e) (ip_addr-IsWhole (to4 ip) ip p)
host_addr-IsWhole none host q a h = elim (Bool-cases (ltb 255 (length host))) [
  | inl long ↦ absurd (ground arith)
  | inr fits ↦ named q fits h
]
  where
    named :
        (q : Option ℕ)
        → ltb 255 (length host) ≡ false
        → add_port (host_addr none host) q ≡ some a
        → IsWhole a
    named none fits h = absurd (ground arith)
    named (some p) fits h =
        let e : 3 ∷ to_byte (length host) ∷ (host ++ be16 p) ≡ a = ground arith in
        rw (← e) (name_addr-IsWhole host p (ground arith))

-- An address that `ParseAddr` makes of a text is in one piece: `SplitAddr` returns all of it, and it
-- fits the buffer of `MaxAddrLen` bytes that `ReadAddr` wants.
pub parse_addr-IsWhole :
    (lib : NetLib) (s : List ℕ) (a : Addr)
    → parse_addr lib s ≡ some a
    → (split_addr a ≡ some a) × (length a ≤ 259)
unfolding parse_addr
parse_addr-IsWhole lib s a h = elim (Option-cases (lib.split_host_port s)) [
  | inl e ↦ absurd (ground arith)
  | inr ((host, port), e) ↦
      host_addr-IsWhole (lib.parse_ip host) host (parse_uint16 port) a (rw (e, parse_addr) at h)
]
