-- ===== src/Socks5/Streams.antt =====
-- `ReadAddr` on a stream against `SplitAddr` on a slice.
use open_snell.Base.{
  Option, none, some, drop, length, ℕ, suc, ◌+◌, ◌≤◌, ◌<◌, ◌≡◌, refl, inl, inr, List, [], ◌∷◌, none,
  some, arith, length, take, drop, length-take, ◌⊎◌, ◌≢◌,
}
use native.Mathlib.Decide.{ℕ_discrete}
use open_snell.Io.{Conn, Error, ok, err, socks}
use open_snell.Io.Laws.{read_full_enough, read_full_short, short_error}
use open_snell.Socks5.Defs.{Addr, max_addr_len, split_addr, read_addr}

-- The tail of an address of each type, behind its first byte.
pub data Tail : ℕ → ℕ → List ℕ → Type 0 where
  ipv4 : (t : ℕ) (xs : List ℕ) → t ≡ 1 → Tail t 6 xs
  ipv6 : (t : ℕ) (xs : List ℕ) → t ≡ 4 → Tail t 18 xs
  domain : (t l : ℕ) (xs : List ℕ) → t ≡ 3 → Tail t (suc (l + 2)) (l ∷ xs)

-- What `SplitAddr` accepts, and that it cuts the address off.
pub split_addr_some :
    (t : ℕ) (xs : List ℕ) (a : Addr)
    → split_addr (t ∷ xs) ≡ some a
    → (n : ℕ) × Tail t n xs × (n ≤ length xs) × (a ≡ t ∷ take n xs)
unfolding split_addr
split_addr_some t [] a h = absurd (ground arith)
split_addr_some t (l ∷ xs) a h = elim (ℕ_discrete t 3) [
  | yes p ↦ (suc (l + 2), domain t l xs p, ground arith, ground arith)
  | no p ↦ elim (ℕ_discrete t 1) [
    | yes q ↦ (6, ipv4 t (l ∷ xs) q, ground arith, ground arith)
    | no q ↦ elim (ℕ_discrete t 4) [
      | yes r ↦ (18, ipv6 t (l ∷ xs) r, ground arith, ground arith)
      | no r ↦ absurd (ground arith)
    ]
  ]
]

-- `ReadAddr` takes such an address off the stream.
read_addr-Tail :
    (t n : ℕ) (xs : List ℕ) (c : Conn)
    → Tail t n xs
    → n ≤ length xs
    → read_addr max_addr_len (record c { input = t ∷ xs })
      ≡ (ok (t ∷ take n xs), record c { input = drop n xs })
unfolding read_addr
read_addr-Tail t n xs c (ipv4 _ _ e) h =
    rw (read_full_enough 1 (t ∷ xs) c (omega arith), e, read_full_enough 6 xs c h)
read_addr-Tail t n xs c (ipv6 _ _ e) h =
    rw (read_full_enough 1 (t ∷ xs) c (omega arith), e, read_full_enough 18 xs c h)
read_addr-Tail t n (l ∷ xs) c (domain _ _ _ e) h = rw (
  read_full_enough 1 (t ∷ l ∷ xs) c (omega arith),
  e,
  read_full_enough 1 (l ∷ xs) c (omega arith),
  read_full_enough (l + 2) xs c (omega arith),
)

-- What `SplitAddr` refuses: a tail that is short, no length at all, or another type.
split_addr-none :
    (t : ℕ) (xs : List ℕ)
    → split_addr (t ∷ xs) ≡ none
    → ((n : ℕ) × Tail t n xs × (length xs < n))
      ⊎ ((t ≡ 3) × (xs ≡ []))
      ⊎ ((t ≢ 3) × (t ≢ 1) × (t ≢ 4))
unfolding split_addr
split_addr-none t xs h = elim (ℕ_discrete t 3) [
  | yes p ↦ domain_none t xs p h
  | no p ↦ elim (ℕ_discrete t 1) [
    | yes q ↦ inl (6, ipv4 t xs q, ground arith)
    | no q ↦ elim (ℕ_discrete t 4) [
      | yes r ↦ inl (18, ipv6 t xs r, ground arith)
      | no r ↦ inr (inr (p, q, r))
    ]
  ]
]
  where
    domain_none :
        (t : ℕ) (xs : List ℕ)
        → t ≡ 3
        → split_addr (t ∷ xs) ≡ none
        → ((n : ℕ) × Tail t n xs × (length xs < n))
          ⊎ ((t ≡ 3) × (xs ≡ []))
          ⊎ ((t ≢ 3) × (t ≢ 1) × (t ≢ 4))
    domain_none t [] p h = inr (inl (p, refl))
    domain_none t (l ∷ xs) p h = inl (suc (l + 2), domain t l xs p, ground arith)

abbrev Fails : Conn → Type 0
Fails c = (e : Error) × ((read_addr max_addr_len c).0 ≡ err e)

read_addr-Tail_short :
    (t n : ℕ) (xs : List ℕ) (c : Conn)
    → Tail t n xs
    → length xs < n
    → Fails (record c { input = t ∷ xs })
unfolding read_addr
read_addr-Tail_short t n xs c (ipv4 _ _ e) h = (
  short_error c xs,
  rw (read_full_enough 1 (t ∷ xs) c (omega arith), e, read_full_short 6 xs c h),
)
read_addr-Tail_short t n xs c (ipv6 _ _ e) h = (
  short_error c xs,
  rw (read_full_enough 1 (t ∷ xs) c (omega arith), e, read_full_short 18 xs c h),
)
read_addr-Tail_short t n (l ∷ xs) c (domain _ _ _ e) h = (
  short_error c xs,
  rw (
    read_full_enough 1 (t ∷ l ∷ xs) c (omega arith),
    e,
    read_full_enough 1 (l ∷ xs) c (omega arith),
    read_full_short (l + 2) xs c (omega arith),
  ),
)

read_addr-other :
    (t : ℕ) (xs : List ℕ) (c : Conn) → t ≢ 3 → t ≢ 1 → t ≢ 4 → Fails (record c { input = t ∷ xs })
unfolding read_addr
read_addr-other t xs c p q r =
    (socks 8, rw (read_full_enough 1 (t ∷ xs) c (omega arith)) (ground arith))

read_addr_on :
    (inp : List ℕ) (c : Conn) (a : Addr)
    → split_addr inp ≡ some a
    → read_addr max_addr_len (record c { input = inp })
      ≡ (ok a, record c { input = drop (length a) inp })
read_addr_on [] c a h = unfold split_addr in cc
read_addr_on (t ∷ xs) c a h =
    let (n, tail, fits, e) = split_addr_some t xs a h in
    let cut : length (take n xs) ≡ n = omega (arith, length-take n xs) in
    rw (e, cut) (read_addr-Tail t n xs c tail fits)

-- `ReadAddr` on a stream and `SplitAddr` on the bytes of the stream agree: where `SplitAddr` finds an
-- address, `ReadAddr` returns it and takes exactly its bytes, changing nothing else.
pub read_addr-split_addr :
    (c : Conn) (a : Addr)
    → split_addr c.input ≡ some a
    → read_addr max_addr_len c ≡ (ok a, record c { input = drop (length a) c.input })
read_addr-split_addr c a h = read_addr_on c.input c a h

read_addr-Fails :
    (inp : List ℕ) (c : Conn) → split_addr inp ≡ none → Fails (record c { input = inp })
read_addr-Fails [] c h =
    unfold read_addr in (short_error c [], rw (read_full_short 1 [] c (omega arith)))
read_addr-Fails (t ∷ xs) c h = elim (split_addr-none t xs h) [
  | inl (n, tail, short) ↦ read_addr-Tail_short t n xs c tail short
  | inr (inl (p, e)) ↦
      unfold read_addr in
      (
        short_error c [],
        rw (
          read_full_enough 1 (t ∷ xs) c (omega arith),
          p,
          e,
          read_full_short 1 [] c (omega arith),
        ),
      )
  | inr (inr (p, q, r)) ↦ read_addr-other t xs c p q r
]

-- Where `SplitAddr` finds no address in the bytes of the stream, `ReadAddr` returns an error.
read_addr-split_addr-none :
    (c : Conn) → split_addr c.input ≡ none → (e : Error) × ((read_addr max_addr_len c).0 ≡ err e)
read_addr-split_addr-none c h = read_addr-Fails c.input c h

-- What `ReadAddr` does, by what `SplitAddr` returns for the bytes of the stream.
abbrev pub Agrees : Option Addr → Conn → Type 0
Agrees none c = (e : Error) × ((read_addr max_addr_len c).0 ≡ err e)
Agrees (some a) c = read_addr max_addr_len c ≡ (ok a, record c { input = drop (length a) c.input })

agrees : (o : Option Addr) (c : Conn) → split_addr c.input ≡ o → Agrees o c
agrees none c h = read_addr-split_addr-none c h
agrees (some a) c h = read_addr-split_addr c a h

-- On every stream, `ReadAddr` agrees with `SplitAddr` on its bytes: where that finds an address,
-- `ReadAddr` returns it and takes exactly its bytes, changing nothing else, and where it finds none,
-- `ReadAddr` returns an error.
pub read_addr-Agrees : (c : Conn) → Agrees (split_addr c.input) c
read_addr-Agrees c = agrees (split_addr c.input) c refl
