-- ===== src/Alloc/Filed.antt =====
-- The pools hold buffers of their size only, so `Get` always has what was asked for.
use open_snell.Base.{
  ℕ, zero, suc, ◌+◌, ◌≤◌, ◌≡◌, refl, List, [], ◌∷◌, All, ltb, ltb-false, lt→ltb, ◌==◌, some, arith,
  length-replicate, to_u16, Bool-cases, inl, inr,
}
use open_snell.Io.{ok}
use open_snell.Alloc.Bits.{shl, msb, msb_bounds}
use open_snell.Alloc.Pools.{
  Buffer, cap, Allocator, set, fresh, take_out, get_at, get, put_at, put, Step, got, kept,
  collected, IsReached, made, after,
}

-- Pool `i` holds buffers of a capacity of `2 ^ i` only.
abbrev OfClass : ℕ → Buffer → Type 0
OfClass i b = cap b ≡ shl i

abbrev pub IsFiled : Allocator → Type 0
IsFiled a = (i : ℕ) → All (OfClass i) (a i)

take_out-OfClass :
    (i k : ℕ) (bs : List Buffer)
    → All (OfClass i) bs
    → OfClass i (take_out i k bs).0 × All (OfClass i) (take_out i k bs).1
unfolding take_out fresh
take_out-OfClass i k [] h = (length-replicate {A = ℕ} (shl i) 0, h)
take_out-OfClass i zero (b ∷ bs) (hb, h) = (hb, h)
take_out-OfClass i (suc k) (b ∷ bs) (hb, h) =
    let (here, left) = take_out-OfClass i k bs h in (here, (hb, left))

set-IsFiled :
    (i : ℕ) (bs : List Buffer) (a : Allocator)
    → IsFiled a
    → All (OfClass i) bs
    → IsFiled (set i bs a)
set-IsFiled i bs a h hb j = elim (Bool-cases (j == i)) [
  | inl e ↦ let same : j ≡ i = ground arith in rw e (rw same hb)
  | inr e ↦ rw e (h j)
]

get_at-IsFiled : (k i size : ℕ) (a : Allocator) → IsFiled a → IsFiled (get_at k i size a).1
unfolding get_at
get_at-IsFiled k i size a h = elim (Bool-cases (ltb i 17)) [
  | inl e ↦ rw e (set-IsFiled i _ a h (take_out-OfClass i k (a i) (h i)).1)
  | inr e ↦ rw e h
]

pub get_at-Fits :
    (k i size : ℕ) (a : Allocator)
    → IsFiled a
    → i ≤ 16
    → size ≤ shl i
    → (b : Buffer) × ((get_at k i size a).0 ≡ ok (some b)) × (b.len ≡ size) × (cap b ≡ shl i)
unfolding get_at
get_at-Fits k i size a h le fits =
    let room = (take_out-OfClass i k (a i) (h i)).0 in
    rw
      (lt→ltb i 17 (omega arith), ltb-false (cap (take_out i k (a i)).0) size (omega (arith, room)))
      (record { array = (take_out i k (a i)).0.array; len = size }, refl, refl, room)

get-IsFiled : (k size : ℕ) (a : Allocator) → IsFiled a → IsFiled (get k size a).1
unfolding get
get-IsFiled k size a h = elim (Bool-cases (size == 0)) [
  | inl e ↦ rw e h
  | inr e ↦ elim (Bool-cases (ltb 65536 size)) [
    | inl e2 ↦ rw (e, e2) h
    | inr e2 ↦ elim (Bool-cases (size == shl (msb size))) [
      | inl e3 ↦ rw (e, e2, e3) (get_at-IsFiled k (msb size) size a h)
      | inr e3 ↦ rw (e, e2, e3) (get_at-IsFiled k (to_u16 (msb size + 1)) size a h)
    ]
  ]
]

put-IsFiled : (b : Buffer) (a : Allocator) → IsFiled a → IsFiled (put b a).1
unfolding put put_at
put-IsFiled b a h = elim (Bool-cases (cap b == 0)) [
  | inl e ↦ rw e h
  | inr e ↦ elim (Bool-cases (ltb 65536 (cap b))) [
    | inl e2 ↦ rw (e, e2) h
    | inr e2 ↦ elim (Bool-cases (cap b == shl (msb (cap b)))) [
      | inl e3 ↦
          let place : msb (cap b) ≤ 16 = (msb_bounds (cap b) (ground arith) (ground arith)).0 in
          let class : cap b ≡ shl (msb (cap b)) = ground arith in
          rw (e, e2, e3, lt→ltb (msb (cap b)) 17 (omega arith))
            (set-IsFiled (msb (cap b)) (b ∷ a (msb (cap b))) a h (class, h (msb (cap b))))
      | inr e3 ↦ rw (e, e2, e3) h
    ]
  ]
]

-- Whatever was got and put back, and whatever the collector took, every pool of an allocator that
-- NewAllocator leads to holds buffers of its own size only.
pub IsReached-IsFiled : (a : Allocator) → IsReached a → IsFiled a
IsReached-IsFiled _ made = λ i. tt
IsReached-IsFiled _ (after a b r s) = Step-IsFiled a b s (IsReached-IsFiled a r)
  where
    Step-IsFiled : (a b : Allocator) → Step a b → IsFiled a → IsFiled b
    Step-IsFiled _ _ (got k size a) h = get-IsFiled k size a h
    Step-IsFiled _ _ (kept b a) h = put-IsFiled b a h
    Step-IsFiled _ _ (collected i k a) h = set-IsFiled i _ a h (take_out-OfClass i k (a i) (h i)).1
