-- ===== src/Alloc/Classes.antt =====
-- What a client of the allocator relies on.
use open_snell.Base.{
  ℕ, suc, ◌+◌, ◌*◌, ◌≤◌, ◌<◌, ◌≡◌, ◌↔◌, refl, ap, ◌∙◌, true, false, ltb, ltb-false, lt→ltb, ◌==◌,
  some, arith, to_u16, Bool-cases, inl, inr,
}
use open_snell.Io.{ok}
use open_snell.Alloc.Bits.{shl, msb, msb_bounds, msb-shl, shl_mono, shl_16, shl_positive}
use open_snell.Alloc.Pools.{Buffer, cap, Allocator, get, put_at, put, IsReached}
use open_snell.Alloc.Filed.{IsFiled, get_at-Fits, IsReached-IsFiled}

put-shl : (i : ℕ) (b : Buffer) (a : Allocator) → i ≤ 16 → cap b ≡ shl i → (put b a).0 ≡ ok tt
unfolding put put_at
put-shl i b a le e =
    let lo = shl_positive i in
    let small : cap b ≤ 65536 = omega (arith, e, shl_mono i 16 le, shl_16) in
    let place : msb (cap b) ≡ i = ap msb e ∙ msb-shl i le in
    let full : (cap b == 0) ≡ false = ground arith in
    let exact : (cap b == shl i) ≡ true = ground arith in
    rw (full, ltb-false 65536 (cap b) small, place, exact, lt→ltb i 17 (omega arith)) refl

-- Behind a size that is not a class there is another class.
next_class :
    (size : ℕ)
    → msb size ≤ 16
    → shl (msb size) ≤ size
    → size ≤ 65536
    → (size == shl (msb size)) ≡ false
    → suc (msb size) ≤ 16
next_class size le below hi e = elim (Bool-cases (ltb (msb size) 16)) [
  | inl f ↦ ground arith
  | inr f ↦
      let last : msb size ≡ 16 = ground arith in
      let top : shl (msb size) ≡ 65536 = ap shl last ∙ shl_16 in absurd (ground arith)
]

class_of :
    (k size : ℕ) (a : Allocator)
    → IsFiled a
    → 1 ≤ size
    → size ≤ 65536
    → (i : ℕ) × (i ≤ 16)
      × (b : Buffer) × ((get k size a).0 ≡ ok (some b))
      × (b.len ≡ size)
      × (cap b ≡ shl i)
      × (size ≤ shl i)
      × (shl i < 2 * size)
unfolding get shl
class_of k size a h lo hi =
    let (le, below, above) = msb_bounds size lo hi in
    let positive : (size == 0) ≡ false = ground arith in
    elim (Bool-cases (size == shl (msb size))) [
      | inl e ↦
          let exact : size ≡ shl (msb size) = ground arith in
          let (b, got, len, class) = get_at-Fits k (msb size) size a h le (omega arith) in
          rw (positive, ltb-false 65536 size hi, e)
            (msb size, le, b, got, len, class, omega arith, omega arith)
      | inr e ↦
          let differ : shl (suc (msb size)) < 2 * size = ground arith in
          let next : to_u16 (msb size + 1) ≡ suc (msb size) = omega arith in
          let le2 : suc (msb size) ≤ 16 = next_class size le below hi e in
          let (b, got, len, class) =
            get_at-Fits k (suc (msb size)) size a h le2 (omega (arith, above)) in
          rw (positive, ltb-false 65536 size hi, e, next)
            (suc (msb size), le2, b, got, len, class, omega (arith, above), differ)
    ]

-- For a size from 1 to 65536 an allocator that NewAllocator leads to has a slice of exactly that
-- length, whichever buffer its pool gives: Get does not panic, and the capacity is at least the size
-- and less than twice the size.
pub get-Fits :
    (k size : ℕ) (a : Allocator)
    → IsReached a
    → 1 ≤ size
    → size ≤ 65536
    → (b : Buffer) × ((get k size a).0 ≡ ok (some b))
      × (b.len ≡ size)
      × (size ≤ cap b)
      × (cap b < 2 * size)
get-Fits k size a r lo hi =
    let (i, le, b, got, len, class, fits, tight) =
      class_of k size a (IsReached-IsFiled a r) lo hi in
    (b, got, len, omega (arith, class, fits), omega (arith, class, tight))

-- Put takes back whatever Get gave: a slice that Get returns from an allocator that NewAllocator leads
-- to is one that Put accepts, into any allocator.
put-get :
    (k size : ℕ) (a c : Allocator) (b : Buffer)
    → IsReached a
    → 1 ≤ size
    → size ≤ 65536
    → (get k size a).0 ≡ ok (some b)
    → (put b c).0 ≡ ok tt
put-get k size a c b r lo hi e =
    let (i, le, d, got, len, class, fits, tight) =
      class_of k size a (IsReached-IsFiled a r) lo hi in
    let same : b ≡ d = ground arith in put-shl i b c le (ap cap same ∙ class)

-- Put accepts exactly the buffers whose capacity is a power of two from 1 to 65536.
put_accepts :
    (b : Buffer) (a : Allocator) → ((put b a).0 ≡ ok tt) ↔ ((i : ℕ) × (i ≤ 16) × (cap b ≡ shl i))
unfolding put
put_accepts b a = (accepted, λ (i, le, e). put-shl i b a le e)
  where
    accepted : (put b a).0 ≡ ok tt → (i : ℕ) × (i ≤ 16) × (cap b ≡ shl i)
    accepted h = elim (Bool-cases (cap b == 0)) [
      | inl e ↦ absurd (ground arith)
      | inr e ↦ elim (Bool-cases (ltb 65536 (cap b))) [
        | inl e2 ↦ absurd (ground arith)
        | inr e2 ↦ elim (Bool-cases (cap b == shl (msb (cap b)))) [
          | inl e3 ↦
              let (le, lo, hi) = msb_bounds (cap b) (ground arith) (ground arith) in
              (msb (cap b), le, ground arith)
          | inr e3 ↦ absurd (ground arith)
        ]
      ]
    ]
