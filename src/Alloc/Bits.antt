-- ===== src/Alloc/Bits.antt =====
-- `msb`, and the size classes of the allocator.
use open_snell.Base.{
  ℕ, zero, suc, ◌+◌, ◌-◌, ◌*◌, ◌/◌, ◌%◌, ◌≤◌, ◌<◌, ◌≡◌, refl, ap, ◌∙◌, arith, ◌==◌, if◌then◌else◌,
  to_u16, ltb, leb, leb→le, Bool-cases, inl, inr, false,
}

-- `1 << i`, with `i` below the size of a word.
unfoldable pub shl : ℕ → ℕ
shl zero = 1
shl (suc i) = 2 * shl i

-- `bits.Len32`, the number of binary digits, of a number below `2 ^ fuel`.
unfoldable pub bit_len : ℕ → ℕ → ℕ
bit_len zero n = 0
bit_len (suc fuel) n = let rest = bit_len fuel (n / 2) in if n == 0 then 0 else suc rest

-- `msb`: the difference is of type `int`, so 0 becomes 65535.
unfoldable pub msb : ℕ → ℕ
unfolding bit_len
msb size = to_u16 (bit_len 32 (size % 4294967296) + 65535)

pub shl_positive : (i : ℕ) → 1 ≤ shl i
unfolding shl
shl_positive zero = omega arith
shl_positive (suc i) = let ih = shl_positive i in omega arith

shl_add : (k i j : ℕ) → j ≡ k + i → shl i ≤ shl j
unfolding shl
shl_add zero i j e = let same : shl j ≡ shl i = ap shl (omega arith) in omega (arith, same)
shl_add (suc k) i j e =
    let sum : j ≡ suc (k + i) = omega (arith, e) in
    let same : shl j ≡ shl (suc (k + i)) = ap shl sum in
    omega (arith, same, shl_add k i (k + i) refl)

pub shl_mono : (i j : ℕ) → i ≤ j → shl i ≤ shl j
shl_mono i j h = shl_add (j - i) i j (omega arith)

bit_len_0 : (fuel : ℕ) → bit_len fuel 0 ≡ 0
unfolding bit_len
bit_len_0 zero = refl
bit_len_0 (suc fuel) = refl

-- The fuel is enough: a number below `2 ^ fuel` lies between two powers of two.
bit_len_bounds :
    (fuel n : ℕ)
    → 1 ≤ n
    → n < shl fuel
    → (i : ℕ) × (bit_len fuel n ≡ suc i) × (shl i ≤ n) × (n < shl (suc i))
unfolding bit_len shl
bit_len_bounds zero n h lt = absurd (omega arith)
bit_len_bounds (suc fuel) n h lt = elim (Bool-cases (n / 2 == 0)) [
  | inl e ↦
      let nonzero : (n == 0) ≡ false = ground arith in
      let none_left : n / 2 ≡ 0 = ground arith in
      let short : bit_len fuel (n / 2) ≡ 0 = ap (bit_len fuel) none_left ∙ bit_len_0 fuel in
      rw (nonzero, short) (0, refl, omega arith, omega arith)
  | inr e ↦
      let nonzero : (n == 0) ≡ false = ground arith in
      let some_left : 1 ≤ n / 2 = ground arith in
      let (i, len, lo, hi) = bit_len_bounds fuel (n / 2) some_left (omega arith) in
      rw (nonzero, len) (suc i, refl, omega arith, omega arith)
]

shl_32 : shl 32 ≡ 4294967296
unfolding shl
shl_32 = refl

pub shl_16 : shl 16 ≡ 65536
unfolding shl
shl_16 = refl

shl_17 : shl 17 ≡ 131072
unfolding shl
shl_17 = refl

pub shl_class : (i n : ℕ) → shl i ≤ n → n ≤ 65536 → i ≤ 16
shl_class i n lo le = elim (Bool-cases (leb i 16)) [
  | inl small ↦ leb→le i 16 small
  | inr large ↦
      let more : 17 ≤ i = ground arith in absurd (omega (arith, shl_mono 17 i more, shl_17))
]

-- `msb` is the place of the highest binary digit.
pub msb_bounds :
    (n : ℕ) → 1 ≤ n → n ≤ 65536 → (msb n ≤ 16) × (shl (msb n) ≤ n) × (n < shl (suc (msb n)))
unfolding msb
msb_bounds n h le =
    let small : n % 4294967296 ≡ n = omega arith in
    let (i, len, lo, hi) = bit_len_bounds 32 n h (omega (arith, shl_32)) in
    let bound : i ≤ 16 = shl_class i n lo le in
    let place : to_u16 (suc i + 65535) ≡ i = omega arith in rw (small, len, place) (bound, lo, hi)

pub msb-shl : (i : ℕ) → i ≤ 16 → msb (shl i) ≡ i
unfolding shl
msb-shl i le =
    let (m, lo, hi) =
      msb_bounds (shl i) (shl_positive i) (omega (arith, shl_mono i 16 le, shl_16)) in
    elim (Bool-cases (ltb (msb (shl i)) i)) [
      | inl less ↦
          let up : suc (msb (shl i)) ≤ i = ground arith in
          absurd (omega (arith, shl_mono (suc (msb (shl i))) i up, hi))
      | inr e ↦ elim (Bool-cases (ltb i (msb (shl i)))) [
        | inl more ↦
            let up : suc i ≤ msb (shl i) = ground arith in
            absurd (omega (arith, shl_mono (suc i) (msb (shl i)) up, lo, shl_positive i))
        | inr f ↦ ground arith
      ]
    ]
