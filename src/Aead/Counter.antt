-- ===== src/Aead/Counter.antt =====
-- The nonce as a number: `increment` counts, and no nonce comes twice before all have come.
use native.Mathlib.Decide.{dec_lt}
use open_snell.Base.{
  ◌≢◌, ℕ, zero, suc, ◌+◌, ◌-◌, ◌*◌, ◌%◌, ◌^◌, ◌≤◌, ◌<◌, ◌≡◌, ◌⊎◌, inl, inr, refl, ap, ◌∙◌, sym,
  List, [], ◌∷◌, arith, length, All, IsByte, to_byte, ◌==◌, Bool-cases,
}
use native.Mathlib.Nat.{mod-eq_of_lt, pow-suc, mod-add-mod, mod_self, mod-eq-sub-mod}
use open_snell.Aead.Nonce.{increment}

-- A little-endian number of bytes, and how many such numbers there are.
abbrev pub le_value : List ℕ → ℕ
le_value [] = 0
le_value (b ∷ bs) = b + 256 * le_value bs

abbrev pub span : List ℕ → ℕ
span [] = 1
span (b ∷ bs) = 256 * span bs

pub le_value-lt-span : (b : List ℕ) → All IsByte b → le_value b < span b
le_value-lt-span [] h = omega arith
le_value-lt-span (b ∷ bs) (hb, hbs) = omega (arith, le_value-lt-span bs hbs)

-- One step: up by one, or round to 0.
increment_steps :
    (b : List ℕ)
    → All IsByte b
    → (All IsByte (increment b) × (span (increment b) ≡ span b) × (length (increment b) ≡ length b))
      × (((le_value b + 1 < span b) × (le_value (increment b) ≡ le_value b + 1))
          ⊎ ((le_value b + 1 ≡ span b) × (le_value (increment b) ≡ 0)))
unfolding increment
increment_steps [] h = ((tt, refl, refl), inr (refl, refl))
increment_steps (b ∷ bs) (hb, hbs) =
    let (keep, steps) = increment_steps bs hbs in
    elim (Bool-cases (to_byte (b + 1) == 0)) [
      | inl wraps ↦
          let last : b ≡ 255 = ground arith in
          rw wraps (
            (
              ((omega arith, keep.0), omega (arith, keep.1), omega (arith, keep.2)),
              elim steps [
                | inl (fits, up) ↦ inl (omega arith, omega arith)
                | inr (full, round) ↦ inr (omega arith, omega arith)
              ],
            ))
      | inr stays ↦
          let more : b < 255 = ground arith in
          rw stays (
            (
              ((omega arith, hbs), refl, refl),
              inl (omega (arith, le_value-lt-span bs hbs), omega arith),
            ))
    ]

span-eq-pow : (b : List ℕ) → span b ≡ 256 ^ length b
span-eq-pow [] = refl
span-eq-pow (b ∷ bs) = rw (span-eq-pow bs) (simp pow-suc (omega arith))

-- `increment` adds one to the little-endian number that the bytes hold, modulo 256 to their number,
-- and gives bytes, as many as before.
pub increment_counts :
    (b : List ℕ)
    → All IsByte b
    → (le_value (increment b) ≡ (le_value b + 1) % 256 ^ length b)
      × All IsByte (increment b)
      × (length (increment b) ≡ length b)
increment_counts b h =
    let (keep, steps) = increment_steps b h in
    let size : span b ≡ 256 ^ length b = span-eq-pow b in
    (
      rw (← size) (elim steps [
        | inl (fits, up) ↦ rw (up, mod-eq_of_lt fits) refl
        | inr (full, round) ↦ rw (full, round) (sym (mod_self (span b)))
      ]),
      keep.0,
      keep.2,
    )

-- The nonce after `k` messages.
abbrev pub nonce_at : ℕ → List ℕ → List ℕ
nonce_at zero n = n
nonce_at (suc k) n = increment (nonce_at k n)

nonce_at_counts :
    (k : ℕ) (n : List ℕ)
    → All IsByte n
    → (le_value (nonce_at k n) ≡ (le_value n + k) % 256 ^ length n)
      × All IsByte (nonce_at k n)
      × (length (nonce_at k n) ≡ length n)
nonce_at_counts zero n h =
    let fits : le_value n + 0 < 256 ^ length n =
      rw (← span-eq-pow n) (omega (arith, le_value-lt-span n h)) in
    (rw (mod-eq_of_lt fits) (omega arith), h, refl)
nonce_at_counts (suc k) n h =
    let (value, bytes, size) = nonce_at_counts k n h in
    let (up, bytes', size') = increment_counts (nonce_at k n) bytes in
    (
      rw (up, value, size)
          (mod-add-mod (le_value n + k) (256 ^ length n) 1
            ∙ ap (λ (t : ℕ). t % 256 ^ length n) (omega arith)),
      bytes',
      size' ∙ size,
    )

-- A remainder below twice the divisor.
mod_cases : (x m : ℕ) → x < m + m → ((x % m ≡ x) × (x < m)) ⊎ ((x % m + m ≡ x) × (m ≤ x))
mod_cases x m h = elim (dec_lt x m) [
  | yes p ↦ inl (mod-eq_of_lt p, p)
  | no p ↦
      let e : x % m ≡ x - m = mod-eq-sub-mod (omega arith) ∙ mod-eq_of_lt (omega arith) in
      inr (rw e (omega arith), omega arith)
]

shift_injective : (v i j m : ℕ) → v < m → i < m → j < m → (v + i) % m ≡ (v + j) % m → i ≡ j
shift_injective v i j m hv hi hj e =
    omega (arith, mod_cases (v + i) m (omega arith), mod_cases (v + j) m (omega arith))

-- Of the nonces that a stream counts through from any starting point, the first 256 to the nonce's
-- size are all different.
pub nonces_differ :
    (n : List ℕ) (i j : ℕ)
    → All IsByte n
    → i < 256 ^ length n
    → j < 256 ^ length n
    → i ≢ j
    → nonce_at i n ≢ nonce_at j n
nonces_differ n i j h hi hj ne e =
    let low : le_value n < 256 ^ length n = rw (← span-eq-pow n) (le_value-lt-span n h) in
    ne (
      shift_injective (le_value n) i j (256 ^ length n) low hi hj
        (sym (nonce_at_counts i n h).0 ∙ ap le_value e ∙ (nonce_at_counts j n h).0))
