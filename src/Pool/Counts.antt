-- ===== src/Pool/Counts.antt =====
-- Totals over a list, and what a reordering keeps.
use mathlib.Core.List.{Permᴰ}
use mathlib.Core.List.Permᴰ
use mathlib.Core.Path.{subst}
use open_snell.Base.{
  ℕ, zero, suc, ◌+◌, ◌==◌, ◌≡◌, List, [], ◌∷◌, ◌++◌, All, Option, none, some, ltb, if◌then◌else◌,
  arith,
}
use open_snell.Pool.Steps.{pick, beside}

module _ {ℓ} {A : Type ℓ} where
  abbrev pub total : (A → ℕ) → List A → ℕ
  total f [] = 0
  total f (x ∷ xs) = f x + total f xs

  pub total-append : (f : A → ℕ) (xs ys : List A) → total f (xs ++ ys) ≡ total f xs + total f ys
  total-append f [] ys = omega arith
  total-append f (x ∷ xs) ys = omega (arith, total-append f xs ys)

  pub total-Perm : (f : A → ℕ) {xs ys : List A} → Permᴰ xs ys → total f xs ≡ total f ys
  total-Perm f Permᴰ.nil = omega arith
  total-Perm f (Permᴰ.cons e p) = rw (e, total-Perm f p)
  total-Perm f (Permᴰ.swap {l = l} e e') = rw (e, e') (omega arith)
  total-Perm f (Permᴰ.trans p q) = rw (total-Perm f p, total-Perm f q)

  pub All-Perm : (Q : A → Type 0) {xs ys : List A} → Permᴰ xs ys → All Q xs → All Q ys
  All-Perm Q Permᴰ.nil h = tt
  All-Perm Q (Permᴰ.cons e p) (h, hs) = (subst Q e h, All-Perm Q p hs)
  All-Perm Q (Permᴰ.swap e e') (h, (h', hs)) = (subst Q e' h', (subst Q e h, hs))
  All-Perm Q (Permᴰ.trans p q) h = All-Perm Q q (All-Perm Q p h)

  pub All-append-right : (Q : A → Type 0) (xs ys : List A) → All Q (xs ++ ys) → All Q ys
  All-append-right Q [] ys h = h
  All-append-right Q (x ∷ xs) ys (h, hs) = All-append-right Q xs ys hs

  -- What was picked and the others are the elements of the list.
  abbrev pub Picked : List A → Option (A × List A) → Type ℓ
  Picked l none = Unit {ℓ}
  Picked l (some (x, xs)) = Permᴰ l (x ∷ xs)

  beside-Picked :
      (x : A) (xs : List A) (o : Option (A × List A)) → Picked xs o → Picked (x ∷ xs) (beside x o)
  unfolding beside
  beside-Picked x xs none h = tt
  beside-Picked x xs (some (y, ys)) h =
      Permᴰ.trans (Permᴰ.cons (λ i. x) h) (Permᴰ.swap (λ i. x) (λ i. y))

  pub pick-Picked : (i : ℕ) (l : List A) → Picked l (pick i l)
  unfolding pick
  pick-Picked i [] = tt
  pick-Picked zero (x ∷ xs) = Permᴰ.refl (x ∷ xs)
  pick-Picked (suc i) (x ∷ xs) = beside-Picked x xs (pick i xs) (pick-Picked i xs)

-- One for the number that is looked for.
abbrev pub same : ℕ → ℕ → ℕ
same k j = if k == j then 1 else 0

abbrev pub below : ℕ → ℕ → ℕ
below k n = if ltb k n then 1 else 0

pub below-suc : (k n : ℕ) → below k (suc n) ≡ same k n + below k n
below-suc k n = ground arith
