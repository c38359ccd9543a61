-- ===== src/Base/Counts.antt =====
-- Threads in a list: the place of one of them, and sums of a weight over all.
use Prim.Native.Nat.{ℕ, zero, suc, ◌+◌, ◌≤◌, ◌<◌}
use mathlib.Core.Path.{◌≡◌, refl}
use mathlib.Core.Logic.{◌≢◌}
use mathlib.Core.Bool.{Bool, true, false}
use mathlib.Core.List.{List, [], ◌∷◌, ◌++◌, map}
use mathlib.Core.Option.{Option, none, some}
use native.Mathlib.Omega.{arith}
use operation_systems_mirea.Base.Lists.{length, replicate}
use native.Mathlib.Decide.{dec_lt}

abbrev pub to_bit : Bool → ℕ
to_bit true = 1
to_bit false = 0

module _ {ℓ} {A : Type ℓ} where
  abbrev pub get_elem? : List A → ℕ → Option A
  get_elem? [] i = none
  get_elem? (x ∷ xs) zero = some x
  get_elem? (x ∷ xs) (suc i) = get_elem? xs i

  -- A write out of bounds changes nothing.
  abbrev pub set : List A → ℕ → A → List A
  set [] i v = []
  set (x ∷ xs) zero v = v ∷ xs
  set (x ∷ xs) (suc i) v = x ∷ set xs i v

  pub length-set : (xs : List A) (i : ℕ) (v : A) → length (set xs i v) ≡ length xs
  length-set [] i v = refl
  length-set (x ∷ xs) zero v = refl
  length-set (x ∷ xs) (suc i) v = omega (arith, length-set xs i v)

  pub get_elem?-set :
      (xs : List A) (i j : ℕ) (v : A) → j ≢ i → get_elem? (set xs i v) j ≡ get_elem? xs j
  get_elem?-set [] i j v h = refl
  get_elem?-set (x ∷ xs) zero zero v h = absurd (h refl)
  get_elem?-set (x ∷ xs) zero (suc j) v h = refl
  get_elem?-set (x ∷ xs) (suc i) zero v h = refl
  get_elem?-set (x ∷ xs) (suc i) (suc j) v h = get_elem?-set xs i j v (λ e. h (omega (arith, e)))

  pub get_some : (xs : List A) (i : ℕ) → i < length xs → (v : A) × (get_elem? xs i ≡ some v)
  get_some [] i h = absurd (omega (arith, h))
  get_some (x ∷ xs) zero h = (x, refl)
  get_some (x ∷ xs) (suc i) h = get_some xs i (omega (arith, h))

  pub lt-length : (xs : List A) (i : ℕ) (v : A) → get_elem? xs i ≡ some v → i < length xs
  lt-length [] i v h = absurd (ground arith)
  lt-length (x ∷ xs) zero v h = omega arith
  lt-length (x ∷ xs) (suc i) v h = omega (arith, lt-length xs i v h)

  unfoldable pub total : (A → ℕ) → List A → ℕ
  total w [] = 0
  total w (x ∷ xs) = w x + total w xs

  pub total-set :
      (w : A → ℕ) (xs : List A) (i : ℕ) (a b : A)
      → get_elem? xs i ≡ some b
      → total w (set xs i a) + w b ≡ total w xs + w a
  unfolding total
  total-set w [] i a b h = absurd (ground arith)
  total-set w (x ∷ xs) zero a b h = ground arith
  total-set w (x ∷ xs) (suc i) a b h = omega (arith, total-set w xs i a b h)

  pub le-total :
      (w : A → ℕ) (xs : List A) (i : ℕ) (b : A) → get_elem? xs i ≡ some b → w b ≤ total w xs
  unfolding total
  le-total w [] i b h = absurd (ground arith)
  le-total w (x ∷ xs) zero b h = ground arith
  le-total w (x ∷ xs) (suc i) b h = omega (arith, le-total w xs i b h)

  pub total-map :
      (w v : A → ℕ) (f : A → A)
      → ((a : A) → w (f a) ≡ v a)
      → (xs : List A) → total w (map f xs) ≡ total v xs
  unfolding total
  total-map w v f h [] = refl
  total-map w v f h (x ∷ xs) = omega (arith, h x, total-map w v f h xs)

  pub total-eq-zero : (w : A → ℕ) → ((a : A) → w a ≡ 0) → (xs : List A) → total w xs ≡ 0
  unfolding total
  total-eq-zero w h [] = refl
  total-eq-zero w h (x ∷ xs) = omega (arith, h x, total-eq-zero w h xs)

  -- A positive sum has a place with a positive weight.
  pub total_pos :
      (w : A → ℕ) (xs : List A)
      → 0 < total w xs
      → (i : ℕ) × (b : A) × (get_elem? xs i ≡ some b) × (0 < w b)
  unfolding total
  total_pos w [] h = absurd (omega arith)
  total_pos w (x ∷ xs) h = elim (dec_lt 0 (w x)) [
    | yes p ↦ (0, x, refl, p)
    | no p ↦ let (i, b, e, q) = total_pos w xs (omega arith) in (suc i, b, e, q)
  ]

  -- Where every place of the list has no weight, the sum is 0.
  pub total_zero :
      (w : A → ℕ) (xs : List A)
      → ((i : ℕ) (v : A) → get_elem? xs i ≡ some v → w v ≡ 0)
      → total w xs ≡ 0
  unfolding total
  total_zero w [] h = refl
  total_zero w (x ∷ xs) h = omega (arith, h 0 x refl, total_zero w xs (λ i v e. h (suc i) v e))

  pub total-replicate : (w : A → ℕ) (n : ℕ) (a : A) → w a ≡ 0 → total w (replicate n a) ≡ 0
  unfolding total
  total-replicate w zero a h = refl
  total-replicate w (suc n) a h = omega (arith, h, total-replicate w n a h)

  pub total-append : (w : A → ℕ) (xs ys : List A) → total w (xs ++ ys) ≡ total w xs + total w ys
  unfolding total
  total-append w [] ys = omega arith
  total-append w (x ∷ xs) ys = omega (arith, total-append w xs ys)

  pub total_mono : (w v : A → ℕ) → ((a : A) → w a ≤ v a) → (xs : List A) → total w xs ≤ total v xs
  unfolding total
  total_mono w v h [] = omega arith
  total_mono w v h (x ∷ xs) = omega (arith, h x, total_mono w v h xs)
