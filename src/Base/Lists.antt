-- ===== src/Base/Lists.antt =====
-- C arrays as lists with native indices, and windows of a function as lists.
use Prim.Native.Nat.{ℕ, zero, suc, ◌+◌, ◌<◌}
use mathlib.Core.Path.{◌≡◌, refl, ap, ap₂, ◌∙◌}
use mathlib.Core.List.{List, [], ◌∷◌, ◌++◌}
use native.Mathlib.Omega.{arith}

module _ {ℓ} {A : Type ℓ} where
  abbrev pub length : List A → ℕ
  length [] = 0
  length (_ ∷ xs) = suc (length xs)

  abbrev pub take : ℕ → List A → List A
  take zero _ = []
  take (suc n) [] = []
  take (suc n) (x ∷ xs) = x ∷ take n xs

  pub length-append : (xs ys : List A) → length (xs ++ ys) ≡ length xs + length ys
  length-append [] ys = omega arith
  length-append (x ∷ xs) ys = omega (arith, length-append xs ys)

  -- The values `f i, f (i + 1), …`, `n` of them.
  abbrev pub slice : (ℕ → A) → ℕ → ℕ → List A
  slice f i zero = []
  slice f i (suc n) = f i ∷ slice f (i + 1) n

  pub length-slice : (f : ℕ → A) (i n : ℕ) → length (slice f i n) ≡ n
  length-slice f i zero = refl
  length-slice f i (suc n) = ap suc (length-slice f (i + 1) n)

  -- A window one longer ends in the value behind it.
  pub slice-suc : (f : ℕ → A) (i n : ℕ) → slice f i (suc n) ≡ slice f i n ++ (f (i + n) ∷ [])
  slice-suc f i zero = ap (λ j. f j ∷ []) (omega arith)
  slice-suc f i (suc n) =
      ap (◌∷◌ (f i))
        (slice-suc f (i + 1) n ∙ ap (λ j. slice f (i + 1) n ++ (f j ∷ [])) (omega arith))

  pub slice-append : (f : ℕ → A) (i n m : ℕ) → slice f i (n + m) ≡ slice f i n ++ slice f (i + n) m
  slice-append f i zero m =
      ap (slice f i) {x = 0 + m} {y = m} (omega arith)
      ∙ ap (λ j. slice f j m) {x = i} {y = i + 0} (omega arith)
  slice-append f i (suc n) m =
      ap (slice f i) {x = suc n + m} {y = suc (n + m)} (omega arith)
      ∙ ap (◌∷◌ (f i))
          (slice-append f (i + 1) n m ∙ ap (λ j. slice f (i + 1) n ++ slice f j m) (omega arith))

  -- Two windows with the same values are the same list.
  pub slice_move :
      (f : ℕ → A) (i j n : ℕ)
      → ((k : ℕ) → k < n → f (i + k) ≡ f (j + k))
      → slice f i n ≡ slice f j n
  slice_move f i j zero h = refl
  slice_move f i j (suc n) h =
      ap₂ ◌∷◌ (ap f (omega arith) ∙ h 0 (omega arith) ∙ ap f (omega arith)) (
        slice_move f (i + 1) (j + 1) n
          (λ k lt. ap f (omega arith) ∙ h (k + 1) (omega arith) ∙ ap f (omega arith)))
