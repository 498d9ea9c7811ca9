-- ===== src/Base/Update.antt =====
-- Tables as functions of an index, and the assignment to one entry.
use Prim.Native.Nat.{ℕ, zero, suc, ◌+◌, ◌≤◌, ◌<◌}
use mathlib.Core.Path.{◌≡◌, refl, ap₂, fun_ext}
use mathlib.Core.Logic.{◌≢◌}
use mathlib.Core.List.{◌∷◌}
use native.Mathlib.Omega.{arith}
use xv6_riscv_cs.Base.Tests.{◌==◌, if◌then◌else◌}
use xv6_riscv_cs.Base.Lists.{slice}

module _ {ℓ} {A : Type ℓ} where
  -- `t[i] = v`
  abbrev pub update : (ℕ → A) → ℕ → A → ℕ → A
  update t i v j = if i == j then v else t j

  pub update_self : (t : ℕ → A) (i : ℕ) (v : A) → update t i v i ≡ v
  update_self t i v = ground arith

  pub update_ne : (t : ℕ → A) (i j : ℕ) (v : A) → i ≢ j → update t i v j ≡ t j
  update_ne t i j v h = ground arith

  pub update_twice : (t : ℕ → A) (i : ℕ) (v w : A) → update (update t i v) i w ≡ update t i w
  update_twice t i v w = fun_ext (λ j. ground arith)

  pub slice_congr :
      (f g : ℕ → A) (i n : ℕ)
      → ((j : ℕ) → i ≤ j → j < i + n → f j ≡ g j)
      → slice f i n ≡ slice g i n
  slice_congr f g i zero h = refl
  slice_congr f g i (suc n) h =
      ap₂ ◌∷◌ (h i (omega arith) (omega arith))
        (slice_congr f g (i + 1) n (λ j a b. h j (omega arith) (omega arith)))
