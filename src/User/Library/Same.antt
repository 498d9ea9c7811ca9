-- ===== src/User/Library/Same.antt =====
-- `memmove` of user/ulib.c and of kernel/string.c.
use xv6_riscv_cs.Base.{
  Bool-cases, ap, arith, inl, inr, leb, ltb, sym, ℕ, ◌&&◌, ◌+◌, ◌-◌, ◌<◌, ◌∙◌, ◌≡◌, ◌≤◌, ◌⊎◌,
}
use xv6_riscv_cs.Strings.Areas.{
  IsMoved, memmove-IsMoved, up_inside, up_outside, down_inside, down_outside,
}
use xv6_riscv_cs.User.Library.{memmove}
use xv6_riscv_cs.Strings.{memmove as kernel_memmove}

user_memmove-IsMoved : (dst src n : ℕ) (mem : ℕ → ℕ) → IsMoved dst src n mem (memmove dst src n mem)
unfolding memmove
user_memmove-IsMoved dst src n mem = elim (Bool-cases (ltb dst src)) [
  | inl ahead ↦ rw ahead (record {
    inside = λ k lt. up_inside n dst src mem k (inl (ground (arith, ahead))) lt;
    outside = λ a far. up_outside n dst src mem a far;
  })
  | inr behind_it ↦ rw behind_it (record {
    inside = λ k lt. down_inside n dst src mem k (ground (arith, behind_it)) lt;
    outside = λ a far. down_outside n dst src mem a far;
  })
]

IsMoved-same :
    (dst src n : ℕ) (mem m m' : ℕ → ℕ)
    → IsMoved dst src n mem m
    → IsMoved dst src n mem m'
    → (a : ℕ) → m a ≡ m' a
IsMoved-same dst src n mem m m' h h' a = elim (Bool-cases (leb dst a && ltb a (dst + n))) [
  | inl within ↦
      let k = a - dst in
      let lt : k < n = ground (arith, within) in
      let place : dst + k ≡ a = ground (arith, within) in
      sym (ap m place) ∙ h.inside k lt ∙ sym (h'.inside k lt) ∙ ap m' place
  | inr off ↦
      let far : (a < dst) ⊎ (dst + n ≤ a) = elim (Bool-cases (leb dst a)) [
        | inl low ↦ inr (ground arith)
        | inr high ↦ inl (ground arith)
      ] in
      h.outside a far ∙ sym (h'.outside a far)
]

-- The two versions of `memmove`, which choose the direction of the copy by different tests, leave the
-- same memory.
pub memmove-memmove :
    (dst src n : ℕ) (mem : ℕ → ℕ) (a : ℕ) → memmove dst src n mem a ≡ kernel_memmove dst src n mem a
memmove-memmove dst src n mem a =
    IsMoved-same dst src n mem (memmove dst src n mem) (kernel_memmove dst src n mem)
      (user_memmove-IsMoved dst src n mem) (memmove-IsMoved dst src n mem) a
