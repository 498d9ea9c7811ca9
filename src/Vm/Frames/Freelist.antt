-- ===== src/Vm/Frames/Freelist.antt =====
-- The free list of kernel/kalloc.c, linked through the first word of each free page.
use xv6_riscv_cs.Base.{
  Bool, Bool-cases, arith, false, inl, inr, refl, some, suc, true, update, zero, ℕ, ◌%◌, ◌<◌, ◌==◌,
  ◌^◌, ◌≡◌, ◌≢◌,
}
use xv6_riscv_cs.Vm.Machine.{Machine, filled}
use xv6_riscv_cs.Vm.Frames.{kalloc}

-- The list from `h` on has `n` pages or more. They are no tables, and differ from one another.
abbrev pub FreePages : ℕ → (ℕ → ℕ) → ℕ → (ℕ → Bool) → Type 0
FreePages zero word h used = Unit {0}
FreePages (suc n) word h used =
    (h ≢ 0)
    × (h % 4096 ≡ 0)
    × (h < 2 ^ 56)
    × (used h ≡ false)
    × FreePages n word (word h) (update used h true)

-- The list does not depend on the words of other pages.
pub FreePages-congr :
    (n : ℕ) (word word' : ℕ → ℕ) (h : ℕ) (used : ℕ → Bool)
    → ((q : ℕ) → q % 4096 ≡ 0 → used q ≡ false → word' q ≡ word q)
    → FreePages n word h used
    → FreePages n word' h used
FreePages-congr zero word word' h used same free = tt
FreePages-congr (suc n) word word' h used same (not_null, aligned, low, no_table, rest) = (
  not_null,
  aligned,
  low,
  no_table,
  rw (same h aligned no_table) (
      FreePages-congr n word word' (word h) (update used h true)
        (λ q a no. same q a (elim (Bool-cases (h == q)) [
          | inl here ↦ cc (rw here at no)
          | inr other ↦ rw other at no
        ]))
        rest),
)

pub FreePages-fewer :
    (n : ℕ) (word : ℕ → ℕ) (h : ℕ) (used : ℕ → Bool)
    → FreePages (suc n) word h used
    → FreePages n word h used
FreePages-fewer zero word h used free = tt
FreePages-fewer (suc n) word h used (not_null, aligned, low, no_table, rest) =
    (not_null, aligned, low, no_table, FreePages-fewer n word (word h) (update used h true) rest)

-- `kalloc` takes the first page of the list.
pub kalloc-freelist :
    (n : ℕ) (m : Machine) (used : ℕ → Bool)
    → FreePages (suc n) m.word m.freelist used
    → kalloc m
      ≡ some (
        m.freelist,
        record m {
          word = filled m.word m.freelist 0x0505_0505_0505_0505;
          freelist = m.word m.freelist;
        },
      )
unfolding kalloc
kalloc-freelist n m used (not_null, aligned, low, no_table, rest) =
    let some_page : (m.freelist == 0) ≡ false = ground arith in rw some_page refl
