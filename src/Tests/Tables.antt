-- ===== src/Tests/Tables.antt =====
-- The theorems of the page tables at an empty root table and a short free list.
use xv6_riscv_cs.Base.{
  ==_iff, Option, ap, arith, false≢true, if◌then◌else◌, none, refl, some, sym, true, ℕ, ◌*◌, ◌+◌,
  ◌<◌, ◌==◌, ◌∙◌, ◌≡◌,
}
use xv6_riscv_cs.Vm.Frames.Freelist.{FreePages}
use xv6_riscv_cs.Vm.Table.Shape.{IsForest, IsRoot, Layout, leaf, px-lt, space}
use xv6_riscv_cs.Vm.Table.Store.{IsRemapped}
use xv6_riscv_cs.Vm.Table.Map.{mappages-IsRemapped, mapped_range}
use xv6_riscv_cs.Vm.Machine.{Machine, ◌>>=◌}
use xv6_riscv_cs.Vm.Table.{has_flag, mappages, pte_v, px, walk, walkaddr, map_loop}
use xv6_riscv_cs.Vm.Frames.{kalloc}
use xv6_riscv_cs.Tests.Samples.{kernel}
use xv6_riscv_cs.Vm.Table.Walk.{null-has_flag}

abbrev root : ℕ
root = 0x8000_1000

abbrev table_memory : ℕ → ℕ
table_memory a =
    if a == 0x8000_2000 then 0x8000_3000 else if a == 0x8000_3000 then 0x8000_4000 else 0

abbrev empty_tables : Machine
empty_tables = record {
  word = table_memory;
  freelist = 0x8000_2000;
  kernel_end = 0x8000_1000;
  kernel = kernel;
  frametable = record { f = λ i. record { is_used = 0; p = 0; va = 0; rb = 0 }; clock_p = 0 };
  swap_mask = λ i. 0;
  me = 1;
}

abbrev one_root : Layout
one_root = record { is_table = λ t. t == root; level = λ t. 2; range = λ t. 0; owner = λ t. root }

root_entry-null : (t i : ℕ) → (t == root) ≡ true → i < 512 → table_memory (t + 8 * i) ≡ 0
root_entry-null t i e lt = ground arith

one_root-IsForest : IsForest table_memory one_root
one_root-IsForest = record {
  aligned = λ t e. omega (arith, (==_iff t root).0 e);
  not_null = λ t e. omega (arith, (==_iff t root).0 e);
  low = λ t e. omega arith;
  next_level = λ t i e lt upper valid. absurd (
      false≢true
        (sym null-has_flag ∙ ap (has_flag pte_v) (sym (root_entry-null t i e lt)) ∙ valid));
}

one_root-IsRoot : IsRoot one_root root
one_root-IsRoot = record { is_table = refl; level = refl; range = refl; owner = refl }

two_free : FreePages 2 table_memory 0x8000_2000 one_root.is_table
two_free = (omega arith, refl, omega arith, refl, (omega arith, refl, omega arith, refl, tt))

empty_space : (a : ℕ) → space table_memory root a ≡ 0
unfolding leaf
empty_space a = rw (root_entry-null root (px 2 a) refl (px-lt 2 a), null-has_flag) refl

mappages-IsRemapped_example :
    (m' : Machine) × (l' : Layout) × (mappages kalloc root 0x2000
        (1 * 4096)
        0x8010_0000
        22
        empty_tables
      ≡ some (true, m'))
    × IsRemapped 0 root (mapped_range 1 0x2000 0x8010_0000 22) empty_tables one_root m' l'
mappages-IsRemapped_example =
    mappages-IsRemapped 0 0 root 0x2000 0x8010_0000 22 empty_tables one_root one_root-IsForest
      one_root-IsRoot refl (omega arith) two_free
      (λ a low high. ap (has_flag pte_v) (empty_space a) ∙ null-has_flag)

-- Mapping a page and looking it up.
looked_up : Option (ℕ × Machine) → ℕ
looked_up none = 0
looked_up (some (a, m)) = a

map_and_look_up :
    looked_up (
      (do mapped ← mappages kalloc root 0x2000 0x1000 0x8010_0000 22; walkaddr root 0x2000)
        empty_tables)
    ≡ 0x8010_0000
unfolding mappages map_loop walkaddr walk kalloc looked_up px
map_and_look_up = refl
