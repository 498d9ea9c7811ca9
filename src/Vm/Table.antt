-- ===== src/Vm/Table.antt =====
-- The page tables of kernel/vm.c: Sv39 tables of three levels in the words of the memory. Where
-- the C code returns a pointer, 0 is NULL. Addresses of table entries stay below 2 ^ 64.
pub mod Shape
pub mod Walk
pub mod Extend
pub mod Grow
pub mod Store
pub mod Map
use xv6_riscv_cs.Base.{
  Bool, bit_and, bit_or, false, if◌then◌else◌, leb, not, suc, true, zero, ℕ, ◌%◌, ◌*◌, ◌+◌, ◌-◌,
  ◌/◌, ◌==◌, ◌^◌,
}
use xv6_riscv_cs.Vm.Machine.{Run, fill_page, give, load, panic, store, ◌>>=◌, ◌>>◌}

-- PGSIZE and the flags of a page table entry, kernel/riscv.h
abbrev pub pgsize : ℕ
pgsize = 4096

abbrev pub pte_v : ℕ
pte_v = 1

abbrev pub pte_r : ℕ
pte_r = 2

abbrev pub pte_w : ℕ
pte_w = 4

abbrev pub pte_x : ℕ
pte_x = 8

abbrev pub pte_u : ℕ
pte_u = 16

abbrev pub pte_s : ℕ
pte_s = 256

-- `pte & flag`, as a test.
unfoldable pub has_flag : ℕ → ℕ → Bool
has_flag flag pte = not (bit_and pte flag == 0)

-- `x & ~flag` of a 64-bit word.
unfoldable pub clear : ℕ → ℕ → ℕ
clear flag x = bit_and x (2 ^ 64 - 1 - flag)

unfoldable pub pa2pte : ℕ → ℕ
pa2pte pa = pa / 4096 * 1024

unfoldable pub pte2pa : ℕ → ℕ
pte2pa pte = pte / 1024 * 4096 % 2 ^ 64

unfoldable pub pte_flags : ℕ → ℕ
pte_flags pte = pte % 1024

-- `va >> PXSHIFT(level)`
unfoldable pub prefix : ℕ → ℕ → ℕ
prefix level va = va / 2 ^ (12 + 9 * level)

unfoldable pub px : ℕ → ℕ → ℕ
unfolding prefix
px level va = prefix level va % 512

unfoldable pub pg_round_up : ℕ → ℕ
pg_round_up sz = (sz + 4095) / 4096 * 4096

unfoldable pub pg_round_down : ℕ → ℕ
pg_round_down a = a / 4096 * 4096

abbrev pub maxva : ℕ
maxva = 2 ^ 38

-- The entry of table `t` for `va`: `&pagetable[PX(level, va)]`.
abbrev pub entry : ℕ → ℕ → ℕ → ℕ
entry t level va = t + 8 * px level va

-- The loop of `walk` from a level down to level 0. `alloc` stands for `kalloc` where the argument
-- `alloc` is set; where it is not, no page comes, as after a failure of `kalloc`.
unfoldable pub walk_down : Run ℕ → ℕ → ℕ → ℕ → Run ℕ
unfolding has_flag pa2pte pte2pa
walk_down alloc zero t va = give (entry t 0 va)
walk_down alloc (suc level) t va = do
  pte ← load (entry t (suc level) va)
  if has_flag pte_v pte then walk_down alloc level (pte2pa pte) va else (do
    page ← alloc
    if page == 0 then give 0 else (do
      fill_page page 0
      store (entry t (suc level) va) (bit_or (pa2pte page) pte_v)
      walk_down alloc level page va))

unfoldable pub walk : Run ℕ → ℕ → ℕ → Run ℕ
unfolding walk_down
walk alloc pagetable va = if leb maxva va then panic else walk_down alloc 2 pagetable va

-- `walk` with `alloc` 0.
abbrev pub no_page : Run ℕ
no_page = give 0

unfoldable pub walkaddr : ℕ → ℕ → Run ℕ
walkaddr pagetable va = if leb maxva va then give 0 else do
  a ← walk no_page pagetable va
  if a == 0 then give 0 else do
    pte ← load a
    if not (has_flag pte_v pte)
        then give 0
        else if not (has_flag pte_u pte)
        then give 0
        else give (pte2pa pte)

-- The loop of `mappages` over the pages from `a` to `last`, for at most `n` rounds. It returns
-- whether the call succeeds; `mappages` says why `n` is enough.
unfoldable pub map_loop : Run ℕ → ℕ → ℕ → ℕ → ℕ → ℕ → ℕ → Run Bool
map_loop alloc zero pagetable a last pa perm = panic
map_loop alloc (suc n) pagetable a last pa perm = do
  at ← walk alloc pagetable a
  if at == 0 then give false else do
    pte ← load at
    if has_flag pte_v pte then panic else do
      store at (bit_or (bit_or (pa2pte pa) perm) pte_v)
      if a == last
          then give true
          else map_loop alloc n pagetable (a + pgsize) last (pa + pgsize) perm

-- `mappages`. The loop takes `size / PGSIZE` rounds.
unfoldable pub mappages : Run ℕ → ℕ → ℕ → ℕ → ℕ → ℕ → Run Bool
mappages alloc pagetable va size pa perm =
    if not (va % pgsize == 0)
    then panic
    else if not (size % pgsize == 0)
    then panic
    else if size == 0
    then panic
    else map_loop alloc (size / pgsize) pagetable va (va + size - pgsize) pa perm

-- `kvmmap`
unfoldable pub kvmmap : Run ℕ → ℕ → ℕ → ℕ → ℕ → ℕ → Run (Unit {0})
unfolding mappages
kvmmap alloc kpgtbl va pa sz perm = do
  mapped ← mappages alloc kpgtbl va sz pa perm
  if mapped then give tt else panic

unfoldable pub ismapped : ℕ → ℕ → Run Bool
unfolding walk
ismapped pagetable va = do
  at ← walk no_page pagetable va
  if at == 0 then give false else do pte ← load at; give (has_flag pte_v pte)

unfoldable pub uvmclear : ℕ → ℕ → Run (Unit {0})
unfolding walk
uvmclear pagetable va = do
  at ← walk no_page pagetable va
  if at == 0 then panic else do pte ← load at; store at (clear pte_u pte)
