-- ===== src/Vm/Process.antt =====
-- The page tables of the kernel and of processes: `kvmmake` of kernel/vm.c, and `proc_mapstacks`,
-- `proc_pagetable`, `proc_freepagetable`, `growproc`, `either_copyout` and `either_copyin` of
-- kernel/proc.c. The addresses `etext` and `trampoline` of the linker are arguments.
use xv6_riscv_cs.Base.{
  Bool, bit_or, false, if◌then◌else◌, ltb, not, some, suc, true, zero, ℕ, ◌%◌, ◌*◌, ◌+◌, ◌-◌, ◌==◌,
  ◌^◌,
}
use xv6_riscv_cs.Vm.Machine.{Run, change_proc, fill_page, give, panic, ◌>>=◌, ◌>>◌}
use xv6_riscv_cs.Vm.Copy.{copyin, copyout, move_bytes}
use xv6_riscv_cs.Vm.Frames.{kalloc, kernbase, phystop}
use xv6_riscv_cs.Proc.Alloc.{kstack_of}
use xv6_riscv_cs.Vm.Table.{kvmmap, mappages, maxva, pgsize, pte_r, pte_w, pte_x}
use xv6_riscv_cs.Vm.Swap.{max_sp}
use xv6_riscv_cs.Proc.{nproc}
use xv6_riscv_cs.Vm.Space.{uvmalloc, uvmcreate, uvmdealloc, uvmfree, uvmunmap}

-- TRAMPOLINE and TRAPFRAME
abbrev pub trampoline_va : ℕ
trampoline_va = maxva - 4096

abbrev pub trapframe_va : ℕ
trapframe_va = trampoline_va - 4096

-- The loop of `proc_mapstacks` over `n` processes from `p` on.
unfoldable pub mapstacks_loop : ℕ → ℕ → ℕ → Run (Unit {0})
unfolding kalloc kvmmap
mapstacks_loop zero p kpgtbl = give tt
mapstacks_loop (suc n) p kpgtbl = do
  pa ← kalloc
  if pa == 0 then panic else do
    kvmmap kalloc kpgtbl (kstack_of p) pa pgsize (bit_or pte_r pte_w)
    mapstacks_loop n (p + 1) kpgtbl

unfoldable pub proc_mapstacks : ℕ → Run (Unit {0})
unfolding mapstacks_loop
proc_mapstacks kpgtbl = mapstacks_loop nproc 1 kpgtbl

unfoldable pub kvmmake : ℕ → ℕ → Run ℕ
unfolding kalloc kvmmap proc_mapstacks
kvmmake etext trampoline = do
  kpgtbl ← kalloc
  fill_page kpgtbl 0
  kvmmap kalloc kpgtbl 0x1000_0000 0x1000_0000 pgsize (bit_or pte_r pte_w)
  kvmmap kalloc kpgtbl 0x1000_1000 0x1000_1000 pgsize (bit_or pte_r pte_w)
  kvmmap kalloc kpgtbl 0x0c00_0000 0x0c00_0000 0x400_0000 (bit_or pte_r pte_w)
  kvmmap kalloc kpgtbl kernbase kernbase (etext - kernbase) (bit_or pte_r pte_x)
  kvmmap kalloc kpgtbl etext etext (phystop - etext) (bit_or pte_r pte_w)
  kvmmap kalloc kpgtbl phystop phystop (max_sp * pgsize) (bit_or pte_r pte_w)
  kvmmap kalloc kpgtbl trampoline_va trampoline pgsize (bit_or pte_r pte_x)
  proc_mapstacks kpgtbl
  give kpgtbl

unfoldable pub proc_pagetable : ℕ → ℕ → Run ℕ
unfolding uvmcreate mappages uvmfree uvmunmap
proc_pagetable trampoline trapframe = do
  pagetable ← uvmcreate
  if pagetable == 0 then give 0 else do
    code ← mappages kalloc pagetable trampoline_va pgsize trampoline (bit_or pte_r pte_x)
    if not code then (do uvmfree pagetable 0; give 0) else do
      frame ← mappages kalloc pagetable trapframe_va pgsize trapframe (bit_or pte_r pte_w)
      if frame
          then give pagetable
          else do uvmunmap pagetable trampoline_va 1 false; uvmfree pagetable 0; give 0

unfoldable pub proc_freepagetable : ℕ → ℕ → Run (Unit {0})
unfolding uvmunmap uvmfree
proc_freepagetable pagetable sz = do
  uvmunmap pagetable trampoline_va 1 false
  uvmunmap pagetable trapframe_va 1 false
  uvmfree pagetable sz

abbrev set_size : ℕ → Run (Unit {0})
set_size sz m = change_proc m.me (λ p. record p { sz = sz }) m

-- `growproc` for a positive argument, whether it returns 0.
unfoldable pub growproc_up : ℕ → Run Bool
unfolding uvmalloc
growproc_up n = do
  p ← (λ m. some (m.kernel.proc m.me, m))
  if ltb trapframe_va (p.sz + n) then give false else do
    sz ← uvmalloc p.pagetable p.sz (p.sz + n) pte_w
    if sz == 0 then give false else do set_size sz; give true

-- `growproc` for the argument `-n`; the sum wraps around.
unfoldable pub growproc_down : ℕ → Run Bool
unfolding uvmdealloc
growproc_down n = do
  p ← (λ m. some (m.kernel.proc m.me, m))
  sz ← (if n == 0 then give p.sz else uvmdealloc p.pagetable p.sz ((p.sz + 2 ^ 64 - n) % 2 ^ 64))
  set_size sz
  give true

unfoldable pub either_copyout : Bool → ℕ → ℕ → ℕ → Run Bool
unfolding copyout move_bytes
either_copyout user_dst dst src len = do
  p ← (λ m. some (m.kernel.proc m.me, m))
  if user_dst then copyout p.pagetable dst src len else do move_bytes len dst src; give true

unfoldable pub either_copyin : ℕ → Bool → ℕ → ℕ → Run Bool
unfolding copyin move_bytes
either_copyin dst user_src src len = do
  p ← (λ m. some (m.kernel.proc m.me, m))
  if user_src then copyin p.pagetable dst src len else do move_bytes len dst src; give true
