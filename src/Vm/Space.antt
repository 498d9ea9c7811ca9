-- ===== src/Vm/Space.antt =====
-- User address spaces: the functions of kernel/vm.c that grow, shrink, copy and free them.
use xv6_riscv_cs.Base.{
  Bool, bit_and, bit_or, false, if◌then◌else◌, leb, ltb, not, some, suc, true, zero, ℕ, ◌%◌, ◌&&◌,
  ◌*◌, ◌+◌, ◌-◌, ◌/◌, ◌==◌, ◌^◌,
}
use xv6_riscv_cs.Vm.Machine.{
  Run, change_proc, copy_page, fill_page, give, load, panic, store, ◌>>=◌, ◌>>◌,
}
use xv6_riscv_cs.Vm.Table.{
  clear, has_flag, ismapped, mappages, no_page, pa2pte, pg_round_down, pg_round_up, pgsize, pte2pa,
  pte_flags, pte_r, pte_s, pte_u, pte_v, pte_w, walk,
}
use xv6_riscv_cs.Vm.Frames.{kfree, evict_page, frame_of, kalloc, set_frame}
use xv6_riscv_cs.Vm.Swap.{free_swap_index, get_swap_addr}
use xv6_riscv_cs.Proc.{levels}

abbrev pub drop_slot : ℕ → Run (Unit {0})
drop_slot i m = some (tt, record m { swap_mask = free_swap_index i m.swap_mask })

-- One round of the loop of `uvmunmap`.
unfoldable pub unmap_page : ℕ → ℕ → Bool → Run (Unit {0})
unfolding walk kfree has_flag
unmap_page pagetable a do_free = do
  at ← walk no_page pagetable a
  if at == 0 then give tt else do
    pte ← load at
    if not (has_flag pte_v pte)
        then (if has_flag pte_s pte then (do drop_slot (pte / 1024); store at 0) else give tt)
        else (do (if do_free then kfree (pte2pa pte) else give tt); store at 0)

unfoldable pub unmap_loop : ℕ → ℕ → ℕ → Bool → Run (Unit {0})
unfolding unmap_page
unmap_loop zero pagetable a do_free = give tt
unmap_loop (suc n) pagetable a do_free = do
  unmap_page pagetable a do_free
  unmap_loop n pagetable (a + pgsize) do_free

unfoldable pub uvmunmap : ℕ → ℕ → ℕ → Bool → Run (Unit {0})
unfolding unmap_loop
uvmunmap pagetable va npages do_free =
    if not (va % pgsize == 0) then panic else unmap_loop npages pagetable va do_free

unfoldable pub uvmcreate : Run ℕ
unfolding kalloc
uvmcreate = do
  pagetable ← kalloc
  if pagetable == 0 then give 0 else do fill_page pagetable 0; give pagetable

unfoldable pub uvmdealloc : ℕ → ℕ → ℕ → Run ℕ
unfolding uvmunmap
uvmdealloc pagetable oldsz newsz =
    if leb oldsz newsz
    then give oldsz
    else if ltb (pg_round_up newsz) (pg_round_up oldsz)
    then (do
      uvmunmap pagetable (pg_round_up newsz) ((pg_round_up oldsz - pg_round_up newsz) / pgsize) true
      give newsz)
    else give newsz

-- `kalloc`, and `evict_page` where it returns 0.
unfoldable pub kalloc_or_evict : Run ℕ
unfolding kalloc
kalloc_or_evict = do mem ← kalloc; if mem == 0 then evict_page else give mem

-- The page `mem` belongs to process `p`, at its address `va`.
abbrev pub own_frame : ℕ → ℕ → ℕ → Run (Unit {0})
own_frame mem p va = do
  set_frame (frame_of mem) (record { is_used = 1; p = p; va = va; rb = 1 })
  change_proc p (λ v. record v { resident_pages = (v.resident_pages + 1) % 2 ^ 32 })

-- The loop of `uvmalloc` for `n` pages from `a` on. It returns whether the call succeeds.
unfoldable pub grow_loop : ℕ → ℕ → ℕ → ℕ → ℕ → Run Bool
unfolding kalloc_or_evict mappages uvmdealloc
grow_loop zero pagetable oldsz a xperm = give true
grow_loop (suc n) pagetable oldsz a xperm = do
  mem ← kalloc_or_evict
  if mem == 0 then (do _ ← uvmdealloc pagetable a oldsz; give false) else do
    fill_page mem 0
    mapped ← mappages kalloc pagetable a pgsize mem (bit_or (bit_or pte_r pte_u) xperm)
    if not mapped
        then (do kfree mem; _ ← uvmdealloc pagetable a oldsz; give false)
        else do (λ m. own_frame mem m.me a m); grow_loop n pagetable oldsz (a + pgsize) xperm

unfoldable pub uvmalloc : ℕ → ℕ → ℕ → ℕ → Run ℕ
unfolding grow_loop
uvmalloc pagetable oldsz newsz xperm = if ltb newsz oldsz then give oldsz else do
  let start = pg_round_up oldsz
  grown ← grow_loop ((pg_round_up newsz - start) / pgsize) pagetable start start xperm
  give (if grown then newsz else 0)

-- The loop of `freewalk` over `n` entries from `i` on; `free_lower` frees a free_lower table.
unfoldable pub free_entries : (ℕ → Run (Unit {0})) → ℕ → ℕ → ℕ → Run (Unit {0})
unfolding has_flag
free_entries free_lower zero i t = give tt
free_entries free_lower (suc n) i t = do
  pte ← load (t + 8 * i)
  (if has_flag pte_v pte && (bit_and pte 14 == 0)
      then (do free_lower (pte2pa pte); store (t + 8 * i) 0)
      else if has_flag pte_v pte
      then panic
      else give tt)
  free_entries free_lower n (i + 1) t

-- `freewalk` of a table with at most `levels` levels of tables; a process's table has three.
unfoldable pub freewalk : ℕ → ℕ → Run (Unit {0})
unfolding free_entries kfree
freewalk zero t = panic
freewalk (suc levels) t = do free_entries (freewalk levels) 512 0 t; kfree t

unfoldable pub uvmfree : ℕ → ℕ → Run (Unit {0})
unfolding uvmunmap freewalk
uvmfree pagetable sz = do
  (if sz == 0 then give tt else uvmunmap pagetable 0 (pg_round_up sz / pgsize) true)
  freewalk 3 pagetable

-- What `uvmcopy` does with one page of the parent: `from` holds its contents. It returns whether
-- the page was copied.
unfoldable pub copy_one : ℕ → ℕ → ℕ → ℕ → (Run (Unit {0}) → ℕ → Run Bool)
copy_one new i np flags = λ copy mem. do
  copy
  mapped ← mappages kalloc new i pgsize mem flags
  if not mapped then (do kfree mem; give false) else do own_frame mem np i; give true

-- One round of the loop of `uvmcopy`.
unfoldable pub copy_page_of : ℕ → ℕ → ℕ → ℕ → Run Bool
unfolding copy_one walk kalloc_or_evict has_flag
copy_page_of old new np i = do
  at ← walk no_page old i
  if at == 0 then give true else do
    pte ← load at
    if has_flag pte_v pte
        then (do
          mem ← kalloc_or_evict
          if mem == 0
              then give false
              else copy_one new i np (pte_flags pte) (copy_page mem (pte2pa pte)) mem)
        else if has_flag pte_s pte
        then (do
          mem ← kalloc_or_evict
          if mem == 0
              then give false
              else copy_one new i np (bit_or (clear pte_s (pte_flags pte)) pte_v)
                  (copy_page mem (get_swap_addr (pte / 1024))) mem)
        else give true

unfoldable pub copy_loop : ℕ → ℕ → ℕ → ℕ → ℕ → Run Bool
unfolding copy_page_of uvmunmap
copy_loop zero old new np i = give true
copy_loop (suc n) old new np i = do
  done ← copy_page_of old new np i
  if done
      then copy_loop n old new np (i + pgsize)
      else do uvmunmap new 0 (i / pgsize) true; give false

-- `uvmcopy`: whether it returns 0.
unfoldable pub uvmcopy : ℕ → ℕ → ℕ → ℕ → Run Bool
unfolding copy_loop
uvmcopy old new sz np = copy_loop (pg_round_up sz / pgsize) old new np 0

-- The branch of `vmfault` for a page in the swap area; `at` is its entry.
unfoldable pub swap_in : ℕ → ℕ → ℕ → Run ℕ
unfolding kalloc_or_evict get_swap_addr pa2pte clear pte_flags
swap_in va at index = do
  mem ← kalloc_or_evict
  copy_page mem (get_swap_addr index)
  if mem == 0 then panic else do
    drop_slot index
    pte ← load at
    store at (bit_or (bit_or (pa2pte mem) (clear pte_s (pte_flags pte))) pte_v)
    (λ m. change_proc m.me (λ v. record v { pages_swapped_in = v.pages_swapped_in + 1 }) m)
    (λ m. own_frame mem m.me va m)
    give mem

-- The branch of `vmfault` for a page that was never there.
unfoldable pub page_in : ℕ → Run ℕ
unfolding kalloc_or_evict mappages
page_in va = do
  mem ← kalloc_or_evict
  if mem == 0 then panic else do
    fill_page mem 0
    pagetable ← (λ m. some ((m.kernel.proc m.me).pagetable, m))
    (λ m. change_proc m.me (λ v. record v { resident_pages = (v.resident_pages + 1) % 2 ^ 32 }) m)
    mapped ← mappages kalloc pagetable va pgsize mem (bit_or (bit_or pte_w pte_u) pte_r)
    if not mapped then (do kfree mem; give 0) else do
      (λ m. set_frame (frame_of mem) (record { is_used = 1; p = m.me; va = va; rb = 1 }) m)
      give mem

-- `vmfault`. The panics that look for an entry equal to 0 behind a store to it have no model.
unfoldable pub vmfault : ℕ → ℕ → Run ℕ
unfolding walk swap_in page_in ismapped has_flag
vmfault pagetable va = do
  (λ m. change_proc m.me (λ v. record v { page_faults = v.page_faults + 1 }) m)
  sz ← (λ m. some ((m.kernel.proc m.me).sz, m))
  if leb sz va then give 0 else do
    at ← walk kalloc pagetable (pg_round_down va)
    if at == 0 then panic else do
      pte ← load at
      if has_flag pte_s pte then swap_in (pg_round_down va) at (pte / 1024) else do
        mapped ← ismapped pagetable (pg_round_down va)
        if mapped then give 0 else page_in (pg_round_down va)
