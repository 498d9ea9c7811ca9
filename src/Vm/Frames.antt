-- ===== src/Vm/Frames.antt =====
-- The physical pages: `kalloc` and `kfree` of kernel/kalloc.c, and `evict_page` of kernel/vm.c.
pub mod Freelist
use xv6_riscv_cs.Base.{
  bit_or, if◌then◌else◌, leb, ltb, none, not, some, suc, update, zero, ℕ, ◌%◌, ◌&&◌, ◌*◌, ◌+◌, ◌-◌,
  ◌/◌, ◌==◌, ◌^◌, ◌||◌,
}
use xv6_riscv_cs.Vm.{Frame, nframes}
use xv6_riscv_cs.Vm.Machine.{
  Run, change_proc, copy_page, fill_page, give, load, panic, store, ◌>>=◌, ◌>>◌,
}
use xv6_riscv_cs.Vm.Swap.{alloc_swap_index, get_swap_addr}
use xv6_riscv_cs.Vm.Table.{
  clear, no_page, pg_round_up, pte2pa, pte_flags, pte_s, pte_v, walk, has_flag,
}
use xv6_riscv_cs.Vm.Clock.{find_victim}

-- KERNBASE and PHYSTOP
abbrev pub kernbase : ℕ
kernbase = 0x8000_0000

abbrev pub phystop : ℕ
phystop = kernbase + 2 * 1024 * 1024

-- The index of a page in the frame table.
abbrev pub frame_of : ℕ → ℕ
frame_of pa = (pa - kernbase) / 4096

abbrev pub set_frame : ℕ → Frame → Run (Unit {0})
set_frame i v m =
    some (tt, record m { frametable = record m.frametable { f = update m.frametable.f i v } })

-- `kfree`: the junk bytes are 1.
unfoldable pub kfree : ℕ → Run (Unit {0})
kfree pa m =
    if not (pa % 4096 == 0) || ltb pa m.kernel_end || leb phystop pa
    then none
    else (do
      (if leb kernbase pa && ltb (frame_of pa) nframes
          then set_frame (frame_of pa) (record { is_used = 0; p = 0; va = 0; rb = 0 })
          else give tt)
      fill_page pa 0x0101_0101_0101_0101
      store pa m.freelist
      (λ m'. some (tt, record m' { freelist = pa })))
        m

-- The loop of `freerange` over `n` pages from `p` on.
unfoldable pub free_loop : ℕ → ℕ → Run (Unit {0})
unfolding kfree
free_loop zero p = give tt
free_loop (suc n) p = do kfree p; free_loop n (p + 4096)

unfoldable pub freerange : ℕ → ℕ → Run (Unit {0})
unfolding free_loop
freerange pa_start pa_end = let p = pg_round_up pa_start in free_loop ((pa_end - p) / 4096) p

unfoldable pub kinit : Run (Unit {0})
unfolding freerange
kinit m = freerange m.kernel_end phystop m

-- What `evict_page` does to the victim's page, with its slot `index` in the swap area.
unfoldable pub swap_out : ℕ → ℕ → ℕ → Run (Unit {0})
unfolding get_swap_addr pte2pa clear pte_flags
swap_out p at index = do
  pte ← load at
  copy_page (get_swap_addr index) (pte2pa pte)
  pte ← load at
  store at (bit_or (bit_or (index * 1024) (clear pte_v (pte_flags pte))) pte_s)
  change_proc p (λ v. record v {
    page_evicted = v.page_evicted + 1;
    pages_swapped_out = v.pages_swapped_out + 1;
    resident_pages = (v.resident_pages + 2 ^ 32 - 1) % 2 ^ 32;
  })

-- `alloc_swap_index`, and the panic of `evict_page` where it returns -1.
abbrev pub take_slot : Run ℕ
take_slot m =
    let (mask, slot) = alloc_swap_index m.swap_mask in
    elim slot [ none ↦ none | some i ↦ some (i, record m { swap_mask = mask }) ]

-- `evict_page`: the page that is free afterwards.
unfoldable pub evict_page : Run ℕ
unfolding find_victim walk swap_out alloc_swap_index
evict_page m =
    let found = find_victim m.me m.kernel m.frametable in
    elim found.to_evict [
      | none ↦ none
      | some i ↦
          let v = found.f i in
          (do
            at ← walk no_page (m.kernel.proc v.p).pagetable v.va
            if at == 0 then panic else do
              pte ← load at
              if not (has_flag pte_v pte) then panic else do
                index ← take_slot
                swap_out v.p at index
                set_frame i (record v { is_used = 0; p = 0 })
                give (pte2pa pte))
            (record m { frametable = record { f = found.f; clock_p = found.clock_p } })
    ]

-- `kalloc`: the junk bytes are 5.
unfoldable pub kalloc : Run ℕ
unfolding evict_page
kalloc m =
    (if m.freelist == 0 then evict_page else do
      next ← load m.freelist
      (λ m'. some (tt, record m' { freelist = next }))
      fill_page m.freelist 0x0505_0505_0505_0505
      give m.freelist)
      m
