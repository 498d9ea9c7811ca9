-- ===== src/Vm/Swap.antt =====
-- The swap slots of kernel/vm.c: `swap_mask` and the functions that use it.
pub mod Slots
use xv6_riscv_cs.Base.{Option, if◌then◌else◌, none, some, suc, update, zero, ℕ, ◌*◌, ◌+◌, ◌==◌}

-- MAX_SP of vm.c
abbrev pub max_sp : ℕ
max_sp = 4096

-- `sinit`: the loop from slot `i` on for `n` rounds.
unfoldable pub sinit_loop : ℕ → ℕ → (ℕ → ℕ) → ℕ → ℕ
sinit_loop zero i mask = mask
sinit_loop (suc n) i mask = sinit_loop n (i + 1) (update mask i 0)

unfoldable pub sinit : (ℕ → ℕ) → ℕ → ℕ
unfolding sinit_loop
sinit mask = sinit_loop max_sp 0 mask

-- `alloc_swap_index`: the mask after the call, and the slot, or `none` for -1.
unfoldable pub alloc_slot : ℕ → ℕ → (ℕ → ℕ) → (ℕ → ℕ) × Option ℕ
alloc_slot zero i mask = (mask, none)
alloc_slot (suc n) i mask =
    let rest = alloc_slot n (i + 1) mask in if mask i == 0 then (update mask i 1, some i) else rest

unfoldable pub alloc_swap_index : (ℕ → ℕ) → (ℕ → ℕ) × Option ℕ
alloc_swap_index mask = alloc_slot max_sp 0 mask

unfoldable pub free_swap_index : ℕ → (ℕ → ℕ) → ℕ → ℕ
free_swap_index index mask = update mask index 0

-- `get_swap_addr`: SWAP_BASE is PHYSTOP.
unfoldable pub get_swap_addr : ℕ → ℕ
get_swap_addr index = 0x80000000 + 2 * 1024 * 1024 + index * 4096
