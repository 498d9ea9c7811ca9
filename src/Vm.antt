-- ===== src/Vm.antt =====
-- The frame table of kernel/vm.c.
pub mod Swap
pub mod Clock
pub mod Machine
pub mod Table
pub mod Frames
pub mod Space
pub mod Copy
pub mod Process
use xv6_riscv_cs.Base.{ℕ, ◌*◌, ◌/◌}

-- `struct frame`. `p` is a pointer into the process table, 0 for NULL.
pub record Frame : Type 0 where
  pub is_used : ℕ
  pub p : ℕ
  pub va : ℕ
  pub rb : ℕ

-- `struct frametable_t` without its lock.
pub record FrameTable : Type 0 where
  pub f : ℕ → Frame
  pub clock_p : ℕ

-- NFRAMES: the frames between KERNBASE and PHYSTOP, 2 MB of RAM.
abbrev pub nframes : ℕ
nframes = 2 * 1024 * 1024 / 4096
