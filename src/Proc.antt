-- ===== src/Proc.antt =====
-- The data of kernel/proc.h and the process table, run queues and clock of kernel/proc.c.
-- A `struct proc *` is a number: 0 is NULL, and i + 1 is `&proc[i]`, so that the loop
-- `for(p = proc; p < &proc[NPROC]; p++)` runs from 1 up to NPROC. Other pointers and channels are
-- numbers with 0 for NULL. The fields `context` and `lock` are left out: no function here reads
-- the saved registers, and each function is one critical section.
pub mod Alloc
pub mod Exit
pub mod Query
pub mod Queue
pub mod Wait
pub mod Sleep
pub mod Schedule
pub mod Tick
use xv6_riscv_cs.Base.{Bool, List, false, true, update, ℕ}

-- `enum procstate`
pub data State : Type 0 where
  unused used sleeping runnable running zombie : State

abbrev pub is_runnable : State → Bool
is_runnable runnable = true
is_runnable _ = false

abbrev pub is_sleeping : State → Bool
is_sleeping sleeping = true
is_sleeping _ = false

abbrev pub is_zombie : State → Bool
is_zombie zombie = true
is_zombie _ = false

abbrev pub is_unused : State → Bool
is_unused unused = true
is_unused _ = false

-- `struct proc`. Counters are unbounded; `xstate` and `resident_pages` are 32-bit patterns.
pub record Proc : Type 0 where
  pub state : State
  pub chan : ℕ
  pub killed : ℕ
  pub xstate : ℕ
  pub pid : ℕ
  pub sys_count : ℕ
  pub pticks : ℕ
  pub qticks : ℕ → ℕ
  pub tsched : ℕ
  pub d_sys_count : ℕ
  pub qlevel : ℕ
  pub parent : ℕ
  pub kstack : ℕ
  pub sz : ℕ
  pub pagetable : ℕ
  pub trapframe : ℕ
  pub ofile : ℕ → ℕ
  pub cwd : ℕ
  pub name : List ℕ
  pub page_faults : ℕ
  pub page_evicted : ℕ
  pub pages_swapped_in : ℕ
  pub pages_swapped_out : ℕ
  pub resident_pages : ℕ

-- `struct queue`
pub record RunQueue : Type 0 where
  pub qproc : ℕ → ℕ
  pub tail : ℕ

-- The globals of proc.c, `ticks` of trap.c, the static `last_mod128` of SC_MLFQ, and the field
-- `proc` of each `struct cpu`.
pub record Kernel : Type 0 where
  pub proc : ℕ → Proc
  pub pqueue : ℕ → RunQueue
  pub ticks_max : ℕ → ℕ
  pub initproc : ℕ
  pub nextpid : ℕ
  pub ticks : ℕ
  pub last_mod128 : ℕ
  pub cpu_proc : ℕ → ℕ

-- NPROC and LEVELS of param.h
abbrev pub nproc : ℕ
nproc = 64

abbrev pub levels : ℕ
levels = 4

-- `proc[p] = r`
unfoldable pub set_proc : ℕ → Proc → Kernel → Kernel
set_proc p r k = record k { proc = update k.proc p r }
