-- ===== src/Proc/Exit.antt =====
-- `reparent` and `kexit` of kernel/proc.c. `kexit` is modelled up to `sched`; `none` is its panic.
pub mod Orphans
use xv6_riscv_cs.Base.{
  List, Option, [], if◌then◌else◌, none, some, suc, update, zero, ℕ, ◌++◌, ◌+◌, ◌==◌, ◌∷◌,
}
use xv6_riscv_cs.Proc.{Proc, State, Kernel, nproc, set_proc}
use xv6_riscv_cs.Proc.Sleep.{wakeup}
use xv6_riscv_cs.Proc.Alloc.{Call, fileclose, begin_op, iput, end_op}

-- The body of the loop of `reparent`. The caller is process `p` itself.
unfoldable pub reparent_one : ℕ → ℕ → Kernel → Kernel
unfolding set_proc
reparent_one p q k =
    if (k.proc q).parent == p
    then wakeup k.initproc p (set_proc q (record (k.proc q) { parent = k.initproc }) k)
    else k

unfoldable pub reparent_loop : ℕ → ℕ → ℕ → Kernel → Kernel
reparent_loop zero q p k = k
reparent_loop (suc n) q p k = reparent_loop n (q + 1) p (reparent_one p q k)

unfoldable pub reparent : ℕ → Kernel → Kernel
reparent p k = reparent_loop nproc 1 p k

-- NOFILE of param.h
abbrev pub nofile : ℕ
nofile = 16

-- The loop of `kexit` over the open files, from descriptor `fd` on for `n` rounds.
unfoldable pub close_files : ℕ → ℕ → (ℕ → ℕ) → (ℕ → ℕ) × List Call
close_files zero fd ofile = (ofile, [])
close_files (suc n) fd ofile =
    let (ofile', calls) =
      close_files n (fd + 1) (if ofile fd == 0 then ofile else update ofile fd 0) in
    (ofile', if ofile fd == 0 then calls else fileclose (ofile fd) ∷ calls)

-- The process that exits, with its files closed and its directory released.
unfoldable pub release_files : Proc → Proc × List Call
release_files r =
    let (ofile, calls) = close_files nofile 0 r.ofile in
    (record r { ofile = ofile; cwd = 0 }, calls ++ (begin_op ∷ iput r.cwd ∷ end_op ∷ []))

-- The last writes of `kexit` to the process.
unfoldable pub become_zombie : ℕ → ℕ → Kernel → Kernel
unfolding set_proc
become_zombie status p k =
    set_proc p (record (k.proc p) { xstate = status; state = State.zombie }) k

-- Orphans go to init, and the parent is woken.
unfoldable pub leave_family : ℕ → Kernel → Kernel
leave_family p k = let orphaned = reparent p k in wakeup (orphaned.proc p).parent p orphaned

unfoldable pub kexit : ℕ → ℕ → Kernel → Option (Kernel × List Call)
unfolding set_proc
kexit status p k =
    let (r, calls) = release_files (k.proc p) in
    if p == k.initproc
    then none
    else some (become_zombie status p (leave_family p (set_proc p r k)), calls)
