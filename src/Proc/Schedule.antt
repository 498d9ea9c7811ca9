-- ===== src/Proc/Schedule.antt =====
-- One round of `SC_MLFQ` of kernel/proc.c: the periodic boost and the choice of a process.
pub mod Boost
pub mod Choice
use xv6_riscv_cs.Base.{
  Bool, Option, false, if◌then◌else◌, ltb, none, not, some, suc, true, update, zero, ℕ, ◌%◌, ◌&&◌,
  ◌+◌, ◌==◌,
}
use xv6_riscv_cs.Proc.{State, unused, zombie, sleeping, Kernel, is_runnable, levels, nproc}
use xv6_riscv_cs.Proc.Queue.{enqueue, pop_proc, reset_tails}

abbrev pub is_schedulable : State → Bool
is_schedulable unused = false
is_schedulable zombie = false
is_schedulable sleeping = false
is_schedulable _ = true

-- The condition under which the round begins with a boost.
unfoldable pub boost_due : ℕ → Kernel → Bool
boost_due cpu k =
    cpu == 0 && (ltb 0 k.ticks && (k.ticks % 128 == 0 && not (k.ticks == k.last_mod128)))

-- The body of the boost's loop over the process table.
unfoldable pub boost_one : ℕ → Kernel → Kernel
boost_one p k =
    let r = k.proc p in
    if is_schedulable r.state
    then record k {
      proc = update k.proc p (record r { qlevel = 0; pticks = 0; d_sys_count = r.sys_count });
      pqueue = update k.pqueue 0 (enqueue (k.pqueue 0) p);
    }
    else k

-- The loop itself, from process `p` on for `n` rounds.
unfoldable pub boost_procs : ℕ → ℕ → Kernel → Kernel
boost_procs zero p k = k
boost_procs (suc n) p k = boost_procs n (p + 1) (boost_one p k)

unfoldable pub boost : Kernel → Kernel
boost k =
    boost_procs nproc 1 (record k { last_mod128 = k.ticks; pqueue = reset_tails levels 0 k.pqueue })

-- The chosen process runs: what happens up to `swtch`.
unfoldable pub dispatch : ℕ → ℕ → Kernel → Kernel
dispatch cpu p k =
    let r = k.proc p in
    record k {
      proc = update k.proc p (record r { state = State.running; tsched = r.tsched + 1 });
      cpu_proc = update k.cpu_proc cpu p;
    }

-- `q->tail > 0` and the process at the front is runnable.
unfoldable pub runnable_head : ℕ → Kernel → Bool
runnable_head l k = let q = k.pqueue l in ltb 0 q.tail && is_runnable (k.proc (q.qproc 0)).state

-- A queue that is not empty loses the process at its front.
unfoldable pub pop_head : ℕ → Kernel → Kernel
pop_head i k = if ltb 0 (k.pqueue i).tail then pop_proc i k else k

-- The loop over the levels, from level `i` on for `n` rounds, up to `swtch`: the process that is
-- switched to, if one is found. Whatever stands at the front of a queue is removed.
unfoldable pub pick : ℕ → ℕ → ℕ → Kernel → Kernel × Option ℕ
pick cpu zero i k = (k, none)
pick cpu (suc n) i k =
    let p = (k.pqueue i).qproc 0 in
    let rest = pick cpu n (i + 1) (pop_head i k) in
    if runnable_head i k then (dispatch cpu p (pop_head i k), some p) else rest

-- A round up to `swtch`. No process is on the processor when a round begins.
unfoldable pub round : ℕ → Kernel → Kernel × Option ℕ
unfolding boost_due
round cpu k = pick cpu levels 0 (
    let idle = record k { cpu_proc = update k.cpu_proc cpu 0 } in
    if boost_due cpu k then boost idle else idle)
