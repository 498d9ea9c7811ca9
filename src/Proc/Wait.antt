-- ===== src/Proc/Wait.antt =====
-- `kwait` of kernel/proc.c, one round of its loop: the scan of the table, and what follows it.
-- `copyout` of the exit status to address `addr` is an argument: it returns the kernel after the
-- copy and whether the copy succeeded.
pub mod Reap
use xv6_riscv_cs.Base.{
  Bool, List, [], false, if◌then◌else◌, not, suc, true, zero, ℕ, ◌&&◌, ◌+◌, ◌==◌, ◌||◌,
}
use xv6_riscv_cs.Proc.{Kernel, is_zombie, nproc}
use xv6_riscv_cs.Proc.Alloc.{freeproc, Call}
use xv6_riscv_cs.Proc.Sleep.{sleep_enter}
use xv6_riscv_cs.Vm.Copy.{copyout}

-- How a round ends: a child is reaped, -1 is returned because the copy failed or because there is
-- nothing to wait for, or the process sleeps until the next round.
pub data Outcome : Type 0 where
  reaped : ℕ → Outcome
  fault : Outcome
  nobody : Outcome
  waits : Outcome

abbrev pub Copyout : Type 0
Copyout = ℕ → ℕ → Kernel → Kernel × Bool

-- The zombie `p` is found.
unfoldable pub reap : Copyout → ℕ → ℕ → Kernel → Kernel × Outcome × List Call
reap copyout addr p k =
    let pid = (k.proc p).pid in
    let (k', copied) = if addr == 0 then (k, true) else copyout addr (k.proc p).xstate k in
    let (k'', calls) = freeproc p k' in if copied then (k'', reaped pid, calls) else (k', fault, [])

-- Behind the scan, with `havekids`.
unfoldable pub wait_end : ℕ → Bool → Kernel → Kernel × Outcome × List Call
wait_end me havekids k =
    if not havekids || not ((k.proc me).killed == 0)
    then (k, nobody, [])
    else (sleep_enter me me k, waits, [])

-- The scan, from process `p` on for `n` rounds.
unfoldable pub wait_scan : ℕ → ℕ → Copyout → ℕ → ℕ → Bool → Kernel → Kernel × Outcome × List Call
wait_scan zero p copyout addr me havekids k = wait_end me havekids k
wait_scan (suc n) p copyout addr me havekids k =
    let child = (k.proc p).parent == me in
    let rest = wait_scan n (p + 1) copyout addr me (havekids || child) k in
    if child && is_zombie (k.proc p).state then reap copyout addr p k else rest

unfoldable pub kwait_round : Copyout → ℕ → ℕ → Kernel → Kernel × Outcome × List Call
kwait_round copyout addr me k = wait_scan nproc 1 copyout addr me false k
