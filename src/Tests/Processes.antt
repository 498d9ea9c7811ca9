-- ===== src/Tests/Processes.antt =====
-- The process table's theorems at the sample kernel.
use xv6_riscv_cs.Base.{Bool, List, [], arith, false, refl, some, suc, true, zero, ℕ, ◌∷◌, ◌≡◌, ◌≢◌}
use xv6_riscv_cs.Proc.{State, set_proc}
use xv6_riscv_cs.Proc.Sleep.Kill.{Absent, kkill-unqueued}
use xv6_riscv_cs.Proc.Wait.{Copyout, kwait_round, reap, wait_scan}
use xv6_riscv_cs.Proc.Exit.Orphans.{IsExited, kexit-IsExited}
use xv6_riscv_cs.Proc.Wait.Reap.{IsFirstZombie, kwait-reaped}
use xv6_riscv_cs.Proc.Exit.{become_zombie, kexit, leave_family, release_files}
use xv6_riscv_cs.Proc.Queue.{contents}
use xv6_riscv_cs.Proc.Alloc.{freeproc, allocproc}
use xv6_riscv_cs.Tests.Samples.{kernel, table}
use xv6_riscv_cs.Proc.Sleep.{kkill, kkill_loop, sleep_enter, wakeup}
use xv6_riscv_cs.Proc.Schedule.{pick}
use xv6_riscv_cs.Proc.Sleep.Wake.{push_all, wakeup-push_all, woken}
use xv6_riscv_cs.Proc.Queue.Fifo.{push_bounded}
use xv6_riscv_cs.Proc.Alloc.Pids.{HasUniquePids, allocproc-HasUniquePids}
use xv6_riscv_cs.Proc.Sleep.Handover.Lost.{sleep-wakeup}
use xv6_riscv_cs.Proc.Sleep.Handover.Woken.{IsWoken}
use xv6_riscv_cs.Proc.Sleep.Handover.{
  asleep, Shared, at_acquire, outside, run_steps, sleep_step, wake_step, Config,
}

wakeup-push_all_example : contents ((wakeup 2 3 kernel).pqueue 0) ≡ 2 ∷ []
unfolding push_all woken push_bounded
wakeup-push_all_example = wakeup-push_all 2 3 0 kernel

-- The shell is killed in its sleep.
kkill-unqueued_example :
    (((kkill 2 kernel).0.proc 2).state ≡ State.runnable)
    × ((l : ℕ) → Absent 2 (contents ((kkill 2 kernel).0.pqueue l)))
    × ((pick 0 4 0 (kkill 2 kernel).0).1 ≢ some 2)
unfolding kkill kkill_loop
kkill-unqueued_example = kkill-unqueued 2 2 0 kernel refl refl absent
  where
    absent : (l : ℕ) → Absent 2 (contents (kernel.pqueue l))
    absent zero = tt
    absent (suc zero) = omega arith
    absent (suc (suc l)) = ground arith

kexit-IsExited_example :
    IsExited 9 2 kernel
      (become_zombie 9 2 (leave_family 2 (set_proc 2 (release_files (kernel.proc 2)).0 kernel)))
      (release_files (kernel.proc 2)).1
unfolding kexit
kexit-IsExited_example = kexit-IsExited 9 2 kernel _ (release_files (kernel.proc 2)).1 refl

-- A copy to user memory that always succeeds.
abbrev copies : Copyout
copies addr status k = (k, true)

kwait-reaped_example :
    (p : ℕ) × IsFirstZombie 1 kernel 1 65 p
    × (4 ≡ (table p).pid)
    × (((kwait_round copies 0 1 kernel).0.proc p).state ≡ State.unused)
unfolding kwait_round wait_scan reap freeproc
kwait-reaped_example = kwait-reaped copies 0 1 kernel 4 refl

kernel-HasUniquePids : HasUniquePids kernel
kernel-HasUniquePids = record {
  below = λ p live. ground arith;
  distinct = λ p q live live' e. ground arith;
}

allocproc-HasUniquePids_example : HasUniquePids (allocproc 0x87000000 0x87001000 kernel).0
allocproc-HasUniquePids_example =
    allocproc-HasUniquePids 0x87000000 0x87001000 kernel kernel-HasUniquePids (omega arith)

-- Process 1 goes to sleep on channel 9 while process 3 waits for its lock.
abbrev sleeping_soon : Shared
sleeping_soon = record { kernel = kernel; lk = 1; plock = λ p. 0 }

abbrev repeated : ℕ → Bool → List Bool → List Bool
repeated zero b order = order
repeated (suc n) b order = b ∷ repeated n b order

-- The steps of the two are taken in turns until both are done.
abbrev in_turns : List Bool
in_turns = true ∷ false ∷ true ∷ false ∷ true ∷ false ∷ true ∷ repeated 200 false []

abbrev in_the_end : Config
unfolding run_steps sleep_step wake_step sleep_enter
in_the_end = run_steps 9 1 3 in_turns (at_acquire, outside, sleeping_soon)

sleep-wakeup_example : (in_the_end.0 ≡ asleep) × IsWoken 1 in_the_end.2.kernel
unfolding run_steps sleep_step wake_step sleep_enter
sleep-wakeup_example =
    sleep-wakeup 9 1 3 in_turns sleeping_soon in_the_end.2 in_the_end.0 (omega arith) (omega arith)
      (omega arith) refl refl refl
