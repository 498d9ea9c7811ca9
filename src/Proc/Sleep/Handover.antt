-- ===== src/Proc/Sleep/Handover.antt =====
-- `sleep` and `wakeup` of kernel/proc.c, step by step with their locks. A lock is the number of the
-- process that holds it, 0 if it is free, and a process that does not get a lock makes no step.
pub mod Lost
pub mod Woken
use xv6_riscv_cs.Base.{Bool, List, [], false, if◌then◌else◌, ltb, true, update, ℕ, ◌+◌, ◌==◌, ◌∷◌}
use xv6_riscv_cs.Proc.{Kernel, nproc}
use xv6_riscv_cs.Proc.Sleep.{sleep_enter, wakeup_one}

-- Where `sleep` stands: at `acquire(&p->lock)`, `release(lk)`, the two assignments, `sched`, and
-- behind the switch.
pub data SleepAt : Type 0 where
  at_acquire at_release at_mark at_sched asleep : SleepAt

-- Where the caller of `wakeup` stands: at `acquire(lk)`, at the head of the loop for a process, at the
-- test with the lock of the process, at the release of it, and behind `release(lk)`.
pub data WakeAt : Type 0 where
  outside : WakeAt
  scanning : ℕ → WakeAt
  testing : ℕ → WakeAt
  tested : ℕ → WakeAt
  finished : WakeAt

-- The condition lock `lk` and the locks of the processes.
pub record Shared : Type 0 where
  pub kernel : Kernel
  pub lk : ℕ
  pub plock : ℕ → ℕ

abbrev pub Config : Type 0
Config = SleepAt × WakeAt × Shared

-- One step of `sleep(chan, lk)` in the process `me`. The scheduler releases the lock of the process
-- behind the switch.
unfoldable pub sleep_step : ℕ → ℕ → Config → Config
unfolding sleep_enter
sleep_step chan me (at_acquire, w, s) =
    if s.plock me == 0
    then (at_release, w, record s { plock = update s.plock me me })
    else (at_acquire, w, s)
sleep_step chan me (at_release, w, s) = (at_mark, w, record s { lk = 0 })
sleep_step chan me (at_mark, w, s) =
    (at_sched, w, record s { kernel = sleep_enter chan me s.kernel })
sleep_step chan me (at_sched, w, s) = (asleep, w, record s { plock = update s.plock me 0 })
sleep_step chan me (asleep, w, s) = (asleep, w, s)

-- One step of the process `other`, which calls `wakeup(chan)` with `lk` held.
unfoldable pub wake_step : ℕ → ℕ → Config → Config
unfolding wakeup_one
wake_step chan other (p, outside, s) =
    if s.lk == 0 then (p, scanning 1, record s { lk = other }) else (p, outside, s)
wake_step chan other (p, scanning q, s) =
    if ltb nproc q
    then (p, finished, record s { lk = 0 })
    else if q == other
    then (p, scanning (q + 1), s)
    else if s.plock q == 0
    then (p, testing q, record s { plock = update s.plock q other })
    else (p, scanning q, s)
wake_step chan other (p, testing q, s) =
    (p, tested q, record s { kernel = wakeup_one chan other q s.kernel })
wake_step chan other (p, tested q, s) =
    (p, scanning (q + 1), record s { plock = update s.plock q 0 })
wake_step chan other (p, finished, s) = (p, finished, s)

-- The steps in an order: `true` is a step of `sleep`.
unfoldable pub run_steps : ℕ → ℕ → ℕ → List Bool → Config → Config
unfolding sleep_step wake_step
run_steps chan me other [] c = c
run_steps chan me other (true ∷ order) c = run_steps chan me other order (sleep_step chan me c)
run_steps chan me other (false ∷ order) c = run_steps chan me other order (wake_step chan other c)
