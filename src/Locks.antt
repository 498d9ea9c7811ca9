-- ===== src/Locks.antt =====
-- kernel/spinlock.c and kernel/sleeplock.c. The state of the processors and of the locks is passed
-- along; one processor takes a step at a time. `none` is `panic`.
pub mod Nesting
use xv6_riscv_cs.Base.{
  Bool, Option, false, if◌then◌else◌, ltb, none, not, some, true, ℕ, ◌&&◌, ◌+◌, ◌-◌, ◌==◌,
}

-- The fields of `struct cpu` for interrupts, with the flag SIE of the processor.
pub record Cpu : Type 0 where
  pub noff : ℕ
  pub intena : Bool
  pub intr : Bool

-- `struct spinlock`: `cpu` is the number of the processor plus 1, 0 for none.
pub record Spinlock : Type 0 where
  pub locked : ℕ
  pub cpu : ℕ

unfoldable pub push_off : Cpu → Cpu
push_off c =
    let old = c.intr in
    let off = record c { intr = false } in
    let kept = if off.noff == 0 then record off { intena = old } else off in
    record kept { noff = kept.noff + 1 }

unfoldable pub pop_off : Cpu → Option Cpu
pop_off c =
    if c.intr
    then none
    else if ltb c.noff 1
    then none
    else let less = record c { noff = c.noff - 1 } in
      some (if (less.noff == 0) && less.intena then record less { intr = true } else less)

unfoldable pub initlock : Spinlock
initlock = record { locked = 0; cpu = 0 }

unfoldable pub holding : ℕ → Spinlock → Bool
holding me l = not (l.locked == 0) && (l.cpu == me)

-- What one attempt of `acquire` gives: a panic, another round of the loop of the atomic swap, or the
-- lock.
pub data Attempt : Type 0 where
  panics : Attempt
  spins : Cpu → Attempt
  acquired : Spinlock → Cpu → Attempt

-- `acquire` up to the first round of its loop, on processor `me`.
unfoldable pub acquire : ℕ → Spinlock → Cpu → Attempt
unfolding push_off holding
acquire me l c =
    let off = push_off c in
    if holding me l
    then panics
    else if l.locked == 0
    then acquired (record { locked = 1; cpu = me }) off
    else spins off

unfoldable pub release : ℕ → Spinlock → Cpu → Option (Spinlock × Cpu)
unfolding holding pop_off
release me l c =
    if holding me l
    then elim (pop_off c) [ none ↦ none | some c' ↦ some (record { locked = 0; cpu = 0 }, c') ]
    else none

-- `struct sleeplock` without its name and the spin lock that guards it.
pub record Sleeplock : Type 0 where
  pub locked : ℕ
  pub pid : ℕ

unfoldable pub initsleeplock : Sleeplock
initsleeplock = record { locked = 0; pid = 0 }

-- `acquiresleep` of process `pid` up to the test of its loop; `none` if it sleeps there.
unfoldable pub acquiresleep : ℕ → Sleeplock → Option Sleeplock
acquiresleep pid l = if l.locked == 0 then some (record { locked = 1; pid = pid }) else none

-- `releasesleep` without its call of `wakeup`.
unfoldable pub releasesleep : Sleeplock → Sleeplock
releasesleep l = record { locked = 0; pid = 0 }

unfoldable pub holdingsleep : ℕ → Sleeplock → Bool
holdingsleep pid l = not (l.locked == 0) && (l.pid == pid)
