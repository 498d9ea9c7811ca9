-- ===== src/Proc/Sleep.antt =====
-- `sleep`, `wakeup`, `kkill`, `setkilled`, `killed` and `yield` of kernel/proc.c. A function that
-- calls `sched` is split there: the process goes on with the part behind `sched` when the
-- scheduler has chosen it again.
pub mod Wake
pub mod Kill
pub mod Handover
use xv6_riscv_cs.Base.{Bool, false, if◌then◌else◌, not, suc, true, zero, ℕ, ◌&&◌, ◌+◌, ◌==◌}
use xv6_riscv_cs.Proc.{State, Kernel, is_sleeping, nproc, set_proc}
use xv6_riscv_cs.Proc.Queue.{push_proc}

-- The two assignments of `sleep` before `sched`, which the process `me` makes with its lock held.
-- Handover has the steps of `sleep` and `wakeup` with their locks.
unfoldable pub sleep_enter : ℕ → ℕ → Kernel → Kernel
unfolding set_proc
sleep_enter chan me k = set_proc me (record (k.proc me) { chan = chan; state = State.sleeping }) k

-- `sleep` behind `sched`.
unfoldable pub sleep_exit : ℕ → Kernel → Kernel
unfolding set_proc
sleep_exit me k = set_proc me (record (k.proc me) { chan = 0 }) k

-- The body of the loop of `wakeup`, called by process `me`.
unfoldable pub wakeup_one : ℕ → ℕ → ℕ → Kernel → Kernel
unfolding set_proc
wakeup_one chan me p k =
    let r = k.proc p in
    if not (p == me) && (is_sleeping r.state && r.chan == chan)
    then push_proc p (set_proc p (record r { state = State.runnable }) k)
    else k

unfoldable pub wakeup_loop : ℕ → ℕ → ℕ → ℕ → Kernel → Kernel
wakeup_loop zero p chan me k = k
wakeup_loop (suc n) p chan me k = wakeup_loop n (p + 1) chan me (wakeup_one chan me p k)

unfoldable pub wakeup : ℕ → ℕ → Kernel → Kernel
wakeup chan me k = wakeup_loop nproc 1 chan me k

-- What `kkill` does to the process that it finds.
unfoldable pub kill_one : ℕ → Kernel → Kernel
unfolding set_proc
kill_one p k =
    let r = k.proc p in
    set_proc p
      (record r { killed = 1; state = if is_sleeping r.state then State.runnable else r.state }) k

-- The loop of `kkill`, from process `p` on for `n` rounds: whether the result is 0, not -1.
unfoldable pub kkill_loop : ℕ → ℕ → ℕ → Kernel → Kernel × Bool
kkill_loop zero p pid k = (k, false)
kkill_loop (suc n) p pid k =
    let rest = kkill_loop n (p + 1) pid k in
    if (k.proc p).pid == pid then (kill_one p k, true) else rest

unfoldable pub kkill : ℕ → Kernel → Kernel × Bool
kkill pid k = kkill_loop nproc 1 pid k

unfoldable pub setkilled : ℕ → Kernel → Kernel
unfolding set_proc
setkilled p k = set_proc p (record (k.proc p) { killed = 1 }) k

unfoldable pub killed : ℕ → Kernel → ℕ
killed p k = (k.proc p).killed

-- `yield` up to `sched`.
unfoldable pub yield_enter : ℕ → Kernel → Kernel
unfolding set_proc
yield_enter me k = set_proc me (record (k.proc me) { state = State.runnable }) k
