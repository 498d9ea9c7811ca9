-- ===== src/Proc/Tick.antt =====
-- `event_tick` of kernel/proc.c: what a timer interrupt does to the running process.
use xv6_riscv_cs.Base.{
  Bool, false, if◌then◌else◌, leb, ltb, suc, true, update, zero, ℕ, ◌&&◌, ◌+◌, ◌-◌, ◌==◌,
}
use xv6_riscv_cs.Proc.{Proc, State, RunQueue, Kernel, levels, set_proc}
use xv6_riscv_cs.Proc.Queue.{push_proc}
pub mod Slice

-- The loop over the queues above the process's level: is one of them not empty? It starts at
-- level `i` and looks at `n` queues.
unfoldable pub waiting_above : ℕ → ℕ → (ℕ → RunQueue) → Bool
waiting_above zero i qs = false
waiting_above (suc n) i qs =
    let rest = waiting_above n (i + 1) qs in if (qs i).tail == 0 then rest else true

-- The tick is counted.
unfoldable pub count_tick : Proc → Proc
count_tick r = record r {
  pticks = r.pticks + 1;
  qticks = update r.qticks r.qlevel (r.qticks r.qlevel + 1);
}

-- The slice is used up: a new slice starts, one level down if the process made fewer system
-- calls than ticks. `delta_S < ptick` is read with `dSysCount` on the other side, so that it is
-- the comparison of signed numbers.
unfoldable pub end_slice : Proc → Proc
end_slice r = record r {
  pticks = 0;
  d_sys_count = r.sys_count;
  qlevel =
      if ltb r.sys_count (r.d_sys_count + r.pticks) && ltb r.qlevel (levels - 1)
      then r.qlevel + 1
      else r.qlevel;
}

-- `p->pticks >= ticks_max[level]`, after the tick is counted.
unfoldable pub slice_over : (ℕ → ℕ) → Proc → Bool
slice_over max r = leb (max r.qlevel) r.pticks

-- `event_tick` up to the call of `sched`, and whether it makes that call.
unfoldable pub event_tick : ℕ → Kernel → Kernel × Bool
unfolding set_proc
event_tick p k =
    let counted = count_tick (k.proc p) in
    let over = slice_over k.ticks_max counted in
    let r = if over then end_slice counted else counted in
    let should_yield = if over then true else waiting_above counted.qlevel 0 k.pqueue in
    if should_yield
    then (push_proc p (set_proc p (record r { state = State.runnable }) k), true)
    else (set_proc p r k, false)
