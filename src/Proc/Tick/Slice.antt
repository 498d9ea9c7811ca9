-- ===== src/Proc/Tick/Slice.antt =====
-- Theorems of `event_tick`: slices, demotion, preemption.
use xv6_riscv_cs.Base.{
  Bool-cases, arith, false, if◌then◌else◌, inl, inr, leb, ltb, suc, true, zero, ℕ, ◌&&◌, ◌+◌, ◌<◌,
  ◌==◌, ◌↔◌, ◌≡◌, ◌≢◌, ◌≤◌, ◌⊎◌,
}
use xv6_riscv_cs.Proc.{Proc, RunQueue, Kernel, levels, State}
use xv6_riscv_cs.Proc.Queue.{push_proc, contents}
use xv6_riscv_cs.Proc.Tick.{waiting_above, event_tick, count_tick, end_slice, slice_over}
use xv6_riscv_cs.Proc.Queue.Fifo.{push_bounded, enqueue-push_bounded}

-- The test of the loop: a queue of the levels looked at is not empty.
waiting_above-true :
    (n i : ℕ) (qs : ℕ → RunQueue)
    → waiting_above n i qs ≡ true
    → (j : ℕ) × (i ≤ j) × (j < i + n) × (0 < (qs j).tail)
unfolding waiting_above
waiting_above-true zero i qs h = cc
waiting_above-true (suc n) i qs h = elim (Bool-cases ((qs i).tail == 0)) [
  | inl none_here ↦
      let (j, from, to, some_here) =
        waiting_above-true n (i + 1) qs (rw (none_here, waiting_above) at h) in
      (j, omega arith, omega arith, some_here)
  | inr some_here ↦ (i, omega arith, omega arith, ground arith)
]

waiting_above-false :
    (n i : ℕ) (qs : ℕ → RunQueue)
    → waiting_above n i qs ≡ false
    → (j : ℕ) → i ≤ j
    → j < i + n
    → (qs j).tail ≡ 0
unfolding waiting_above
waiting_above-false zero i qs h j from to = absurd (omega arith)
waiting_above-false (suc n) i qs h j from to = elim (Bool-cases (i == j)) [
  | inl same ↦ ground arith
  | inr later ↦ waiting_above-false n (i + 1) qs (ground arith) j (ground arith) (omega arith)
]

-- What a process keeps between ticks: a level of the table, and a slice that is not used up.
pub record IsOnSlice (max : ℕ → ℕ) (r : Proc) : Type 0 where
  pub level_in : r.qlevel < levels
  pub slice_left : r.pticks < max r.qlevel

-- A tick never lets a process go past its slice or off the table of levels.
pub event_tick-IsOnSlice :
    (p : ℕ) (k : Kernel)
    → ((l : ℕ) → l < levels → 0 < k.ticks_max l)
    → IsOnSlice k.ticks_max (k.proc p)
    → IsOnSlice (event_tick p k).0.ticks_max ((event_tick p k).0.proc p)
unfolding event_tick push_proc count_tick end_slice slice_over
event_tick-IsOnSlice p k positive h =
    ground (arith, positive (k.proc p).qlevel, positive ((k.proc p).qlevel + 1))

-- The tick makes the process give up the processor exactly when its slice is used up or a process
-- waits at a level above its own.
pub event_tick-yields :
    (p : ℕ) (k : Kernel)
    → ((event_tick p k).1 ≡ true) ↔ (
        (k.ticks_max (k.proc p).qlevel ≤ (k.proc p).pticks + 1)
        ⊎ ((j : ℕ) × (j < (k.proc p).qlevel) × (0 < (k.pqueue j).tail)))
unfolding event_tick count_tick slice_over
event_tick-yields p k = (
  λ yields. elim (Bool-cases (leb (k.ticks_max (k.proc p).qlevel) ((k.proc p).pticks + 1))) [
    | inl over ↦ inl (ground arith)
    | inr left ↦
        let (j, from, to, some_here) =
          waiting_above-true (k.proc p).qlevel 0 k.pqueue (ground arith) in
        inr (j, omega arith, some_here)
  ],
  elim [
    | inl over ↦ ground arith
    | inr (j, above, some_here) ↦ ground (
      arith,
      λ (h : waiting_above (k.proc p).qlevel 0 k.pqueue ≡ false).
          waiting_above-false (k.proc p).qlevel 0 k.pqueue h j (omega arith) (omega arith),
    )
  ],
)

-- The level after a tick: one lower exactly when the slice is used up, the process made fewer
-- system calls in it than it used ticks, and there is a lower level.
pub event_tick-demotes :
    (p : ℕ) (k : Kernel)
    → let r = k.proc p in
      let demoted =
        leb (k.ticks_max r.qlevel) (r.pticks + 1)
        && (ltb r.sys_count (r.d_sys_count + (r.pticks + 1)) && ltb r.qlevel 3) in
      ((event_tick p k).0.proc p).qlevel ≡ (if demoted then r.qlevel + 1 else r.qlevel)
unfolding event_tick push_proc count_tick end_slice slice_over
event_tick-demotes p k = ground arith

tick_keeps_state :
    (max : ℕ → ℕ) (r : Proc)
    → (if slice_over max (count_tick r) then end_slice (count_tick r) else count_tick r).state
      ≡ r.state
unfolding count_tick end_slice
tick_keeps_state max r = ground arith

-- A process that yields is runnable, and stands at the end of the queue of its new level if that
-- queue has room; if it is full, the queue stays as it is. A process that does not yield keeps its
-- state. No other queue and no other process changes.
pub event_tick-requeues :
    (p : ℕ) (k : Kernel) (l o : ℕ)
    → let (k', yields) = event_tick p k in
      ((k'.proc p).state ≡ (if yields then State.runnable else (k.proc p).state))
      × (contents (k'.pqueue l) ≡ (
          if yields && ((k'.proc p).qlevel == l)
          then push_bounded (contents (k.pqueue l)) p
          else contents (k.pqueue l)))
      × (o ≢ p → k'.proc o ≡ k.proc o)
unfolding event_tick push_proc
event_tick-requeues p k l o =
    ground (arith, enqueue-push_bounded (k.pqueue l) p, tick_keeps_state k.ticks_max (k.proc p))
