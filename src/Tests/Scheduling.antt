-- ===== src/Tests/Scheduling.antt =====
-- The scheduler's theorems at the sample kernel.
use xv6_riscv_cs.Base.{[], arith, refl, suc, zero, ℕ, ◌+◌, ◌<◌, ◌∷◌, ◌≡◌, ◌≢◌}
use xv6_riscv_cs.Proc.{State}
use xv6_riscv_cs.Proc.Schedule.Choice.{IsChosen, pick-IsChosen}
use xv6_riscv_cs.Proc.Tick.Slice.{IsOnSlice, event_tick-IsOnSlice, event_tick-requeues}
use xv6_riscv_cs.Proc.Schedule.{boost, pick, pop_head, runnable_head}
use xv6_riscv_cs.Proc.Schedule.Boost.{boost-contents, schedulable}
use xv6_riscv_cs.Tests.Samples.{child, kernel}
use xv6_riscv_cs.Proc.Queue.{contents, enqueue, push_proc}
use xv6_riscv_cs.Proc.Tick.{count_tick, end_slice, event_tick, slice_over}
use xv6_riscv_cs.Proc.Queue.Fifo.{push_bounded, push_proc-push_bounded}

push_proc-push_bounded_example : contents ((push_proc 1 kernel).pqueue 0) ≡ 1 ∷ []
unfolding push_bounded
push_proc-push_bounded_example = push_proc-push_bounded 1 kernel 0

event_tick-requeues_example :
    (((event_tick 1 kernel).0.proc 1).state ≡ State.runnable)
    × (contents ((event_tick 1 kernel).0.pqueue 0) ≡ 1 ∷ [])
    × (◌≢◌ {A = ℕ} 3 1 → (event_tick 1 kernel).0.proc 3 ≡ child)
unfolding push_bounded event_tick push_proc count_tick slice_over end_slice enqueue
event_tick-requeues_example = event_tick-requeues 1 kernel 0 3

event_tick-IsOnSlice_example :
    IsOnSlice (event_tick 1 kernel).0.ticks_max ((event_tick 1 kernel).0.proc 1)
event_tick-IsOnSlice_example =
    event_tick-IsOnSlice 1 kernel slices
      (record { level_in = omega arith; slice_left = omega arith })
  where
    slices : (l : ℕ) → l < 4 → 0 < kernel.ticks_max l
    slices zero h = omega arith
    slices (suc zero) h = omega arith
    slices (suc (suc zero)) h = omega arith
    slices (suc (suc (suc zero))) h = omega arith
    slices (suc (suc (suc (suc l)))) h = absurd (omega arith)

boost-contents_example : contents ((boost kernel).pqueue 0) ≡ 1 ∷ 3 ∷ []
unfolding schedulable
boost-contents_example = boost-contents kernel 0 (omega arith)

pick-IsChosen_example : (l : ℕ) × (l < 0 + 4) × IsChosen 0 0 l 3 kernel (pick 0 4 0 kernel).0
unfolding pick runnable_head pop_head
pick-IsChosen_example = pick-IsChosen 4 0 0 3 kernel refl
