-- ===== src/Proc/Queue.antt =====
-- `qinit`, `push_proc` and `pop_proc` of kernel/proc.c: the run queues of the scheduler.
pub mod Fifo
use xv6_riscv_cs.Base.{List, if◌then◌else◌, ltb, slice, suc, update, zero, ℕ, ◌*◌, ◌+◌, ◌-◌}
use xv6_riscv_cs.Proc.{RunQueue, Kernel, nproc, levels}

-- The first loop of `qinit`, from level `i` on for `n` rounds.
unfoldable pub reset_tails : ℕ → ℕ → (ℕ → RunQueue) → ℕ → RunQueue
reset_tails zero i qs = qs
reset_tails (suc n) i qs = reset_tails n (i + 1) (update qs i (record (qs i) { tail = 0 }))

-- The second loop of `qinit`: each level has twice the slice of the one above it.
unfoldable pub double_slices : ℕ → ℕ → (ℕ → ℕ) → ℕ → ℕ
double_slices zero i m = m
double_slices (suc n) i m = double_slices n (i + 1) (update m i (m (i - 1) * 2))

unfoldable pub qinit : Kernel → Kernel
unfolding reset_tails double_slices
qinit k = record k {
  pqueue = reset_tails levels 0 k.pqueue;
  ticks_max = double_slices (levels - 1) 1 (update k.ticks_max 0 2);
}

-- What `push_proc` does to the queue of the level: a full queue drops the process.
unfoldable pub enqueue : RunQueue → ℕ → RunQueue
enqueue q p =
    if ltb q.tail nproc then record { qproc = update q.qproc q.tail p; tail = q.tail + 1 } else q

unfoldable pub push_proc : ℕ → Kernel → Kernel
push_proc p k =
    let level = (k.proc p).qlevel in
    record k { pqueue = update k.pqueue level (enqueue (k.pqueue level) p) }

-- The loop of `pop_proc`, from index `i` on for `n` rounds.
unfoldable pub shift : ℕ → ℕ → (ℕ → ℕ) → ℕ → ℕ
shift zero i f = f
shift (suc n) i f = shift n (i + 1) (update f (i - 1) (f i))

-- What `pop_proc` does to the queue of the level.
unfoldable pub dequeue : RunQueue → RunQueue
dequeue q = if ltb q.tail 1 then q else record {
  qproc = if ltb 0 q.tail then shift (q.tail - 1) 1 q.qproc else q.qproc;
  tail = q.tail - 1;
}

unfoldable pub pop_proc : ℕ → Kernel → Kernel
pop_proc level k = record k { pqueue = update k.pqueue level (dequeue (k.pqueue level)) }

-- The processes in a queue, the next one first.
abbrev pub contents : RunQueue → List ℕ
contents q = slice q.qproc 0 q.tail
