-- ===== src/Proc/Alloc.antt =====
-- `procinit`, `allocpid`, `allocproc` and `freeproc` of kernel/proc.c. What `kalloc` and
-- `proc_pagetable` return is an argument; what the functions hand back to the memory allocator is
-- a list of calls.
pub mod Pids
use xv6_riscv_cs.Base.{
  List, [], if◌then◌else◌, suc, update, zero, ℕ, ◌%◌, ◌*◌, ◌++◌, ◌+◌, ◌-◌, ◌==◌, ◌^◌, ◌∷◌,
}
use xv6_riscv_cs.Proc.{Proc, State, Kernel, is_unused, nproc, set_proc}

-- A call into another part of the kernel, in the order in which they are made.
pub data Call : Type 0 where
  kfree : ℕ → Call
  proc_freepagetable : ℕ → ℕ → Call
  fileclose : ℕ → Call
  begin_op : Call
  iput : ℕ → Call
  end_op : Call

-- KSTACK of memlayout.h, for `p - proc`: TRAMPOLINE less two pages for each process.
abbrev pub kstack_of : ℕ → ℕ
kstack_of p = 2 ^ 38 - 4096 - (p - 1 + 1) * 2 * 4096

-- The loop of `procinit`.
unfoldable pub procinit_loop : ℕ → ℕ → Kernel → Kernel
unfolding set_proc
procinit_loop zero p k = k
procinit_loop (suc n) p k =
    procinit_loop n (p + 1)
      (set_proc p (record (k.proc p) { state = State.unused; kstack = kstack_of p }) k)

unfoldable pub procinit : Kernel → Kernel
procinit k = procinit_loop nproc 1 k

-- `nextpid` is an `int`: the word that it is kept in.
unfoldable pub allocpid : Kernel → Kernel × ℕ
allocpid k = (record k { nextpid = (k.nextpid + 1) % 2 ^ 32 }, k.nextpid)

-- The name is cut at its first byte.
unfoldable pub clear_name : List ℕ → List ℕ
clear_name [] = []
clear_name (c ∷ cs) = 0 ∷ cs

unfoldable pub freed : Proc → Proc
unfolding clear_name
freed r = record r {
  trapframe = 0;
  pagetable = 0;
  sz = 0;
  pid = 0;
  parent = 0;
  name = clear_name r.name;
  chan = 0;
  killed = 0;
  xstate = 0;
  state = State.unused;
}

unfoldable pub freeproc : ℕ → Kernel → Kernel × List Call
unfolding set_proc
freeproc p k =
    let r = k.proc p in
    (
      set_proc p (freed r) k,
      (if r.trapframe == 0 then [] else kfree r.trapframe ∷ [])
          ++ (if r.pagetable == 0 then [] else proc_freepagetable r.pagetable r.sz ∷ []),
    )

-- The search of `allocproc`: the first unused process among `n` from `p` on, or 0.
unfoldable pub find_unused : ℕ → ℕ → Kernel → ℕ
find_unused zero p k = 0
find_unused (suc n) p k =
    let rest = find_unused n (p + 1) k in if is_unused (k.proc p).state then p else rest

-- The loop that clears `qticks`, for the levels from `i` on.
unfoldable pub clear_qticks : ℕ → ℕ → (ℕ → ℕ) → ℕ → ℕ
clear_qticks zero i q = q
clear_qticks (suc n) i q = clear_qticks n (i + 1) (update q i 0)

unfoldable pub fresh_counters : Proc → Proc
unfolding clear_qticks
fresh_counters r = record r {
  sys_count = 0;
  qlevel = 0;
  pticks = 0;
  qticks = clear_qticks 4 0 r.qticks;
  tsched = 0;
  d_sys_count = 0;
  page_evicted = 0;
  page_faults = 0;
  pages_swapped_in = 0;
  pages_swapped_out = 0;
  resident_pages = 0;
}

-- `allocproc` from the label `found` on, with the results of `kalloc` and `proc_pagetable`.
unfoldable pub alloc_found : ℕ → ℕ → ℕ → Kernel → Kernel × ℕ × List Call
unfolding allocpid set_proc freeproc
alloc_found p trapframe pagetable k =
    let (k', pid) = allocpid k in
    let r = record (k.proc p) { pid = pid; state = State.used; trapframe = trapframe } in
    let r' = record r { pagetable = pagetable } in
    if trapframe == 0
    then (let (k'', calls) = freeproc p (set_proc p r k') in (k'', 0, calls))
    else if pagetable == 0
    then (let (k'', calls) = freeproc p (set_proc p r' k') in (k'', 0, calls))
    else (set_proc p (fresh_counters r') k', p, [])

unfoldable pub allocproc : ℕ → ℕ → Kernel → Kernel × ℕ × List Call
allocproc trapframe pagetable k =
    let p = find_unused nproc 1 k in
    if p == 0 then (k, 0, []) else alloc_found p trapframe pagetable k
