-- ===== src/Proc/Query.antt =====
-- The queries of kernel/proc.c: `kgetppid`, `kgetnumchild`, `kgetchildsyscount`, `kgetmlfqinfo`
-- and `kgetvmstats`. The result -1 is `none`. The last two are modelled up to the `copyout` of the
-- record that they fill.
pub mod Counts
use xv6_riscv_cs.Base.{Option, if◌then◌else◌, none, not, some, suc, zero, ℕ, ◌&&◌, ◌+◌, ◌==◌, ◌||◌}
use xv6_riscv_cs.Proc.{Kernel, is_unused, is_zombie, nproc}

unfoldable pub kgetppid : ℕ → Kernel → Option ℕ
kgetppid me k =
    let parent = (k.proc me).parent in
    if me == k.initproc
    then none
    else if (parent == k.initproc) || ((k.proc parent).killed == 1)
    then none
    else some (k.proc parent).pid

-- The loop of `kgetnumchild`, from process `p` on for `n` rounds.
unfoldable pub count_children : ℕ → ℕ → ℕ → ℕ → Kernel → ℕ
count_children zero p numkids me k = numkids
count_children (suc n) p numkids me k =
    let r = k.proc p in
    count_children n (p + 1)
      (if (r.parent == me) && (not (r.killed == 1) && not (is_zombie r.state))
        then numkids + 1
        else numkids)
      me k

unfoldable pub kgetnumchild : ℕ → Kernel → ℕ
kgetnumchild me k = count_children nproc 1 0 me k

unfoldable pub find_child : ℕ → ℕ → ℕ → ℕ → Kernel → Option ℕ
find_child zero p pid me k = none
find_child (suc n) p pid me k =
    let rest = find_child n (p + 1) pid me k in
    if ((k.proc p).parent == me) && ((k.proc p).pid == pid) then some (k.proc p).sys_count else rest

unfoldable pub kgetchildsyscount : ℕ → ℕ → Kernel → Option ℕ
kgetchildsyscount pid me k = find_child nproc 1 pid me k

-- `struct mlfqinfo` and `struct vmstats`
pub record MlfqInfo : Type 0 where
  pub level : ℕ
  pub times_scheduled : ℕ
  pub total_syscalls : ℕ
  pub ticks : ℕ → ℕ

pub record VmStats : Type 0 where
  pub page_faults : ℕ
  pub page_evicted : ℕ
  pub pages_swapped_in : ℕ
  pub pages_swapped_out : ℕ
  pub resident_pages : ℕ

-- The searches of `kgetmlfqinfo` and `kgetvmstats`: the first process in use with the id.
unfoldable pub find_live : ℕ → ℕ → ℕ → Kernel → Option ℕ
find_live zero p pid k = none
find_live (suc n) p pid k =
    let rest = find_live n (p + 1) pid k in
    if ((k.proc p).pid == pid) && not (is_unused (k.proc p).state) then some p else rest

unfoldable pub kgetmlfqinfo : ℕ → Kernel → Option MlfqInfo
kgetmlfqinfo pid k = elim (find_live nproc 1 pid k) [
  | none ↦ none
  | some p ↦
      let r = k.proc p in
      some (record {
        level = r.qlevel;
        times_scheduled = r.tsched;
        total_syscalls = r.sys_count;
        ticks = r.qticks;
      })
]

unfoldable pub kgetvmstats : ℕ → Kernel → Option VmStats
kgetvmstats pid k = elim (find_live nproc 1 pid k) [
  | none ↦ none
  | some p ↦
      let r = k.proc p in
      some (record {
        page_faults = r.page_faults;
        page_evicted = r.page_evicted;
        pages_swapped_in = r.pages_swapped_in;
        pages_swapped_out = r.pages_swapped_out;
        resident_pages = r.resident_pages;
      })
]
