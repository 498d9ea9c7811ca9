-- ===== src/Proc/Query/Counts.antt =====
-- Theorems of the queries.
use xv6_riscv_cs.Base.{
  Bool-cases, List, [], arith, false, if◌then◌else◌, inl, inr, length, not, some, suc, zero, ℕ,
  ◌&&◌, ◌+◌, ◌<◌, ◌==◌, ◌∷◌, ◌≡◌, ◌≤◌,
}
use xv6_riscv_cs.Proc.{Kernel, is_unused, is_zombie, nproc}
use xv6_riscv_cs.Proc.Query.{kgetnumchild, count_children, kgetmlfqinfo, find_live}
use xv6_riscv_cs.Proc.Alloc.Pids.{HasUniquePids}

-- The live children of `me` among `n` processes from `p` on, as a list.
unfoldable pub live_children : ℕ → ℕ → ℕ → Kernel → List ℕ
live_children zero p me k = []
live_children (suc n) p me k =
    if ((k.proc p).parent == me)
      && (not ((k.proc p).killed == 1) && not (is_zombie (k.proc p).state))
    then p ∷ live_children n (p + 1) me k
    else live_children n (p + 1) me k

count_children-length :
    (n p c me : ℕ) (k : Kernel) → count_children n p c me k ≡ c + length (live_children n p me k)
unfolding count_children live_children
count_children-length zero p c me k = omega arith
count_children-length (suc n) p c me k =
    ground
      (arith, count_children-length n (p + 1) c me k, count_children-length n (p + 1) (c + 1) me k)

-- `kgetnumchild` is the number of the children that are neither killed nor zombies.
pub kgetnumchild-length :
    (me : ℕ) (k : Kernel) → kgetnumchild me k ≡ length (live_children nproc 1 me k)
unfolding kgetnumchild
kgetnumchild-length me k = ground (arith, count_children-length nproc 1 0 me k)

find_live-found :
    (n i p : ℕ) (k : Kernel)
    → HasUniquePids k
    → is_unused (k.proc p).state ≡ false
    → i ≤ p
    → p < i + n
    → find_live n i (k.proc p).pid k ≡ some p
unfolding find_live
find_live-found zero i p k u live a b = absurd (omega arith)
find_live-found (suc n) i p k u live a b = elim (Bool-cases (i == p)) [
  | inl same ↦ ground arith
  | inr later ↦ ground (arith, find_live-found n (i + 1) p k u live, u.distinct i p)
]

-- For a process in use, `kgetmlfqinfo` with its id reports its own level, schedulings, system
-- calls and ticks, as the ids are unique.
pub kgetmlfqinfo-own :
    (p : ℕ) (k : Kernel)
    → HasUniquePids k
    → is_unused (k.proc p).state ≡ false
    → 1 ≤ p
    → p ≤ nproc
    → kgetmlfqinfo (k.proc p).pid k
      ≡ some (record {
        level = (k.proc p).qlevel;
        times_scheduled = (k.proc p).tsched;
        total_syscalls = (k.proc p).sys_count;
        ticks = (k.proc p).qticks;
      })
unfolding kgetmlfqinfo
kgetmlfqinfo-own p k u live lo hi =
    rw (find_live-found nproc 1 p k u live lo (omega arith), kgetmlfqinfo)
