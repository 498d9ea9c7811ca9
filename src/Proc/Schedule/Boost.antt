-- ===== src/Proc/Schedule/Boost.antt =====
-- Theorems of the boost.
use xv6_riscv_cs.Base.{
  Bool-cases, List, [], ap, append-nil, append_assoc, arith, fun_ext, if◌then◌else◌, inl, inr, leb,
  length, length-append, ltb, refl, suc, zero, ℕ, ◌&&◌, ◌++◌, ◌+◌, ◌<◌, ◌==◌, ◌∙◌, ◌∷◌, ◌≡◌, ◌≤◌,
}
use xv6_riscv_cs.Proc.{State, Kernel, nproc, levels}
use xv6_riscv_cs.Proc.Queue.{contents, reset_tails}
use xv6_riscv_cs.Proc.Schedule.{is_schedulable, boost_one, boost_procs, boost}
use xv6_riscv_cs.Proc.Queue.Fifo.{enqueue-push_bounded, push_bounded-room}
use xv6_riscv_cs.Console.Edits.{ready}

-- The schedulable processes among `n` processes from `p` on.
unfoldable pub schedulable : ℕ → ℕ → (ℕ → State) → List ℕ
schedulable zero p st = []
schedulable (suc n) p st =
    if is_schedulable (st p) then p ∷ schedulable n (p + 1) st else schedulable n (p + 1) st

abbrev pub states : Kernel → ℕ → State
states k p = (k.proc p).state

boost_one-states : (p : ℕ) (k : Kernel) → states (boost_one p k) ≡ states k
unfolding boost_one
boost_one-states p k = fun_ext λ j. ground arith

length-schedulable : (n p : ℕ) (st : ℕ → State) → length (schedulable n p st) ≤ n
unfolding schedulable
length-schedulable zero p st = omega arith
length-schedulable (suc n) p st = ground (arith, length-schedulable n (p + 1) st)

boost_one-contents :
    (p : ℕ) (k : Kernel)
    → length (contents (k.pqueue 0)) < nproc
    → contents ((boost_one p k).pqueue 0) ≡ contents (k.pqueue 0) ++ schedulable 1 p (states k)
unfolding boost_one schedulable
boost_one-contents p k h = elim (Bool-cases (is_schedulable (states k p))) [
  | inl ready ↦
      rw ready (enqueue-push_bounded (k.pqueue 0) p ∙ push_bounded-room (contents (k.pqueue 0)) p h)
  | inr passed ↦ rw (passed, append-nil)
]

schedulable-suc :
    (n p : ℕ) (st : ℕ → State)
    → schedulable 1 p st ++ schedulable n (p + 1) st ≡ schedulable (suc n) p st
unfolding schedulable
schedulable-suc n p st = elim (Bool-cases (is_schedulable (st p))) [
  | inl ready ↦ rw ready
  | inr passed ↦ rw passed
]

boost_procs-contents :
    (n p : ℕ) (k : Kernel)
    → length (contents (k.pqueue 0)) + n ≤ nproc
    → contents ((boost_procs n p k).pqueue 0) ≡ contents (k.pqueue 0) ++ schedulable n p (states k)
unfolding boost_procs
boost_procs-contents zero p k h = unfold schedulable in rw append-nil
boost_procs-contents (suc n) p k h =
    let step = boost_one-contents p k (omega arith) in
    let room : length (contents ((boost_one p k).pqueue 0)) + n ≤ nproc = rw step (
      omega (
        arith,
        length-append (contents (k.pqueue 0)) (schedulable 1 p (states k)),
        length-schedulable 1 p (states k),
      )) in
    boost_procs-contents n (p + 1) (boost_one p k) room
    ∙ rw (step, boost_one-states p k, append_assoc, schedulable-suc n p (states k)) refl

boost_one-levels : (p : ℕ) (k : Kernel) (l : ℕ) → 0 < l → (boost_one p k).pqueue l ≡ k.pqueue l
unfolding boost_one
boost_one-levels p k l h = ground arith

boost_procs-levels :
    (n p : ℕ) (k : Kernel) (l : ℕ) → 0 < l → (boost_procs n p k).pqueue l ≡ k.pqueue l
unfolding boost_procs
boost_procs-levels zero p k l h = refl
boost_procs-levels (suc n) p k l h =
    boost_procs-levels n (p + 1) (boost_one p k) l h ∙ boost_one-levels p k l h

-- What the loop leaves of a process: pointers outside the range are as they were.
boost_one-proc :
    (p : ℕ) (k : Kernel) (j : ℕ)
    → (boost_one p k).proc j ≡ (
        if (p == j) && is_schedulable (states k j)
        then record (k.proc j) { qlevel = 0; pticks = 0; d_sys_count = (k.proc j).sys_count }
        else k.proc j)
unfolding boost_one
boost_one-proc p k j = ground arith

boost_procs-proc :
    (n p : ℕ) (k : Kernel) (j : ℕ)
    → (boost_procs n p k).proc j ≡ (
        if (leb p j && ltb j (p + n)) && is_schedulable (states k j)
        then record (k.proc j) { qlevel = 0; pticks = 0; d_sys_count = (k.proc j).sys_count }
        else k.proc j)
unfolding boost_procs
boost_procs-proc zero p k j = ground arith
boost_procs-proc (suc n) p k j =
    ground (arith, boost_procs-proc n (p + 1) (boost_one p k) j, boost_one-proc p k j)

-- After a boost the top queue holds exactly the processes that are runnable, running or just
-- allocated, in the order of the table, and every other queue is empty.
pub boost-contents :
    (k : Kernel) (l : ℕ)
    → l < levels
    → contents ((boost k).pqueue l) ≡ (if l == 0 then schedulable nproc 1 (states k) else [])
unfolding boost reset_tails
boost-contents k zero h = boost_procs-contents nproc 1 _ (omega arith)
boost-contents k (suc zero) h = ap contents (boost_procs-levels nproc 1 _ 1 (omega arith))
boost-contents k (suc (suc zero)) h = ap contents (boost_procs-levels nproc 1 _ 2 (omega arith))
boost-contents k (suc (suc (suc zero))) h =
    ap contents (boost_procs-levels nproc 1 _ 3 (omega arith))
boost-contents k (suc (suc (suc (suc l)))) h = absurd (omega arith)

-- A boost gives each of these processes a fresh slice at the top level, and changes no other.
pub boost-proc :
    (k : Kernel) (p : ℕ)
    → (boost k).proc p ≡ (
        if (leb 1 p && ltb p (1 + nproc)) && is_schedulable (states k p)
        then record (k.proc p) { qlevel = 0; pticks = 0; d_sys_count = (k.proc p).sys_count }
        else k.proc p)
unfolding boost
boost-proc k p = boost_procs-proc nproc 1 _ p
