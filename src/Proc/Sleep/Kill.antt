-- ===== src/Proc/Sleep/Kill.antt =====
-- Theorems of `kkill`.
use xv6_riscv_cs.Base.{
  ==_iff, Bool-cases, List, [], arith, false, inl, inr, refl, slice, some, suc, sym, true, zero, ℕ,
  ◌+◌, ◌<◌, ◌==◌, ◌∷◌, ◌≡◌, ◌≢◌, ◌≤◌,
}
use xv6_riscv_cs.Proc.{runnable, sleeping, Kernel, levels, nproc}
use xv6_riscv_cs.Proc.Queue.{contents}
use xv6_riscv_cs.Proc.Sleep.{kkill, kkill_loop, kill_one}
use xv6_riscv_cs.Proc.Schedule.{pick, runnable_head}
use xv6_riscv_cs.Proc.Schedule.Choice.{pick-IsChosen}

-- What `kkill` finds: the first process of the table with the id.
pub record IsFirst (pid p : ℕ) (i : ℕ) (k : Kernel) : Type 0 where
  pub from : i ≤ p
  pub has_pid : (k.proc p).pid ≡ pid
  pub none_before : (j : ℕ) → i ≤ j → j < p → (k.proc j).pid ≢ pid

IsFirst-step :
    (pid p i : ℕ) (k : Kernel) → (k.proc i).pid ≢ pid → IsFirst pid p (i + 1) k → IsFirst pid p i k
IsFirst-step pid p i k ne f = record {
  from = omega (arith, f.from);
  has_pid = f.has_pid;
  none_before = λ j a b. elim (Bool-cases (i == j)) [
    | inl same ↦ rw (← (==_iff i j).0 same) ne
    | inr later ↦ f.none_before j (ground arith) b
  ];
}

kkill_loop-found :
    (n i pid : ℕ) (k : Kernel)
    → (kkill_loop n i pid k).1 ≡ true
    → (p : ℕ) × (p < i + n) × IsFirst pid p i k × ((kkill_loop n i pid k).0 ≡ kill_one p k)
unfolding kkill_loop
kkill_loop-found zero i pid k h = cc
kkill_loop-found (suc n) i pid k h = elim (Bool-cases ((k.proc i).pid == pid)) [
  | inl here ↦ (
    i,
    omega arith,
    record {
      from = omega arith;
      has_pid = ground arith;
      none_before = λ j a b. absurd (omega arith);
    },
    rw here,
  )
  | inr further ↦
      let (p, low, first, e) = kkill_loop-found n (i + 1) pid k (rw (further, kkill_loop) at h) in
      (p, omega arith, IsFirst-step pid p i k (ground arith) first, rw further e)
]

kkill_loop-missing :
    (n i pid : ℕ) (k : Kernel)
    → (kkill_loop n i pid k).1 ≡ false
    → ((kkill_loop n i pid k).0 ≡ k) × ((j : ℕ) → i ≤ j → j < i + n → (k.proc j).pid ≢ pid)
unfolding kkill_loop
kkill_loop-missing zero i pid k h = (refl, λ j a b. absurd (omega arith))
kkill_loop-missing (suc n) i pid k h = elim (Bool-cases ((k.proc i).pid == pid)) [
  | inl here ↦ ground arith
  | inr further ↦
      let (e, rest) = kkill_loop-missing n (i + 1) pid k (rw (further, kkill_loop) at h) in
      (
        rw further e,
        λ j a b. elim (Bool-cases (i == j)) [
          | inl same ↦ ground arith
          | inr later ↦ rest j (ground arith) (omega arith)
        ],
      )
]

-- When `kkill` returns 0 it has marked the first process with the id as killed, and made it
-- runnable if it slept; when it returns -1 no process of the table has the id, and nothing changes.
pub kkill_lem :
    (pid : ℕ) (k : Kernel)
    → ((kkill pid k).1 ≡ true
        → (p : ℕ) × (p ≤ nproc) × IsFirst pid p 1 k × ((kkill pid k).0 ≡ kill_one p k))
      × ((kkill pid k).1 ≡ false
          → ((kkill pid k).0 ≡ k) × ((p : ℕ) → 1 ≤ p → p ≤ nproc → (k.proc p).pid ≢ pid))
unfolding kkill
kkill_lem pid k = (
  λ h. let (p, low, first, e) = kkill_loop-found nproc 1 pid k h in (p, omega arith, first, e),
  λ h. let (e, rest) = kkill_loop-missing nproc 1 pid k h in (e, λ p a b. rest p a (omega arith)),
)

-- The process stands in none of the places of the queue.
abbrev pub Absent : ℕ → List ℕ → Type 0
Absent p [] = Unit
Absent p (q ∷ qs) = (q ≢ p) × Absent p qs

-- A process that is in no queue is not at the front of one.
head-Absent :
    (p l : ℕ) (k : Kernel)
    → Absent p (contents (k.pqueue l))
    → runnable_head l k ≡ true
    → (k.pqueue l).qproc 0 ≢ p
unfolding runnable_head
head-Absent p l k absent h = ground (arith, at_front (k.pqueue l).qproc (k.pqueue l).tail p)
  where
    at_front : (f : ℕ → ℕ) (t p : ℕ) → 0 < t → Absent p (slice f 0 t) → f 0 ≢ p
    at_front f zero p h a = absurd (omega arith)
    at_front f (suc t) p h a = a.0

-- The scheduler does not switch to a process that is in no queue.
pub pick-Absent :
    (cpu p : ℕ) (k : Kernel)
    → ((l : ℕ) → Absent p (contents (k.pqueue l)))
    → (pick cpu levels 0 k).1 ≢ some p
pick-Absent cpu p k absent h =
    let (l, low, c) = pick-IsChosen levels cpu 0 p k h in
    head-Absent p l k (absent l) c.head (sym c.is_head)

kill_one-pqueue : (p : ℕ) (k : Kernel) (l : ℕ) → (kill_one p k).pqueue l ≡ k.pqueue l
unfolding kill_one
kill_one-pqueue p k l = refl

-- A sleeping process that `kkill` wakes becomes runnable, but is put in no queue: if it was in
-- none, the next round without a boost does not switch to it.
pub kkill-unqueued :
    (pid p cpu : ℕ) (k : Kernel)
    → (kkill pid k).0 ≡ kill_one p k
    → (k.proc p).state ≡ sleeping
    → ((l : ℕ) → Absent p (contents (k.pqueue l)))
    → (((kkill pid k).0.proc p).state ≡ runnable)
      × ((l : ℕ) → Absent p (contents ((kkill pid k).0.pqueue l)))
      × ((pick cpu levels 0 (kkill pid k).0).1 ≢ some p)
kkill-unqueued pid p cpu k e sleeps absent = rw e (
  unfold kill_one in ground arith,
  λ l. rw (kill_one-pqueue p k l) (absent l),
  pick-Absent cpu p (kill_one p k) (λ l. rw (kill_one-pqueue p k l) (absent l)),
)
