-- ===== src/Proc/Schedule/Choice.antt =====
-- Theorems of the scheduler's choice.
use xv6_riscv_cs.Base.{
  ==_iff, Bool-cases, ap, arith, false, if◌then◌else◌, inl, inr, ltb, none, refl, some, suc, sym,
  true, zero, ℕ, ◌+◌, ◌<◌, ◌==◌, ◌∙◌, ◌≡◌, ◌≤◌,
}
use xv6_riscv_cs.Proc.{running, RunQueue, Kernel}
use xv6_riscv_cs.Proc.Queue.{contents, dequeue, pop_proc}
use xv6_riscv_cs.Proc.Schedule.{runnable_head, dispatch, pop_head, pick}
use xv6_riscv_cs.Proc.Queue.Fifo.{pop_front, dequeue-pop_front}

-- The loop goes past level `j`: whatever stood at its front is gone, the rest is as it was.
pub record IsSkipped (k k' : Kernel) (j : ℕ) : Type 0 where
  pub no_head : runnable_head j k ≡ false
  pub popped : contents (k'.pqueue j) ≡ pop_front (contents (k.pqueue j))

-- What is known of the loop's result: a process that is switched to was the runnable one at the
-- front of some level `l`; no level above had a runnable process at its front.
pub record IsChosen (cpu i l p : ℕ) (k k' : Kernel) : Type 0 where
  pub from : i ≤ l
  pub head : runnable_head l k ≡ true
  pub is_head : p ≡ (k.pqueue l).qproc 0
  pub above : (j : ℕ) → i ≤ j → j < l → IsSkipped k k' j
  pub popped : contents (k'.pqueue l) ≡ pop_front (contents (k.pqueue l))
  pub runs : (k'.proc p).state ≡ running
  pub on_cpu : k'.cpu_proc cpu ≡ p

dequeue_empty : (q : RunQueue) → ltb 0 q.tail ≡ false → dequeue q ≡ q
unfolding dequeue
dequeue_empty q h = ground arith

-- One step pops level `i`, and changes nothing else.
pop_head-pqueue :
    (i : ℕ) (k : Kernel) (j : ℕ)
    → (pop_head i k).pqueue j ≡ (if i == j then dequeue (k.pqueue j) else k.pqueue j)
unfolding pop_head pop_proc
pop_head-pqueue i k j = ground (arith, dequeue_empty (k.pqueue i))

pop_head-proc : (i : ℕ) (k : Kernel) (p : ℕ) → (pop_head i k).proc p ≡ k.proc p
unfolding pop_head pop_proc
pop_head-proc i k p = ground arith

runnable_head-pop_head :
    (i : ℕ) (k : Kernel) (j : ℕ) → i < j → runnable_head j (pop_head i k) ≡ runnable_head j k
unfolding runnable_head
runnable_head-pop_head i k j h =
    ground (arith, pop_head-pqueue i k j, pop_head-proc i k ((k.pqueue j).qproc 0))

-- The loop leaves the levels above its first one alone.
pick-below : (cpu n i : ℕ) (k : Kernel) (j : ℕ) → j < i → (pick cpu n i k).0.pqueue j ≡ k.pqueue j
unfolding pick dispatch
pick-below cpu zero i k j h = refl
pick-below cpu (suc n) i k j h =
    ground (arith, pick-below cpu n (i + 1) (pop_head i k) j, pop_head-pqueue i k j)

popped_here :
    (i : ℕ) (k : Kernel) → contents ((pop_head i k).pqueue i) ≡ pop_front (contents (k.pqueue i))
popped_here i k =
    let same : (pop_head i k).pqueue i ≡ dequeue (k.pqueue i) =
      ground (arith, pop_head-pqueue i k i) in
    rw same (dequeue-pop_front (k.pqueue i))

dispatch-IsChosen :
    (cpu i : ℕ) (k : Kernel)
    → runnable_head i k ≡ true
    → let p = (k.pqueue i).qproc 0 in IsChosen cpu i i p k (dispatch cpu p (pop_head i k))
unfolding dispatch
dispatch-IsChosen cpu i k h = record {
  from = omega arith;
  head = h;
  is_head = refl;
  above = λ j a b. absurd (omega arith);
  popped = popped_here i k;
  runs = ground arith;
  on_cpu = ground arith;
}

kept : (i : ℕ) (k : Kernel) (j : ℕ) → i < j → (pop_head i k).pqueue j ≡ k.pqueue j
kept i k j h = ground (arith, pop_head-pqueue i k j)

-- The levels passed from `i + 1` on, and level `i` itself.
IsSkipped-step :
    (cpu i m n : ℕ) (k : Kernel)
    → runnable_head i k ≡ false
    → ((j : ℕ)
        → i + 1 ≤ j
        → j < m
        → IsSkipped (pop_head i k) (pick cpu n (i + 1) (pop_head i k)).0 j)
    → (j : ℕ) → i ≤ j
    → j < m
    → IsSkipped k (pick cpu n (i + 1) (pop_head i k)).0 j
IsSkipped-step cpu i m n k h rest j a b = elim (Bool-cases (i == j)) [
  | inl same ↦ rw (← (==_iff i j).0 same) (record {
    no_head = h;
    popped = rw (pick-below cpu n (i + 1) (pop_head i k) i (omega arith)) (popped_here i k);
  })
  | inr differ ↦
      let below : i < j = ground arith in
      let s = rest j (omega arith) b in
      record {
        no_head = sym (runnable_head-pop_head i k j below) ∙ s.no_head;
        popped = s.popped ∙ ap (λ q. pop_front (contents q)) (kept i k j below);
      }
]

-- A result for the levels below `i` is a result for `i` too, if `i` has no runnable head.
IsChosen-step :
    (cpu i l p n : ℕ) (k : Kernel)
    → runnable_head i k ≡ false
    → IsChosen cpu (i + 1) l p (pop_head i k) (pick cpu n (i + 1) (pop_head i k)).0
    → IsChosen cpu i l p k (pick cpu n (i + 1) (pop_head i k)).0
IsChosen-step cpu i l p n k h c =
    let below : i < l = omega (arith, c.from) in
    record {
      from = omega arith;
      head = sym (runnable_head-pop_head i k l below) ∙ c.head;
      is_head = c.is_head ∙ ap (λ (q : RunQueue). q.qproc 0) (kept i k l below);
      above = IsSkipped-step cpu i l n k h c.above;
      popped = c.popped ∙ ap (λ q. pop_front (contents q)) (kept i k l below);
      runs = c.runs;
      on_cpu = c.on_cpu;
    }

-- The loop over `n` levels from `i` on switches to a process only if it is the runnable one at
-- the front of the first of these levels that has a runnable process at its front. The process is
-- then marked as running on this processor, and what stood at the front of the levels from `i`
-- down to its own is gone.
pub pick-IsChosen :
    (n cpu i p : ℕ) (k : Kernel)
    → (pick cpu n i k).1 ≡ some p
    → (l : ℕ) × (l < i + n) × IsChosen cpu i l p k (pick cpu n i k).0
unfolding pick
pick-IsChosen zero cpu i p k h = cc
pick-IsChosen (suc n) cpu i p k h = elim (Bool-cases (runnable_head i k)) [
  | inl here ↦
      let found : (k.pqueue i).qproc 0 ≡ p = ground arith in
      (i, omega arith, rw (here, ← found) (dispatch-IsChosen cpu i k here))
  | inr further ↦
      let (l, low, c) = pick-IsChosen n cpu (i + 1) p (pop_head i k) (rw (further, pick) at h) in
      (l, omega arith, rw further (IsChosen-step cpu i l p n k further c))
]

-- If it switches to none, then none of these levels had a runnable process at its front.
pub pick-none :
    (n cpu i : ℕ) (k : Kernel)
    → (pick cpu n i k).1 ≡ none
    → (j : ℕ) → i ≤ j
    → j < i + n
    → IsSkipped k (pick cpu n i k).0 j
unfolding pick
pick-none zero cpu i k h j a b = absurd (omega arith)
pick-none (suc n) cpu i k h j a b = elim (Bool-cases (runnable_head i k)) [
  | inl here ↦ ground arith
  | inr further ↦ rw further (
      IsSkipped-step cpu i (i + suc n) n k further
        (λ j' a' b'.
          pick-none n cpu (i + 1) (pop_head i k) (rw (further, pick) at h) j' a' (omega arith))
        j a b)
]
