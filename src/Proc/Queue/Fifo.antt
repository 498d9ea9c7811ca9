-- ===== src/Proc/Queue/Fifo.antt =====
-- The run queues of kernel/proc.c are bounded FIFO queues.
use xv6_riscv_cs.Base.{
  ==_iff, Bool-cases, List, [], ap, ap₂, arith, false, if◌then◌else◌, inl, inr, leb, length,
  length-slice, ltb, lt→ltb, refl, slice, slice-suc, slice_congr, suc, true, update, update_ne,
  update_self, zero, ℕ, ◌&&◌, ◌++◌, ◌+◌, ◌-◌, ◌<◌, ◌==◌, ◌^◌, ◌∙◌, ◌∷◌, ◌≡◌, ◌≤◌,
}
use xv6_riscv_cs.Proc.{RunQueue, Kernel, nproc, levels}
use xv6_riscv_cs.Proc.Queue.{qinit, enqueue, dequeue, shift, push_proc, contents}

-- The loop of `pop_proc` moves each entry behind index `i - 1` down by one.
shift_lem :
    (n i : ℕ) (f : ℕ → ℕ) (j : ℕ)
    → 0 < i
    → shift n i f j ≡ (if leb i (j + 1) && ltb (j + 1) (i + n) then f (j + 1) else f j)
unfolding shift
shift_lem zero i f j h = ground arith
shift_lem (suc n) i f j h =
    ground (arith, shift_lem n (i + 1) (update f (i - 1) (f i)) j (omega arith))

slice-shift :
    (n i : ℕ) (f g : ℕ → ℕ)
    → ((j : ℕ) → i ≤ j → j < i + n → g j ≡ f (j + 1))
    → slice g i n ≡ slice f (i + 1) n
slice-shift zero i f g h = refl
slice-shift (suc n) i f g h =
    ap₂ ◌∷◌ (h i (omega arith) (omega arith))
      (slice-shift n (i + 1) f g (λ j a b. h j (omega arith) (omega arith)))

-- An abstract queue of at most NPROC processes.
unfoldable pub push_bounded : List ℕ → ℕ → List ℕ
push_bounded ps p = if ltb (length ps) nproc then ps ++ (p ∷ []) else ps

unfoldable pub pop_front : List ℕ → List ℕ
pop_front [] = []
pop_front (p ∷ ps) = ps

pub push_bounded-room :
    (ps : List ℕ) (p : ℕ) → length ps < nproc → push_bounded ps p ≡ ps ++ (p ∷ [])
unfolding push_bounded
push_bounded-room ps p h = rw (lt→ltb (length ps) nproc h)

slice-update_end : (f : ℕ → ℕ) (n p : ℕ) → slice (update f n p) 0 (n + 1) ≡ slice f 0 n ++ (p ∷ [])
slice-update_end f n p =
    ap (slice (update f n p) 0) {x = n + 1} {y = suc n} (omega arith)
    ∙ slice-suc (update f n p) 0 n
    ∙ ap₂ (λ ps v. ps ++ (v ∷ []))
        (slice_congr (update f n p) f 0 n (λ j a b. update_ne f n j p (omega arith)))
        (ap (update f n p) {x = 0 + n} {y = n} (omega arith) ∙ update_self f n p)

-- `push_proc` puts the process behind the others, and drops it when the queue holds NPROC.
pub enqueue-push_bounded :
    (q : RunQueue) (p : ℕ) → contents (enqueue q p) ≡ push_bounded (contents q) p
unfolding enqueue push_bounded
enqueue-push_bounded q p = elim (Bool-cases (ltb q.tail nproc)) [
  | inl room ↦ rw (room, length-slice q.qproc 0 q.tail, room) (slice-update_end q.qproc q.tail p)
  | inr full ↦ rw (full, length-slice q.qproc 0 q.tail, full)
]

pop_front-slice :
    (f : ℕ → ℕ) (t : ℕ)
    → contents (dequeue (record { qproc = f; tail = t })) ≡ pop_front (slice f 0 t)
unfolding dequeue pop_front
pop_front-slice f zero = refl
pop_front-slice f (suc n) =
    let some_left : ltb (suc n) 1 ≡ false = ground arith in
    let positive : ltb 0 (suc n) ≡ true = ground arith in
    let rounds : suc n - 1 ≡ n = omega arith in
    rw (some_left, positive, rounds)
      (slice-shift n 0 f (shift n 1 f) (λ j a b. ground (arith, shift_lem n 1 f j (omega arith))))

-- `pop_proc` removes the first process, and leaves an empty queue as it is.
pub dequeue-pop_front : (q : RunQueue) → contents (dequeue q) ≡ pop_front (contents q)
dequeue-pop_front q = pop_front-slice q.qproc q.tail

-- `push_proc` changes only the queue of the process's own level.
pub push_proc-push_bounded :
    (p : ℕ) (k : Kernel) (l : ℕ)
    → contents ((push_proc p k).pqueue l) ≡ (
        if (k.proc p).qlevel == l
        then push_bounded (contents (k.pqueue l)) p
        else contents (k.pqueue l))
unfolding push_proc
push_proc-push_bounded p k l = elim (Bool-cases ((k.proc p).qlevel == l)) [
  | inl same ↦ rw (same, ← (==_iff _ _).0 same) (enqueue-push_bounded _ p)
  | inr other ↦ rw other
]

pub tail-enqueue : (q : RunQueue) (p : ℕ) → q.tail ≤ nproc → (enqueue q p).tail ≤ nproc
unfolding enqueue
tail-enqueue q p h = ground arith

pub tail-dequeue : (q : RunQueue) → q.tail ≤ nproc → (dequeue q).tail ≤ nproc
unfolding dequeue
tail-dequeue q h = ground arith

-- `qinit` empties every queue, and gives level i a slice of 2 ^ (i + 1) ticks.
pub qinit_lem :
    (k : Kernel) (l : ℕ)
    → l < levels
    → (contents ((qinit k).pqueue l) ≡ []) × ((qinit k).ticks_max l ≡ 2 ^ (l + 1))
unfolding qinit
qinit_lem k zero h = (refl, refl)
qinit_lem k (suc zero) h = (refl, refl)
qinit_lem k (suc (suc zero)) h = (refl, refl)
qinit_lem k (suc (suc (suc zero))) h = (refl, refl)
qinit_lem k (suc (suc (suc (suc l)))) h = absurd (omega arith)
