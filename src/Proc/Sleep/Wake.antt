-- ===== src/Proc/Sleep/Wake.antt =====
-- Theorems of `sleep` and `wakeup`.
use xv6_riscv_cs.Base.{
  Bool, List, [], arith, if◌then◌else◌, leb, ltb, not, refl, suc, zero, ℕ, ◌&&◌, ◌+◌, ◌<◌, ◌==◌,
  ◌∙◌, ◌∷◌, ◌≡◌,
}
use xv6_riscv_cs.Proc.{runnable, Kernel, is_sleeping, nproc}
use xv6_riscv_cs.Proc.Queue.{push_proc, contents}
use xv6_riscv_cs.Proc.Sleep.{wakeup, wakeup_loop, wakeup_one}
use xv6_riscv_cs.Proc.Queue.Fifo.{push_bounded, enqueue-push_bounded}

-- The process sleeps on the channel, and is not the caller.
abbrev pub sleeps_on : ℕ → ℕ → Kernel → ℕ → Bool
sleeps_on chan me k p = not (p == me) && (is_sleeping (k.proc p).state && (k.proc p).chan == chan)

pub wakeup_one-proc :
    (chan me p : ℕ) (k : Kernel) (j : ℕ)
    → (wakeup_one chan me p k).proc j ≡ (
        if (p == j) && sleeps_on chan me k j
        then record (k.proc j) { state = runnable }
        else k.proc j)
unfolding wakeup_one push_proc
wakeup_one-proc chan me p k j = ground arith

wakeup_loop-proc :
    (n p chan me : ℕ) (k : Kernel) (j : ℕ)
    → (wakeup_loop n p chan me k).proc j ≡ (
        if (leb p j && ltb j (p + n)) && sleeps_on chan me k j
        then record (k.proc j) { state = runnable }
        else k.proc j)
unfolding wakeup_loop
wakeup_loop-proc zero p chan me k j = ground arith
wakeup_loop-proc (suc n) p chan me k j = ground (
  arith,
  wakeup_loop-proc n (p + 1) chan me (wakeup_one chan me p k) j,
  wakeup_one-proc chan me p k j,
)

-- `wakeup` makes exactly the processes that sleep on the channel runnable, the caller excepted,
-- and changes nothing else in the process table.
pub wakeup-proc :
    (chan me : ℕ) (k : Kernel) (p : ℕ)
    → (wakeup chan me k).proc p ≡ (
        if (leb 1 p && ltb p (1 + nproc)) && sleeps_on chan me k p
        then record (k.proc p) { state = runnable }
        else k.proc p)
unfolding wakeup
wakeup-proc chan me k p = wakeup_loop-proc nproc 1 chan me k p

-- Those among `n` processes from `p` on that sleep on the channel and are at the level.
unfoldable pub woken : ℕ → ℕ → ℕ → ℕ → ℕ → Kernel → List ℕ
woken zero p chan me l k = []
woken (suc n) p chan me l k =
    if sleeps_on chan me k p && ((k.proc p).qlevel == l)
    then p ∷ woken n (p + 1) chan me l k
    else woken n (p + 1) chan me l k

unfoldable pub push_all : List ℕ → List ℕ → List ℕ
push_all ps [] = ps
push_all ps (w ∷ ws) = push_all (push_bounded ps w) ws

pub wakeup_one-push_all :
    (chan me p l : ℕ) (k : Kernel)
    → contents ((wakeup_one chan me p k).pqueue l)
      ≡ push_all (contents (k.pqueue l)) (woken 1 p chan me l k)
unfolding wakeup_one push_proc woken push_all
wakeup_one-push_all chan me p l k =
    ground (arith, enqueue-push_bounded (k.pqueue (k.proc p).qlevel) p)

-- Waking a process does not make another one sleep, and moves none to another level.
woken-wakeup_one :
    (n q chan me l p : ℕ) (k : Kernel)
    → p < q
    → woken n q chan me l (wakeup_one chan me p k) ≡ woken n q chan me l k
unfolding woken
woken-wakeup_one zero q chan me l p k h = refl
woken-wakeup_one (suc n) q chan me l p k h =
    ground (arith, woken-wakeup_one n (q + 1) chan me l p k, wakeup_one-proc chan me p k q)

woken-suc :
    (n p chan me l : ℕ) (k : Kernel) (ps : List ℕ)
    → push_all (push_all ps (woken 1 p chan me l k)) (woken n (p + 1) chan me l k)
      ≡ push_all ps (woken (suc n) p chan me l k)
unfolding woken push_all
woken-suc n p chan me l k ps = ground arith

wakeup_loop-push_all :
    (n p chan me l : ℕ) (k : Kernel)
    → contents ((wakeup_loop n p chan me k).pqueue l)
      ≡ push_all (contents (k.pqueue l)) (woken n p chan me l k)
unfolding wakeup_loop
wakeup_loop-push_all zero p chan me l k = unfold woken push_all in refl
wakeup_loop-push_all (suc n) p chan me l k =
    wakeup_loop-push_all n (p + 1) chan me l (wakeup_one chan me p k)
    ∙ rw (wakeup_one-push_all chan me p l k, woken-wakeup_one n (p + 1) chan me l p k (omega arith))
        (woken-suc n p chan me l k (contents (k.pqueue l)))

-- `wakeup` puts the woken processes of each level at the end of that level's queue, in the order
-- of the process table, as far as the queue has room.
pub wakeup-push_all :
    (chan me l : ℕ) (k : Kernel)
    → contents ((wakeup chan me k).pqueue l)
      ≡ push_all (contents (k.pqueue l)) (woken nproc 1 chan me l k)
unfolding wakeup
wakeup-push_all chan me l k = wakeup_loop-push_all nproc 1 chan me l k
