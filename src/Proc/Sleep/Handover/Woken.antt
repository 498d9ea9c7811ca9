-- ===== src/Proc/Sleep/Handover/Woken.antt =====
-- What a round of `wakeup` in kernel/proc.c does to a process that sleeps or that can run again.
use xv6_riscv_cs.Base.{
  Bool-cases, List, [], arith, inl, inr, length, ltb, refl, subst, sym, true, ℕ, ◌++◌, ◌∙◌, ◌∷◌,
  ◌≡◌, ◌≢◌, ◌≤◌, ◌⊎◌,
}
use xv6_riscv_cs.Cache.Search.{IsIn}
use xv6_riscv_cs.Proc.{Kernel, State, nproc, Proc}
use xv6_riscv_cs.Proc.Queue.{contents}
use xv6_riscv_cs.Proc.Queue.Fifo.{push_bounded}
use xv6_riscv_cs.Proc.Sleep.{wakeup_one}
use xv6_riscv_cs.Proc.Sleep.Wake.{wakeup_one-proc, push_all, sleeps_on, wakeup_one-push_all, woken}

-- The process is in the queue, or the queue is full.
abbrev pub IsQueued : ℕ → List ℕ → Type 0
IsQueued me ps = IsIn me ps ⊎ (nproc ≤ length ps)

-- The process can run again.
abbrev pub IsWoken : ℕ → Kernel → Type 0
IsWoken me k =
    ((k.proc me).state ≡ State.runnable) × IsQueued me (contents (k.pqueue (k.proc me).qlevel))

abbrev pub IsAsleep : ℕ → ℕ → Kernel → Type 0
IsAsleep chan me k = ((k.proc me).state ≡ State.sleeping) × ((k.proc me).chan ≡ chan)

IsIn-append : (a : ℕ) (ps qs : List ℕ) → IsIn a ps → IsIn a (ps ++ qs)
IsIn-append a (p ∷ ps) qs (inl e) = inl e
IsIn-append a (p ∷ ps) qs (inr h) = inr (IsIn-append a ps qs h)
IsIn-append a [] qs h = absurd h

IsIn-last : (a : ℕ) (ps : List ℕ) → IsIn a (ps ++ (a ∷ []))
IsIn-last a [] = inl refl
IsIn-last a (p ∷ ps) = inr (IsIn-last a ps)

IsQueued-push : (me q : ℕ) (ps : List ℕ) → IsQueued me ps → IsQueued me (push_bounded ps q)
unfolding push_bounded
IsQueued-push me q ps h = elim (Bool-cases (ltb (length ps) nproc)) [
  | inl room ↦ elim h [
    | inl there ↦ rw room (inl (IsIn-append me ps (q ∷ []) there))
    | inr full ↦ absurd (ground (arith, room, full))
  ]
  | inr full ↦ rw full h
]

IsQueued-self : (me : ℕ) (ps : List ℕ) → IsQueued me (push_bounded ps me)
unfolding push_bounded
IsQueued-self me ps = elim (Bool-cases (ltb (length ps) nproc)) [
  | inl room ↦ rw room (inl (IsIn-last me ps))
  | inr full ↦ rw full (inr (ground (arith, full)))
]

IsQueued-push_all : (me : ℕ) (ps ws : List ℕ) → IsQueued me ps → IsQueued me (push_all ps ws)
unfolding push_all
IsQueued-push_all me ps [] h = h
IsQueued-push_all me ps (w ∷ ws) h =
    IsQueued-push_all me (push_bounded ps w) ws (IsQueued-push me w ps h)

-- A round of `wakeup` for the process wakes it, and the other rounds leave it as it is.
pub wakeup_one-IsWoken :
    (chan me other : ℕ) (k : Kernel)
    → me ≢ other
    → IsAsleep chan me k
    → IsWoken me (wakeup_one chan other me k)
unfolding woken push_all
wakeup_one-IsWoken chan me other k ne (sleeps, on) =
    let l = (k.proc me).qlevel in
    let test : sleeps_on chan other k me ≡ true = rw sleeps (ground (arith, ne, on)) in
    let woken_me : (wakeup_one chan other me k).proc me
        ≡ record (k.proc me) { state = State.runnable } =
      ground (arith, wakeup_one-proc chan other me k me, test) in
    let pushed : contents ((wakeup_one chan other me k).pqueue l)
        ≡ push_bounded (contents (k.pqueue l)) me =
      wakeup_one-push_all chan other me l k ∙ ground (arith, test) in
    subst
      (λ (r : Proc).
        (r.state ≡ State.runnable)
        × IsQueued me (contents ((wakeup_one chan other me k).pqueue r.qlevel)))
      (sym woken_me)
      (refl, subst (IsQueued me) (sym pushed) (IsQueued-self me (contents (k.pqueue l))))

pub wakeup_one-other :
    (chan me other q : ℕ) (k : Kernel) → q ≢ me → (wakeup_one chan other q k).proc me ≡ k.proc me
wakeup_one-other chan me other q k ne = ground (arith, wakeup_one-proc chan other q k me)

pub wakeup_one-keeps :
    (chan me other q : ℕ) (k : Kernel)
    → q ≢ me
    → IsWoken me k
    → IsWoken me (wakeup_one chan other q k)
wakeup_one-keeps chan me other q k ne (runs, queued) =
    let l = (k.proc me).qlevel in
    subst
      (λ (r : Proc).
        (r.state ≡ State.runnable)
        × IsQueued me (contents ((wakeup_one chan other q k).pqueue r.qlevel)))
      (sym (wakeup_one-other chan me other q k ne))
      (
        runs,
        subst (IsQueued me) (sym (wakeup_one-push_all chan other q l k))
            (IsQueued-push_all me (contents (k.pqueue l)) (woken 1 q chan other l k) queued),
      )
