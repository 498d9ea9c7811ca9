-- ===== src/Proc/Wait/Reap.antt =====
-- Theorems of `kwait`.
use xv6_riscv_cs.Base.{
  ==_iff, Bool, Bool-cases, List, arith, false, inl, inr, refl, suc, true, zero, ℕ, ◌&&◌, ◌+◌, ◌<◌,
  ◌==◌, ◌||◌, ◌≡◌, ◌≢◌, ◌≤◌, ◌⊎◌,
}
use xv6_riscv_cs.Proc.{Kernel, is_zombie, State, nproc}
use xv6_riscv_cs.Proc.Wait.{
  Outcome, Copyout, reap, wait_end, wait_scan, kwait_round, fault, nobody, reaped, waits,
}
use xv6_riscv_cs.Proc.Alloc.{Call, freed, freeproc}
use xv6_riscv_cs.Proc.Sleep.{sleep_enter}

abbrev pub zombie_child : ℕ → Kernel → ℕ → Bool
zombie_child me k p = ((k.proc p).parent == me) && is_zombie (k.proc p).state

-- No process from `i` up to `m` is a zombie child.
abbrev pub NoZombie : ℕ → Kernel → ℕ → ℕ → Type 0
NoZombie me k i m = (q : ℕ) → i ≤ q → q < m → zombie_child me k q ≡ false

-- Some process from `i` up to `m` is a child, or it is known that there is one.
abbrev pub Child : ℕ → Kernel → Bool → ℕ → ℕ → Type 0
Child me k kids i m = (kids ≡ true) ⊎ ((q : ℕ) × (i ≤ q) × (q < m) × ((k.proc q).parent ≡ me))

abbrev pub NoChild : ℕ → Kernel → Bool → ℕ → ℕ → Type 0
NoChild me k kids i m = (kids ≡ false) × ((q : ℕ) → i ≤ q → q < m → (k.proc q).parent ≢ me)

-- The zombie child that the scan comes to first.
pub record IsFirstZombie (me : ℕ) (k : Kernel) (i m p : ℕ) : Type 0 where
  pub from : i ≤ p
  pub upto : p < m
  pub is_child : (k.proc p).parent ≡ me
  pub ended : is_zombie (k.proc p).state ≡ true
  pub before : NoZombie me k i p

NoZombie-step :
    (me i m : ℕ) (k : Kernel)
    → zombie_child me k i ≡ false
    → NoZombie me k (i + 1) m
    → NoZombie me k i m
NoZombie-step me i m k h rest q a b = elim (Bool-cases (i == q)) [
  | inl same ↦ rw (← (==_iff i q).0 same) h
  | inr later ↦ rest q (ground arith) b
]

Child-step :
    (me i m : ℕ) (k : Kernel) (kids : Bool)
    → i < m
    → Child me k (kids || ((k.proc i).parent == me)) (i + 1) m
    → Child me k kids i m
Child-step me i m k kids lt (inl known) = elim (Bool-cases ((k.proc i).parent == me)) [
  | inl child ↦ inr (i, omega arith, lt, (==_iff _ _).0 child)
  | inr other ↦ inl (ground arith)
]
Child-step me i m k kids lt (inr (q, a, b, e)) = inr (q, omega arith, b, e)

NoChild-step :
    (me i m : ℕ) (k : Kernel) (kids : Bool)
    → NoChild me k (kids || ((k.proc i).parent == me)) (i + 1) m
    → NoChild me k kids i m
NoChild-step me i m k kids (none_known, rest) = (
  ground arith,
  λ q a b. elim (Bool-cases (i == q)) [
    | inl same ↦ ground arith
    | inr later ↦ rest q (ground arith) b
  ],
)

module _ (copyout : Copyout) (addr me : ℕ) (k : Kernel) where
  abbrev Scanned : ℕ → ℕ → Bool → Kernel × Outcome × List Call → Type 0
  Scanned i m kids r =
      ((p : ℕ) × IsFirstZombie me k i m p × (r ≡ reap copyout addr p k))
      ⊎ (NoZombie me k i m
          × ((Child me k kids i m × (r ≡ wait_end me true k))
              ⊎ (NoChild me k kids i m × (r ≡ wait_end me false k))))

  wait_scan-Scanned :
      (n i : ℕ) (kids : Bool) → Scanned i (i + n) kids (wait_scan n i copyout addr me kids k)
  unfolding wait_scan
  wait_scan-Scanned zero i true = inr (λ q a b. absurd (omega arith), inl (inl refl, refl))
  wait_scan-Scanned zero i false =
      inr (λ q a b. absurd (omega arith), inr ((refl, λ q a b. absurd (omega arith)), refl))
  wait_scan-Scanned (suc n) i kids = elim (Bool-cases (zombie_child me k i)) [
    | inl here ↦ rw here (
        inl (
          i,
          record {
            from = omega arith;
            upto = omega arith;
            is_child = ground arith;
            ended = ground arith;
            before = λ q a b. absurd (omega arith);
          },
          refl,
        ))
    | inr further ↦ rw further (
        let e : i + suc n ≡ i + 1 + n = omega arith in
        rw e (elim (wait_scan-Scanned n (i + 1) (kids || ((k.proc i).parent == me))) [
          | inl (p, f, r) ↦ inl (
            p,
            record {
              from = omega (arith, f.from);
              upto = f.upto;
              is_child = f.is_child;
              ended = f.ended;
              before = NoZombie-step me i p k further f.before;
            },
            r,
          )
          | inr (no_zombie, inl (child, r)) ↦ inr (
            NoZombie-step me i (i + 1 + n) k further no_zombie,
            inl (Child-step me i (i + 1 + n) k kids (omega arith) child, r),
          )
          | inr (no_zombie, inr (no_child, r)) ↦ inr (
            NoZombie-step me i (i + 1 + n) k further no_zombie,
            inr (NoChild-step me i (i + 1 + n) k kids no_child, r),
          )
        ]))
  ]

  reap-outcome :
      (p : ℕ)
      → ((reap copyout addr p k).1 ≡ fault)
        ⊎ (((reap copyout addr p k).1 ≡ reaped (k.proc p).pid)
            × (((reap copyout addr p k).0.proc p).state ≡ State.unused))
  unfolding reap freeproc freed
  reap-outcome p = ground arith

  wait_end-outcome :
      (kids : Bool)
      → (((wait_end me kids k).1 ≡ nobody)
          × ((wait_end me kids k).0 ≡ k)
          × ((kids ≡ false) ⊎ ((k.proc me).killed ≢ 0)))
        ⊎ (((wait_end me kids k).1 ≡ waits)
            × (kids ≡ true)
            × ((k.proc me).killed ≡ 0)
            × ((wait_end me kids k).0 ≡ sleep_enter me me k))
  unfolding wait_end
  wait_end-outcome kids = ground arith

  -- A round of `kwait` returns an id only by reaping the first zombie child of the table, whose id
  -- it returns and whose slot is unused afterwards.
  pub kwait-reaped :
      (pid : ℕ)
      → (kwait_round copyout addr me k).1 ≡ reaped pid
      → (p : ℕ) × IsFirstZombie me k 1 (1 + nproc) p
        × (pid ≡ (k.proc p).pid)
        × (((kwait_round copyout addr me k).0.proc p).state ≡ State.unused)
  unfolding kwait_round
  kwait-reaped pid h = elim (wait_scan-Scanned nproc 1 false) [
    | inl (p, f, r) ↦ (p, f, ground (arith, reap-outcome p), ground (arith, reap-outcome p))
    | inr (no_zombie, inl (child, r)) ↦ ground (arith, wait_end-outcome true)
    | inr (no_zombie, inr (no_child, r)) ↦ ground (arith, wait_end-outcome false)
  ]

  -- A round goes to sleep, on the process's own address, only if the process has a child, no child
  -- is a zombie, and it is not killed.
  pub kwait-waits :
      (kwait_round copyout addr me k).1 ≡ waits
      → NoZombie me k 1 (1 + nproc)
        × ((q : ℕ) × (1 ≤ q) × (q < 1 + nproc) × ((k.proc q).parent ≡ me))
        × ((k.proc me).killed ≡ 0)
        × ((kwait_round copyout addr me k).0 ≡ sleep_enter me me k)
  unfolding kwait_round
  kwait-waits h = elim (wait_scan-Scanned nproc 1 false) [
    | inl (p, f, r) ↦ ground (arith, reap-outcome p)
    | inr (no_zombie, inl (inl known, r)) ↦ ground arith
    | inr (no_zombie, inl (inr child, r)) ↦ (
      no_zombie,
      child,
      ground (arith, wait_end-outcome true),
      ground (arith, wait_end-outcome true),
    )
    | inr (no_zombie, inr (no_child, r)) ↦ ground (arith, wait_end-outcome false)
  ]

  -- A round reports that there is nothing to wait for only if no child is a zombie, and the
  -- process has no child or is killed; then nothing changes.
  pub kwait-nobody :
      (kwait_round copyout addr me k).1 ≡ nobody
      → NoZombie me k 1 (1 + nproc)
        × (((q : ℕ) → 1 ≤ q → q < 1 + nproc → (k.proc q).parent ≢ me) ⊎ ((k.proc me).killed ≢ 0))
        × ((kwait_round copyout addr me k).0 ≡ k)
  unfolding kwait_round
  kwait-nobody h = elim (wait_scan-Scanned nproc 1 false) [
    | inl (p, f, r) ↦ ground (arith, reap-outcome p)
    | inr (no_zombie, inl (child, r)) ↦ (
      no_zombie,
      inr (ground (arith, wait_end-outcome true)),
      ground (arith, wait_end-outcome true),
    )
    | inr (no_zombie, inr (no_child, r)) ↦
        (no_zombie, inl no_child.1, ground (arith, wait_end-outcome false))
  ]
