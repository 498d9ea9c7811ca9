-- ===== src/Proc/Alloc/Pids.antt =====
-- Process ids are unique, and `allocproc` takes the first unused slot.
use xv6_riscv_cs.Base.{
  ==_iff, Bool-cases, ap, arith, false, inl, inr, refl, suc, sym, true, zero, ℕ, ◌%◌, ◌+◌, ◌-◌, ◌<◌,
  ◌==◌, ◌^◌, ◌∙◌, ◌≡◌, ◌≢◌, ◌≤◌, ◌⊎◌,
}
use xv6_riscv_cs.Proc.{Kernel, is_unused, Proc, nproc, State}
use xv6_riscv_cs.Proc.Alloc.{alloc_found, allocproc, freed, freeproc, fresh_counters, find_unused}

-- The ids of the live processes are below the next one, and distinct.
pub record HasUniquePids (k : Kernel) : Type 0 where
  pub below : (p : ℕ) → is_unused (k.proc p).state ≡ false → (k.proc p).pid < k.nextpid
  pub distinct :
      (p q : ℕ)
      → is_unused (k.proc p).state ≡ false
      → is_unused (k.proc q).state ≡ false
      → (k.proc p).pid ≡ (k.proc q).pid
      → p ≡ q

-- `k'` is `k` with slot `p` given a fresh id, or made unused.
module _ (k k' : Kernel) (p : ℕ) (grows : k.nextpid ≤ k'.nextpid)
    (same : (q : ℕ) → q ≢ p → k'.proc q ≡ k.proc q)
    (new : (is_unused (k'.proc p).state ≡ true)
      ⊎ ((k.nextpid ≤ (k'.proc p).pid) × ((k'.proc p).pid < k'.nextpid))) where
  live_cases :
      (q : ℕ)
      → is_unused (k'.proc q).state ≡ false
      → ((q ≡ p) × (k.nextpid ≤ (k'.proc q).pid) × ((k'.proc q).pid < k'.nextpid))
        ⊎ ((is_unused (k.proc q).state ≡ false) × ((k'.proc q).pid ≡ (k.proc q).pid))
  live_cases q live = elim (Bool-cases (q == p)) [
    | inl here ↦
        let e : q ≡ p = (==_iff q p).0 here in
        rw e (elim new [ inl gone ↦ ground arith | inr fresh ↦ inl (refl, fresh.0, fresh.1) ])
    | inr other ↦ let e = same q (ground arith) in inr (rw e at live, ap (λ (r : Proc). r.pid) e)
  ]

  HasUniquePids-set : HasUniquePids k → HasUniquePids k'
  HasUniquePids-set u = record {
    below = λ q live. elim (live_cases q live) [
      | inl here ↦ here.2
      | inr old ↦ omega (arith, u.below q old.0, old.1)
    ];
    distinct = λ q q' live live' e. elim (live_cases q live) [
      | inl here ↦ elim (live_cases q' live') [
        | inl here' ↦ here.0 ∙ sym here'.0
        | inr old' ↦ absurd (omega (arith, here.1, old'.1, u.below q' old'.0))
      ]
      | inr old ↦ elim (live_cases q' live') [
        | inl here' ↦ absurd (omega (arith, here'.1, old.1, u.below q old.0))
        | inr old' ↦ u.distinct q q' old.0 old'.0 (sym old.1 ∙ e ∙ old'.1)
      ]
    ];
  }

first_or_later :
    (i p m : ℕ) (k : Kernel)
    → is_unused (k.proc i).state ≡ false
    → ((q : ℕ) → i + 1 ≤ q → q < m → is_unused (k.proc q).state ≡ false)
    → i ≤ p
    → p < m
    → is_unused (k.proc p).state ≡ false
first_or_later i p m k taken rest a b = elim (Bool-cases (i == p)) [
  | inl same ↦ rw (← (==_iff i p).0 same) taken
  | inr later ↦ rest p (ground arith) b
]

find_unused_lem :
    (n i : ℕ) (k : Kernel)
    → 1 ≤ i
    → ((find_unused n i k ≡ 0) × ((p : ℕ) → i ≤ p → p < i + n → is_unused (k.proc p).state ≡ false))
      ⊎ ((i ≤ find_unused n i k)
          × (find_unused n i k < i + n)
          × (is_unused (k.proc (find_unused n i k)).state ≡ true)
          × ((p : ℕ) → i ≤ p → p < find_unused n i k → is_unused (k.proc p).state ≡ false))
unfolding find_unused
find_unused_lem zero i k h = inl (refl, λ p a b. absurd (omega arith))
find_unused_lem (suc n) i k h = elim (Bool-cases (is_unused (k.proc i).state)) [
  | inl here ↦ rw here (inr (omega arith, omega arith, here, λ p a b. absurd (omega arith)))
  | inr taken ↦
      let upto =
        λ (m : ℕ) (rest : (p : ℕ) → i + 1 ≤ p → p < m → is_unused (k.proc p).state ≡ false) (p : ℕ)
            (a : i ≤ p) (b : p < m).
          first_or_later i p m k taken rest a b in
      rw taken (elim (find_unused_lem n (i + 1) k (omega arith)) [
        | inl none_left ↦ inl (none_left.0, λ p a b. upto (i + 1 + n) none_left.1 p a (omega arith))
        | inr found ↦ inr (omega (arith, found.0), omega (arith, found.1), found.2, upto _ found.3)
      ])
]

alloc_found-HasUniquePids :
    (p trapframe pagetable : ℕ) (k : Kernel)
    → HasUniquePids k
    → k.nextpid < 2 ^ 31 - 1
    → HasUniquePids (alloc_found p trapframe pagetable k).0
unfolding alloc_found freed fresh_counters
alloc_found-HasUniquePids p trapframe pagetable k u lt =
    HasUniquePids-set k (alloc_found p trapframe pagetable k).0 p (ground arith)
      (λ q ne. ground arith) (ground arith) u

-- `allocproc` keeps the process ids unique and below `nextpid`, whether it succeeds or not, as long as
-- `nextpid` is below the largest `int`.
pub allocproc-HasUniquePids :
    (trapframe pagetable : ℕ) (k : Kernel)
    → HasUniquePids k
    → k.nextpid < 2 ^ 31 - 1
    → HasUniquePids (allocproc trapframe pagetable k).0
unfolding allocproc
allocproc-HasUniquePids trapframe pagetable k u lt =
    elim (Bool-cases (find_unused nproc 1 k == 0)) [
      | inl full ↦ rw full u
      | inr found ↦
          rw found (alloc_found-HasUniquePids (find_unused nproc 1 k) trapframe pagetable k u lt)
    ]

-- `freeproc` keeps the process ids unique.
pub freeproc-HasUniquePids : (p : ℕ) (k : Kernel) → HasUniquePids k → HasUniquePids (freeproc p k).0
unfolding freeproc freed
freeproc-HasUniquePids p k u =
    HasUniquePids-set k (freeproc p k).0 p (omega arith) (λ q ne. ground arith) (inl (ground arith))
      u

-- With memory for the trap frame and the page table `allocproc` takes the first unused slot, gives
-- it the next id and leaves every other slot alone; it fails only when no slot is unused.
pub allocproc-takes :
    (trapframe pagetable : ℕ) (k : Kernel)
    → trapframe ≢ 0
    → pagetable ≢ 0
    → let (k', p, calls) = allocproc trapframe pagetable k in
      ((p ≡ 0) × (k' ≡ k) × ((q : ℕ) → 1 ≤ q → q ≤ nproc → is_unused (k.proc q).state ≡ false))
      ⊎ ((is_unused (k.proc p).state ≡ true)
          × ((q : ℕ) → 1 ≤ q → q < p → is_unused (k.proc q).state ≡ false)
          × ((k'.proc p).state ≡ State.used)
          × ((k'.proc p).pid ≡ k.nextpid)
          × (k'.nextpid ≡ (k.nextpid + 1) % 2 ^ 32)
          × ((q : ℕ) → q ≢ p → k'.proc q ≡ k.proc q))
unfolding allocproc alloc_found fresh_counters
allocproc-takes trapframe pagetable k tf pt = elim (find_unused_lem nproc 1 k (omega arith)) [
  | inl full ↦ rw full.0 (inl (refl, refl, λ q a b. full.1 q a (omega arith)))
  | inr found ↦
      let some_found : (find_unused nproc 1 k == 0) ≡ false = ground (arith, found.0) in
      let tf' : (trapframe == 0) ≡ false = ground arith in
      let pt' : (pagetable == 0) ≡ false = ground arith in
      rw (some_found, tf', pt')
        (inr (found.2, found.3, ground arith, ground arith, ground arith, λ q ne. ground arith))
]
