-- ===== src/Vm/Swap/Slots.antt =====
-- Theorems of the swap slots.
use xv6_riscv_cs.Base.{
  Bool-cases, Option, ap, arith, inl, inr, none, refl, some, suc, sym, update, zero, ℕ, ◌+◌, ◌<◌,
  ◌==◌, ◌∙◌, ◌≡◌, ◌≢◌, ◌≤◌,
}
use xv6_riscv_cs.Vm.Swap.{max_sp, alloc_slot, alloc_swap_index, free_swap_index, get_swap_addr}

alloc_slot-found :
    (n i s : ℕ) (mask : ℕ → ℕ)
    → (alloc_slot n i mask).1 ≡ some s
    → (i ≤ s)
      × (s < i + n)
      × (mask s ≡ 0)
      × ((alloc_slot n i mask).0 ≡ update mask s 1)
      × ((j : ℕ) → i ≤ j → j < s → mask j ≢ 0)
unfolding alloc_slot
alloc_slot-found zero i s mask h = cc
alloc_slot-found (suc n) i s mask h = elim (Bool-cases (mask i == 0)) [
  | inl here ↦
      let e : i ≡ s = ground arith in
      rw (here, e) (omega arith, omega arith, ground arith, refl, λ j a b. absurd (omega arith))
  | inr taken ↦
      let (lo, hi, zero_there, m, before) =
        alloc_slot-found n (i + 1) s mask (rw (taken, alloc_slot) at h) in
      (
        omega arith,
        omega arith,
        zero_there,
        rw taken m,
        λ j a b. elim (Bool-cases (i == j)) [
          | inl same ↦ ground arith
          | inr later ↦ before j (ground arith) b
        ],
      )
]

alloc_slot-full :
    (n i : ℕ) (mask : ℕ → ℕ)
    → (alloc_slot n i mask).1 ≡ none
    → ((alloc_slot n i mask).0 ≡ mask) × ((j : ℕ) → i ≤ j → j < i + n → mask j ≢ 0)
unfolding alloc_slot
alloc_slot-full zero i mask h = (refl, λ j a b. absurd (omega arith))
alloc_slot-full (suc n) i mask h = elim (Bool-cases (mask i == 0)) [
  | inl here ↦ ground arith
  | inr taken ↦
      let (m, rest) = alloc_slot-full n (i + 1) mask (rw (taken, alloc_slot) at h) in
      (
        rw taken m,
        λ j a b. elim (Bool-cases (i == j)) [
          | inl same ↦ ground arith
          | inr later ↦ rest j (ground arith) (omega arith)
        ],
      )
]

-- `alloc_swap_index` marks and returns the first free slot, so that no two holders share one; it
-- returns -1 only when every slot is taken, and then changes nothing.
pub alloc_swap_index_lem :
    (mask : ℕ → ℕ)
    → let (mask', r) = alloc_swap_index mask in
      ((s : ℕ)
        → r ≡ some s
        → (s < max_sp) × (mask s ≡ 0) × (mask' ≡ update mask s 1) × ((j : ℕ) → j < s → mask j ≢ 0))
      × (r ≡ none → (mask' ≡ mask) × ((j : ℕ) → j < max_sp → mask j ≢ 0))
unfolding alloc_swap_index
alloc_swap_index_lem mask = (
  λ s h.
      let (lo, hi, free, m, before) = alloc_slot-found max_sp 0 s mask h in
      (omega arith, free, m, λ j b. before j (omega arith) b),
  λ h.
      let (m, rest) = alloc_slot-full max_sp 0 mask h in
      (m, λ j b. rest j (omega arith) (omega arith)),
)

-- Freeing the slot that was allocated last restores the map of slots.
pub free_swap_index-alloc :
    (mask mask' : ℕ → ℕ) (s : ℕ)
    → alloc_swap_index mask ≡ (mask', some s)
    → (j : ℕ) → free_swap_index s mask' j ≡ mask j
unfolding free_swap_index
free_swap_index-alloc mask mask' s h j =
    let found = (alloc_swap_index_lem mask).0 s (ap (λ (r : (ℕ → ℕ) × Option ℕ). r.1) h) in
    let marked : mask' ≡ update mask s 1 = sym (ap (λ (r : (ℕ → ℕ) × Option ℕ). r.0) h) ∙ found.2 in
    rw marked (ground (arith, found.1))

-- Two slots of the swap area do not overlap.
pub get_swap_addr_apart : (i j : ℕ) → i < j → get_swap_addr i + 4096 ≤ get_swap_addr j
unfolding get_swap_addr
get_swap_addr_apart i j h = omega arith
