-- ===== src/Virtio/Alloc.antt =====
-- The allocation of descriptors in kernel/virtio_disk.c: none is lost and none is given out twice.
use xv6_riscv_cs.Base.{
  ==_iff, Bool, Bool-cases, Option, ap, arith, false, false≢true, if◌then◌else◌, inl, inr, none,
  refl, some, subst, suc, sym, true, update, update_ne, update_self, zero, ℕ, ◌+◌, ◌<◌, ◌==◌, ◌∙◌,
  ◌≡◌, ◌≢◌, ◌≤◌, ◌⊎◌,
}
use xv6_riscv_cs.Virtio.{
  Driver, alloc_desc, find_desc, Allocation, alloc3_desc, alloc_end, alloc_middle, alloc_start,
  free_desc, num, zero_desc, fails, then_free,
}

-- How many of the first `n` descriptors are free.
unfoldable pub count_free : ℕ → (ℕ → Bool) → ℕ
count_free zero free = 0
count_free (suc n) free = (if free n then 1 else 0) + count_free n free

pub find_desc_lem :
    (n i : ℕ) (free : ℕ → Bool)
    → ((find_desc n i free ≡ none) × ((j : ℕ) → i ≤ j → j < i + n → free j ≡ false))
      ⊎ ((k : ℕ) × (find_desc n i free ≡ some k) × (i ≤ k) × (k < i + n) × (free k ≡ true))
unfolding find_desc
find_desc_lem zero i free = inl (refl, λ j a b. absurd (omega (arith, a, b)))
find_desc_lem (suc n) i free = elim (Bool-cases (free i)) [
  | inl here ↦ rw here (inr (i, refl, omega arith, omega arith, here))
  | inr not_here ↦ elim (find_desc_lem n (i + 1) free) [
    | inl (e, all) ↦
        rw (not_here, e)
          (inl (
            refl,
            λ j a b. elim (Bool-cases (i == j)) [
              | inl same ↦ ap free (sym ((==_iff i j).0 same)) ∙ not_here
              | inr other ↦ all j (ground arith) (omega (arith, b))
            ],
          ))
    | inr (k, e, a, b, h) ↦ rw (not_here, e) (inr (k, refl, omega (arith, a), omega (arith, b), h))
  ]
]

pub count_free-none :
    (n : ℕ) (free : ℕ → Bool) → ((j : ℕ) → j < n → free j ≡ false) → count_free n free ≡ 0
unfolding count_free
count_free-none zero free h = refl
count_free-none (suc n) free h =
    rw (h n (omega arith)) (omega (arith, count_free-none n free (λ j lt. h j (omega (arith, lt)))))

pub count_free-above :
    (n i : ℕ) (b : Bool) (free : ℕ → Bool)
    → n ≤ i
    → count_free n (update free i b) ≡ count_free n free
unfolding count_free
count_free-above zero i b free h = refl
count_free-above (suc n) i b free h =
    rw (update_ne free i n b (λ e. omega (arith, e, h)))
      (omega (arith, count_free-above n i b free (omega (arith, h))))

pub count_free-take :
    (n i : ℕ) (free : ℕ → Bool)
    → i < n
    → free i ≡ true
    → count_free n (update free i false) + 1 ≡ count_free n free
unfolding count_free
count_free-take zero i free lt h = absurd (omega arith)
count_free-take (suc n) i free lt h = elim (Bool-cases (i == n)) [
  | inl same ↦
      let e : free n ≡ true = ap free (sym ((==_iff i n).0 same)) ∙ h in
      rw (same, e) (omega (arith, count_free-above n i false free (ground arith)))
  | inr other ↦ rw other (omega (arith, count_free-take n i free (ground arith) h))
]

-- What `alloc_desc` gives.
abbrev pub IsTaken : Driver → Option ℕ × Driver → Type 0
IsTaken d (none, d') = (d' ≡ d) × (count_free num d.free ≡ 0)
IsTaken d (some i, d') =
    (i < num) × (d.free i ≡ true) × (d' ≡ record d { free = update d.free i false })

pub alloc_desc-IsTaken : (d : Driver) → IsTaken d (alloc_desc d)
unfolding alloc_desc
alloc_desc-IsTaken d = elim (find_desc_lem num 0 d.free) [
  | inl (e, all) ↦
      rw e (refl, count_free-none num d.free (λ j lt. all j (omega arith) (omega (arith, lt))))
  | inr (k, e, a, b, h) ↦ rw e (omega (arith, b), h, refl)
]

abbrev pub taken_desc : ℕ → Driver → Driver
taken_desc i d = record d { free = update d.free i false }

abbrev pub freed_desc : ℕ → Driver → Driver
freed_desc i d = record d { desc = update d.desc i zero_desc; free = update d.free i true }

pub free_desc-some :
    (i : ℕ) (d : Driver) → i < num → d.free i ≡ false → free_desc i d ≡ some (freed_desc i d)
unfolding free_desc
free_desc-some i d lt h = rw h (ground arith)

-- What `alloc3_desc` gives: three different descriptors that were free, and are not any more; or
-- there are fewer, and those that were taken are free again.
abbrev pub IsAllocation : Driver → Allocation → Type 0
IsAllocation d none = ⊥
IsAllocation d (some (none, d')) = (count_free num d.free < 3) × ((j : ℕ) → d'.free j ≡ d.free j)
IsAllocation d (some (some (a, b, c), d')) =
    ((a < num) × (b < num) × (c < num))
    × ((a ≢ b) × (a ≢ c) × (b ≢ c))
    × ((d.free a ≡ true) × (d.free b ≡ true) × (d.free c ≡ true))
    × (d' ≡ taken_desc c (taken_desc b (taken_desc a d)))

pub restored_one : (f : ℕ → Bool) (i j : ℕ) → f i ≡ true → update (update f i false) i true j ≡ f j
restored_one f i j h = elim (Bool-cases (i == j)) [
  | inl same ↦ rw same (sym h ∙ ap f ((==_iff i j).0 same))
  | inr other ↦ rw other refl
]

pub restored_two :
    (f : ℕ → Bool) (a b j : ℕ)
    → f a ≡ true
    → f b ≡ true
    → update (update (update (update f a false) b false) a true) b true j ≡ f j
restored_two f a b j ha hb = elim (Bool-cases (b == j)) [
  | inl same ↦ rw same (sym hb ∙ ap f ((==_iff b j).0 same))
  | inr other ↦ elim (Bool-cases (a == j)) [
    | inl same ↦ rw (other, same) (sym ha ∙ ap f ((==_iff a j).0 same))
    | inr other_a ↦ rw (other, other_a) refl
  ]
]

-- A descriptor that is free after others were taken is none of these.
pub taken_ne : (f : ℕ → Bool) (a b : ℕ) → update f a false b ≡ true → (a ≢ b) × (f b ≡ true)
taken_ne f a b h = elim (Bool-cases (a == b)) [
  | inl same ↦ absurd (false≢true (rw same at h))
  | inr other ↦ (ground (arith, other), rw other at h)
]

module _ (d : Driver) (a : ℕ) (lt_a : a < num) (free_a : d.free a ≡ true) where
  alloc_end-IsAllocation :
      (b : ℕ) (r : Option ℕ × Driver)
      → b < num
      → (taken_desc a d).free b ≡ true
      → IsTaken (taken_desc b (taken_desc a d)) r
      → IsAllocation d (alloc_end a b r)
  alloc_end-IsAllocation b (none, d') lt_b free_b (e, few) =
      let d2 = taken_desc b (taken_desc a d) in
      let (ne_ab, old_b) = taken_ne d.free a b free_b in
      let used_a : d2.free a ≡ false =
        update_ne (taken_desc a d).free b a false (λ z. ne_ab (sym z))
        ∙ update_self d.free a false in
      let used_b : (freed_desc a d2).free b ≡ false =
        update_ne d2.free a b true ne_ab ∙ update_self (taken_desc a d).free b false in
      subst (λ x. IsAllocation d (fails (then_free true (free_desc b) (free_desc a x)))) (sym e)
        (subst (λ r. IsAllocation d (fails (then_free true (free_desc b) r)))
          (sym (free_desc-some a d2 lt_a used_a))
          (subst (λ r. IsAllocation d (fails r))
            (sym (free_desc-some b (freed_desc a d2) lt_b used_b))
            (
              omega (
                arith,
                count_free-take num a d.free lt_a free_a,
                count_free-take num b (taken_desc a d).free lt_b free_b,
                few,
              ),
              λ j. restored_two d.free a b j free_a old_b,
            )))
  alloc_end-IsAllocation b (some c, d') lt_b free_b (lt_c, free_c, e) =
      let (ne_bc, free_c') = taken_ne (taken_desc a d).free b c free_c in
      let (ne_ab, old_b) = taken_ne d.free a b free_b in
      let (ne_ac, old_c) = taken_ne d.free a c free_c' in
      ((lt_a, lt_b, lt_c), (ne_ab, ne_ac, ne_bc), (free_a, old_b, old_c), e)

  alloc_middle-IsAllocation :
      (r : Option ℕ × Driver) → IsTaken (taken_desc a d) r → IsAllocation d (alloc_middle a r)
  alloc_middle-IsAllocation (none, d') (e, few) =
      subst (λ x. IsAllocation d (fails (free_desc a x))) (sym e)
        (subst (λ r. IsAllocation d (fails r))
          (sym (free_desc-some a (taken_desc a d) lt_a (update_self d.free a false)))
          (
            omega (arith, count_free-take num a d.free lt_a free_a, few),
            λ j. restored_one d.free a j free_a,
          ))
  alloc_middle-IsAllocation (some b, d') (lt_b, free_b, e) =
      subst (λ x. IsAllocation d (alloc_end a b (alloc_desc x))) (sym e)
        (alloc_end-IsAllocation b (alloc_desc (taken_desc b (taken_desc a d))) lt_b free_b
          (alloc_desc-IsTaken (taken_desc b (taken_desc a d))))

pub alloc_start-IsAllocation :
    (d : Driver) (r : Option ℕ × Driver) → IsTaken d r → IsAllocation d (alloc_start r)
alloc_start-IsAllocation d (none, d') (e, few) =
    (omega (arith, few), λ j. ap (λ (x : Driver). x.free j) e)
alloc_start-IsAllocation d (some a, d') (lt, free, e) =
    subst (λ x. IsAllocation d (alloc_middle a (alloc_desc x))) (sym e)
      (alloc_middle-IsAllocation d a lt free (alloc_desc (taken_desc a d))
        (alloc_desc-IsTaken (taken_desc a d)))

-- `alloc3_desc` never panics. It gives three different descriptors that were free, and marks no other
-- as in use; or fewer than three were free, and then the same ones are free afterwards.
pub alloc3_desc-IsAllocation : (d : Driver) → IsAllocation d (alloc3_desc d)
unfolding alloc3_desc
alloc3_desc-IsAllocation d = alloc_start-IsAllocation d (alloc_desc d) (alloc_desc-IsTaken d)
