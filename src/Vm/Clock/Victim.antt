-- ===== src/Vm/Clock/Victim.antt =====
-- Theorems of the victim search.
use xv6_riscv_cs.Base.{
  Option-cases, ap, arith, false, false≢true, if◌then◌else◌, inl, inr, ltb, none, refl, some, sym,
  true, ℕ, ◌<◌, ◌∙◌, ◌≡◌, ◌≤◌, ◌⊎◌,
}
use xv6_riscv_cs.Proc.{Kernel}
use xv6_riscv_cs.Vm.{FrameTable, nframes}
use xv6_riscv_cs.Vm.Clock.{Search, scan, find_victim, evictable}
use xv6_riscv_cs.Vm.Clock.Pass.{touched, chosen, Passed, scan-Passed, candidate, dist, level}

module _ (me : ℕ) (k : Kernel) (t : FrameTable) (h : t.clock_p < nframes) where
  start : Search
  start = record { f = t.f; clock_p = t.clock_p; to_evict = none; last_pass = false }

  first : Search
  first = scan nframes me k start

  second : Search
  second = scan nframes me k first

  first-Passed : Passed me k nframes start first
  unfolding first start
  first-Passed = scan-Passed me k nframes start h (omega arith)

  first_hand : first.clock_p ≡ t.clock_p
  unfolding start
  first_hand = omega (arith, first-Passed.hand)

  second-Passed : Passed me k nframes first second
  unfolding second
  second-Passed = scan-Passed me k nframes first (rw first_hand h) (omega arith)

  second_hand : second.clock_p ≡ t.clock_p
  second_hand = omega (arith, second-Passed.hand, first_hand)

  first_flag : first.last_pass ≡ chosen first.to_evict
  unfolding start
  first_flag = first-Passed.flag refl

  find_victim_lem : find_victim me k t ≡ (if first.last_pass then first else second)
  unfolding find_victim first second start
  find_victim_lem = refl

  -- The search ends with the first pass if that finds a page.
  find_victim-cases :
      ((find_victim me k t ≡ first) × (chosen first.to_evict ≡ true))
      ⊎ ((find_victim me k t ≡ second) × (first.to_evict ≡ none))
  find_victim-cases = elim (Option-cases first.to_evict) [
    | inl nothing ↦
        let flag : first.last_pass ≡ false = first_flag ∙ ap chosen nothing in
        inr (find_victim_lem ∙ rw flag refl, nothing)
    | inr (v, found) ↦
        let flag : first.last_pass ≡ true = first_flag ∙ ap chosen found in
        inl (find_victim_lem ∙ rw flag refl, ap chosen found)
  ]

  -- After the first pass each frame has lost its second chance.
  first_frame : (i : ℕ) → i < nframes → first.f i ≡ touched me k (t.f i)
  unfolding start
  first_frame i lt =
      let reached : ltb (dist t.clock_p i) nframes ≡ true = ground arith in
      first-Passed.frame i lt ∙ rw reached refl

  first_candidate : (i : ℕ) → i < nframes → candidate me k (first.f i) ≡ evictable me k (t.f i)
  unfolding evictable
  first_candidate i lt = rw (first_frame i lt) (ground arith)

  first_level : (i : ℕ) → i < nframes → level k (first.f i) ≡ level k (t.f i)
  first_level i lt = rw (first_frame i lt) (ground arith)

  -- What the search returns.
  pub record IsVictim (v : ℕ) : Type 0 where
    pub in_table : v < nframes
    pub may_go : evictable me k (t.f v) ≡ true
    pub second_chance :
        (i : ℕ)
        → i < nframes
        → candidate me k (t.f i) ≡ true
        → (candidate me k (t.f v) ≡ true) × (level k (t.f i) ≤ level k (t.f v))
    pub lowest :
        ((i : ℕ) → i < nframes → candidate me k (t.f i) ≡ false)
        → (i : ℕ) → i < nframes
        → evictable me k (t.f i) ≡ true
        → level k (t.f i) ≤ level k (t.f v)

  first-IsVictim : (v : ℕ) → first.to_evict ≡ some v → IsVictim v
  unfolding start
  first-IsVictim v e = elim (first-Passed.from v e) [
    | inl old ↦ ground arith
    | inr (lt, d, c) ↦ record {
      in_table = lt;
      may_go = ground arith;
      second_chance = λ i lt' c'. (c, first-Passed.best v e i lt' (omega arith) c');
      lowest = λ none_ready i lt' ev. absurd (false≢true (sym (none_ready v lt) ∙ c));
    }
  ]

  second-IsVictim : (v : ℕ) → first.to_evict ≡ none → second.to_evict ≡ some v → IsVictim v
  unfolding start
  second-IsVictim v nothing e = elim (second-Passed.from v e) [
    | inl old ↦ ground arith
    | inr (lt, d, c) ↦ record {
      in_table = lt;
      may_go = sym (first_candidate v lt) ∙ c;
      second_chance = λ i lt' c'.
          absurd (false≢true (sym ((first-Passed.none_left nothing).1 i lt' (omega arith)) ∙ c'));
      lowest = λ none_ready i lt' ev. omega (
        arith,
        second-Passed.best v e i lt' (omega arith) (first_candidate i lt' ∙ ev),
        first_level i lt',
        first_level v lt,
      );
    }
  ]

  -- The victim of `evict_page` is a page in use whose process runs on no other processor. If some
  -- such page has used up its second chance, the victim is one of these, and no other of them
  -- belongs to a process of lower priority; if none has, no evictable page at all does.
  pub find_victim-IsVictim : (v : ℕ) → (find_victim me k t).to_evict ≡ some v → IsVictim v
  find_victim-IsVictim v e = elim find_victim-cases [
    | inl (same, _) ↦ first-IsVictim v (rw same at e)
    | inr (same, nothing) ↦ second-IsVictim v nothing (rw same at e)
  ]

  -- Two passes are enough: the search finds no page, and `evict_page` panics, only if no page in
  -- the table may be evicted.
  pub find_victim-none :
      (find_victim me k t).to_evict ≡ none → (i : ℕ) → i < nframes → evictable me k (t.f i) ≡ false
  find_victim-none e i lt = elim find_victim-cases [
    | inl (same, found) ↦ absurd (false≢true (sym (ap chosen (rw same at e)) ∙ found))
    | inr (same, nothing) ↦
        sym (first_candidate i lt) ∙ (second-Passed.none_left (rw same at e)).1 i lt (omega arith)
  ]

  -- The hand ends where it began, whatever the search finds.
  pub find_victim-hand : (find_victim me k t).clock_p ≡ t.clock_p
  find_victim-hand = elim find_victim-cases [
    | inl (e, _) ↦ rw e first_hand
    | inr (e, _) ↦ rw e second_hand
  ]
