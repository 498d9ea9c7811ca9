-- ===== src/Vm/Clock/Pass.antt =====
-- What one pass of the clock does, in closed form.
use xv6_riscv_cs.Base.{
  ==_iff, Bool, Bool-cases, Option, ap, arith, false, if◌then◌else◌, inl, inr, ltb, none, not, refl,
  some, suc, sym, true, zero, ℕ, ◌%◌, ◌&&◌, ◌+◌, ◌-◌, ◌<◌, ◌==◌, ◌∙◌, ◌≡◌, ◌≢◌, ◌≤◌, ◌⊎◌,
}
use xv6_riscv_cs.Proc.{Kernel}
use xv6_riscv_cs.Vm.{Frame, nframes}
use xv6_riscv_cs.Vm.Clock.{Search, evictable, better, scan_step, scan}

-- How many rounds the hand at `c` takes to reach frame `i`.
abbrev pub dist : ℕ → ℕ → ℕ
dist c i = (i + nframes - c) % nframes

-- The page may go now: it was not given its second chance.
abbrev pub candidate : ℕ → Kernel → Frame → Bool
candidate me k v = evictable me k v && v.rb == 0

-- The frame after the hand has passed it.
abbrev pub touched : ℕ → Kernel → Frame → Frame
touched me k v = if evictable me k v && not (v.rb == 0) then record v { rb = 0 } else v

abbrev pub level : Kernel → Frame → ℕ
level k v = (k.proc v.p).qlevel

abbrev pub chosen : Option ℕ → Bool
chosen none = false
chosen (some v) = true

module _ (me : ℕ) (k : Kernel) where
  step-hand : (s : Search) → (scan_step me k s).clock_p ≡ (s.clock_p + 1) % nframes
  unfolding scan_step
  step-hand s = ground arith

  step-frame :
      (s : Search) (i : ℕ)
      → (scan_step me k s).f i ≡ (if s.clock_p == i then touched me k (s.f i) else s.f i)
  unfolding scan_step
  step-frame s i = ground arith

  step-p : (s : Search) (i : ℕ) → ((scan_step me k s).f i).p ≡ (s.f i).p
  step-p s i = ground (arith, step-frame s i)

  step-evict :
      (s : Search)
      → (scan_step me k s).to_evict ≡ (
          if candidate me k (s.f s.clock_p)
          then some (better k s.f s.to_evict s.clock_p)
          else s.to_evict)
  unfolding scan_step
  step-evict s = ground arith

  step-flag :
      (s : Search)
      → s.last_pass ≡ chosen s.to_evict
      → (scan_step me k s).last_pass ≡ chosen (scan_step me k s).to_evict
  unfolding scan_step
  step-flag s h = ground arith

  better-le :
      (f : ℕ → Frame) (o : Option ℕ) (i : ℕ)
      → (level k (f i) ≤ level k (f (better k f o i)))
        × ((better k f o i ≡ i) ⊎ (o ≡ some (better k f o i)))
        × ((u : ℕ) → o ≡ some u → level k (f u) ≤ level k (f (better k f o i)))
  unfolding better
  better-le f none i = (omega arith, inl refl, λ u e. cc)
  better-le f (some v) i = (ground arith, ground arith, λ u e. ground arith)

  -- The effect of `n` rounds on the search.
  pub record Passed (n : ℕ) (s s' : Search) : Type 0 where
    pub hand : s'.clock_p ≡ (s.clock_p + n) % nframes
    pub frame :
        (i : ℕ)
        → i < nframes
        → s'.f i ≡ (if ltb (dist s.clock_p i) n then touched me k (s.f i) else s.f i)
    pub none_left :
        s'.to_evict ≡ none
        → (s.to_evict ≡ none)
          × ((i : ℕ) → i < nframes → dist s.clock_p i < n → candidate me k (s.f i) ≡ false)
    pub from :
        (v : ℕ)
        → s'.to_evict ≡ some v
        → (s.to_evict ≡ some v)
          ⊎ ((v < nframes) × (dist s.clock_p v < n) × (candidate me k (s.f v) ≡ true))
    pub best :
        (v : ℕ)
        → s'.to_evict ≡ some v
        → (i : ℕ) → i < nframes
        → dist s.clock_p i < n
        → candidate me k (s.f i) ≡ true
        → level k (s.f i) ≤ level k (s.f v)
    pub best_old :
        (v u : ℕ) → s'.to_evict ≡ some v → s.to_evict ≡ some u → level k (s.f u) ≤ level k (s.f v)
    pub flag : s.last_pass ≡ chosen s.to_evict → s'.last_pass ≡ chosen s'.to_evict

  Passed-zero : (s : Search) → s.clock_p < nframes → Passed 0 s s
  Passed-zero s h = record {
    hand = omega arith;
    frame = λ i lt. ground arith;
    none_left = λ e. (e, λ i lt d. absurd (omega arith));
    from = λ v e. inl e;
    best = λ v e i lt d c. absurd (omega arith);
    best_old = λ v u e e'. ground arith;
    flag = λ e. e;
  }

  -- The state after the first of the rounds, seen from frame `i`.
  module _ (s : Search) (h : s.clock_p < nframes) where
    next_hand : dist (scan_step me k s).clock_p s.clock_p ≡ nframes - 1
    next_hand = rw (step-hand s) (omega arith)

    next_dist :
        (i : ℕ)
        → i < nframes
        → s.clock_p ≢ i
        → dist s.clock_p i ≡ dist (scan_step me k s).clock_p i + 1
    next_dist i lt ne = rw (step-hand s) (omega arith)

    next_frame : (i : ℕ) → s.clock_p ≢ i → (scan_step me k s).f i ≡ s.f i
    next_frame i ne = ground (arith, step-frame s i)

    next_level : (i : ℕ) → level k ((scan_step me k s).f i) ≡ level k (s.f i)
    next_level i = ap (λ p. (k.proc p).qlevel) (step-p s i)

    module _ (n : ℕ) (fits : suc n ≤ nframes) (s' : Search)
        (r : Passed n (scan_step me k s) s') where
      frame_suc :
          (i : ℕ)
          → i < nframes
          → s'.f i ≡ (if ltb (dist s.clock_p i) (suc n) then touched me k (s.f i) else s.f i)
      frame_suc i lt = elim (Bool-cases (s.clock_p == i)) [
        | inl here ↦
            let e : s.clock_p ≡ i = (==_iff _ _).0 here in
            let at_hand : dist s.clock_p i ≡ 0 = omega arith in
            let far : ltb (dist (scan_step me k s).clock_p i) n ≡ false =
              rw (← e, next_hand) (ground arith) in
            r.frame i lt ∙ rw (far, at_hand) (ground (arith, step-frame s i))
        | inr off ↦
            let ne : s.clock_p ≢ i = ground arith in
            let same : ltb (dist s.clock_p i) (suc n) ≡ ltb (dist (scan_step me k s).clock_p i) n =
              ground (arith, next_dist i lt ne) in
            rw same (r.frame i lt ∙ rw (next_frame i ne) refl)
      ]

      none_left_suc :
          s'.to_evict ≡ none
          → (s.to_evict ≡ none)
            × ((i : ℕ) → i < nframes → dist s.clock_p i < suc n → candidate me k (s.f i) ≡ false)
      none_left_suc e =
          let (old, rest) = r.none_left e in
          let kept = ground_step old in
          (
            kept.0,
            λ i lt d. elim (Bool-cases (s.clock_p == i)) [
              | inl here ↦ rw (← (==_iff s.clock_p i).0 here) kept.1
              | inr off ↦
                  let ne : s.clock_p ≢ i = ground arith in
                  rw (next_frame i ne) at (rest i lt (omega (arith, next_dist i lt ne)))
            ],
          )
        where
          ground_step :
              (scan_step me k s).to_evict ≡ none
              → (s.to_evict ≡ none) × (candidate me k (s.f s.clock_p) ≡ false)
          ground_step old = ground (arith, step-evict s)

      from_suc :
          (v : ℕ)
          → s'.to_evict ≡ some v
          → (s.to_evict ≡ some v)
            ⊎ ((v < nframes) × (dist s.clock_p v < suc n) × (candidate me k (s.f v) ≡ true))
      from_suc v e = elim (r.from v e) [
        | inl old ↦ elim (Bool-cases (candidate me k (s.f s.clock_p))) [
          | inl here ↦
              let b = better k s.f s.to_evict s.clock_p in
              let same : b ≡ v = ground (arith, step-evict s) in
              elim ((better-le s.f s.to_evict s.clock_p).1) [
                | inl new ↦
                    let e' : s.clock_p ≡ v = sym new ∙ same in
                    inr (rw (← e') h, rw (← e') (omega arith), rw (← e') here)
                | inr kept ↦ inl (kept ∙ ap some same)
              ]
          | inr passed ↦ inl (ground (arith, step-evict s))
        ]
        | inr (lt, d, c) ↦
            let ne : s.clock_p ≢ v = λ same.
              absurd (omega (arith, next_hand, ap (dist (scan_step me k s).clock_p) same)) in
            inr (lt, omega (arith, next_dist v lt ne), rw (next_frame v ne) at c)
      ]

      -- The page that is chosen so far after the first round.
      best_via :
          (v b : ℕ)
          → s'.to_evict ≡ some v
          → (scan_step me k s).to_evict ≡ some b
          → level k (s.f b) ≤ level k (s.f v)
      best_via v b e e' = omega (arith, r.best_old v b e e', next_level b, next_level v)

      best_old_suc :
          (v u : ℕ) → s'.to_evict ≡ some v → s.to_evict ≡ some u → level k (s.f u) ≤ level k (s.f v)
      best_old_suc v u e e' = elim (Bool-cases (candidate me k (s.f s.clock_p))) [
        | inl here ↦
            let b = better k s.f s.to_evict s.clock_p in
            omega (
              arith,
              best_via v b e (ground (arith, step-evict s)),
              (better-le s.f s.to_evict s.clock_p).2 u e',
            )
        | inr passed ↦ best_via v u e (ground (arith, step-evict s))
      ]

      best_suc :
          (v : ℕ)
          → s'.to_evict ≡ some v
          → (i : ℕ) → i < nframes
          → dist s.clock_p i < suc n
          → candidate me k (s.f i) ≡ true
          → level k (s.f i) ≤ level k (s.f v)
      best_suc v e i lt d c = elim (Bool-cases (s.clock_p == i)) [
        | inl same ↦
            let e' : s.clock_p ≡ i = (==_iff _ _).0 same in
            let b = better k s.f s.to_evict s.clock_p in
            let here : candidate me k (s.f s.clock_p) ≡ true = rw e' c in
            rw (← e') (
              omega (
                arith,
                best_via v b e (ground (arith, step-evict s)),
                (better-le s.f s.to_evict s.clock_p).0,
              ))
        | inr off ↦
            let ne : s.clock_p ≢ i = ground arith in
            omega (
              arith,
              r.best v e i lt (omega (arith, next_dist i lt ne)) (rw (next_frame i ne) c),
              next_level i,
              next_level v,
            )
      ]

      Passed-suc : Passed (suc n) s s'
      Passed-suc = record {
        hand = omega (arith, r.hand, step-hand s);
        frame = frame_suc;
        none_left = none_left_suc;
        from = from_suc;
        best = best_suc;
        best_old = best_old_suc;
        flag = λ e. r.flag (step-flag s e);
      }

  pub scan-Passed :
      (n : ℕ) (s : Search) → s.clock_p < nframes → n ≤ nframes → Passed n s (scan n me k s)
  unfolding scan
  scan-Passed zero s h fits = Passed-zero s h
  scan-Passed (suc n) s h fits =
      Passed-suc s h n fits (scan n me k (scan_step me k s))
        (scan-Passed n (scan_step me k s) (rw (step-hand s) (omega arith)) (omega arith))
