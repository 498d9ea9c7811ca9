-- ===== src/Proc/Sleep/Handover/Lost.antt =====
-- No wakeup is lost between `sleep` and `wakeup` of kernel/proc.c.
use xv6_riscv_cs.Base.{
  ==_iff, Bool, Bool-cases, List, [], ap, arith, false, false≢true, if◌then◌else◌, inl, inr, leb,
  ltb, refl, subst, sym, true, update_ne, update_self, ℕ, ◌+◌, ◌==◌, ◌∙◌, ◌∷◌, ◌≡◌, ◌≢◌, ◌≤◌,
}
use xv6_riscv_cs.Proc.{State, nproc, Proc}
use xv6_riscv_cs.Proc.Sleep.Handover.{
  Config, WakeAt, asleep, at_acquire, at_mark, at_release, at_sched, finished, outside, scanning,
  sleep_step, tested, testing, wake_step, Shared, SleepAt, run_steps,
}
use xv6_riscv_cs.Proc.Sleep.{sleep_enter, wakeup_one}
use xv6_riscv_cs.Proc.Sleep.Handover.Woken.{
  IsWoken, IsAsleep, wakeup_one-IsWoken, wakeup_one-other, wakeup_one-keeps,
}

-- The caller of `wakeup` has had its round for the process.
abbrev passed : ℕ → WakeAt → Bool
passed me outside = false
passed me (scanning q) = ltb me q
passed me (testing q) = ltb me q
passed me (tested q) = leb me q
passed me finished = true

-- It holds the lock of the process.
abbrev touches : ℕ → WakeAt → Bool
touches me outside = false
touches me (scanning q) = false
touches me (testing q) = q == me
touches me (tested q) = q == me
touches me finished = false

-- What holds at each place of `sleep`.
abbrev Invariant : ℕ → ℕ → Config → Type 0
Invariant chan me (at_acquire, w, s) = (w ≡ outside) × (s.lk ≡ me) × (s.plock me ≡ 0)
Invariant chan me (at_release, w, s) = (w ≡ outside) × (s.lk ≡ me) × (s.plock me ≡ me)
Invariant chan me (at_mark, w, s) =
    (passed me w ≡ false) × (touches me w ≡ false) × (s.plock me ≡ me)
Invariant chan me (at_sched, w, s) =
    (passed me w ≡ false) × (touches me w ≡ false) × (s.plock me ≡ me) × IsAsleep chan me s.kernel
Invariant chan me (asleep, w, s) =
    if passed me w then IsWoken me s.kernel else IsAsleep chan me s.kernel

module _ (chan me other : ℕ) (pos : 1 ≤ me) (bound : me ≤ nproc) (ne : me ≢ other) where
  sleep_step-Invariant :
      (c : Config) → Invariant chan me c → Invariant chan me (sleep_step chan me c)
  unfolding sleep_step sleep_enter
  sleep_step-Invariant (at_acquire, w, s) (out, held, free) =
      rw free (out, held, update_self s.plock me me)
  sleep_step-Invariant (at_release, w, s) (out, held, mine) =
      subst (λ x. (passed me x ≡ false) × (touches me x ≡ false) × (s.plock me ≡ me)) (sym out)
        (refl, refl, mine)
  sleep_step-Invariant (at_mark, w, s) (before, off, mine) =
      (before, off, mine, (ground arith, ground arith))
  sleep_step-Invariant (at_sched, w, s) (before, off, mine, sleeps) = rw before sleeps
  sleep_step-Invariant (asleep, w, s) h = h

  -- While `sleep` holds the lock of the process, the other process does not pass it.
  wake_step-before :
      (p : SleepAt) (w : WakeAt) (s : Shared) (goal : Config → Type 0)
      → passed me w ≡ false
      → touches me w ≡ false
      → s.plock me ≡ me
      → ((w' : WakeAt) (s' : Shared)
          → passed me w' ≡ false
          → touches me w' ≡ false
          → s'.plock me ≡ me
          → s'.kernel.proc me ≡ s.kernel.proc me
          → goal (p, w', s'))
      → goal (wake_step chan other (p, w, s))
  unfolding wake_step
  wake_step-before p outside s goal before off mine next = elim (Bool-cases (s.lk == 0)) [
    | inl free ↦ rw free (next _ _ (ground (arith, pos)) refl mine refl)
    | inr held ↦ rw held (next _ _ refl refl mine refl)
  ]
  wake_step-before p (scanning q) s goal before off mine next =
      let more : ltb nproc q ≡ false = ground (arith, before, bound) in
      elim (Bool-cases (q == other)) [
        | inl self ↦ rw (more, self) (next _ _ (ground (arith, before, self, ne)) refl mine refl)
        | inr not_self ↦ elim (Bool-cases (s.plock q == 0)) [
          | inl free ↦
              let apart : q ≢ me =
                λ e. omega (arith, ap s.plock e, mine, (==_iff _ _).0 free, pos) in
              rw (more, not_self, free)
                (next _ _ before (ground (arith, apart)) (update_ne s.plock q me other apart ∙ mine)
                  refl)
          | inr held ↦ rw (more, not_self, held) (next _ _ before refl mine refl)
        ]
      ]
  wake_step-before p (testing q) s goal before off mine next =
      let apart : q ≢ me = ground (arith, off) in
      next _ _ (ground (arith, before, apart)) off mine
        (wakeup_one-other chan me other q s.kernel apart)
  wake_step-before p (tested q) s goal before off mine next =
      let apart : q ≢ me = ground (arith, off) in
      next _ _ (ground (arith, before)) refl (update_ne s.plock q me 0 apart ∙ mine) refl
  wake_step-before p finished s goal before off mine next = absurd (false≢true (sym before))

  -- Behind the switch, the round for the process wakes it.
  wake_step-asleep :
      (w : WakeAt) (s : Shared)
      → Invariant chan me (asleep, w, s)
      → Invariant chan me (wake_step chan other (asleep, w, s))
  unfolding wake_step
  wake_step-asleep outside s h = elim (Bool-cases (s.lk == 0)) [
    | inl free ↦ let early : ltb me 1 ≡ false = ground (arith, pos) in rw (free, early) h
    | inr held ↦ rw held h
  ]
  wake_step-asleep (scanning q) s h = elim (Bool-cases (ltb nproc q)) [
    | inl last ↦ let late : ltb me q ≡ true = ground (arith, last, bound) in rw last (rw late at h)
    | inr more ↦ elim (Bool-cases (q == other)) [
      | inl self ↦
          let same : ltb me (q + 1) ≡ ltb me q = ground (arith, self, ne) in rw (more, self, same) h
      | inr not_self ↦ elim (Bool-cases (s.plock q == 0)) [
        | inl free ↦ rw (more, not_self, free) h
        | inr held ↦ rw (more, not_self, held) h
      ]
    ]
  ]
  wake_step-asleep (testing q) s h = elim (Bool-cases (q == me)) [
    | inl here ↦
        let e : q ≡ me = (==_iff _ _).0 here in
        let early : ltb me q ≡ false = ground (arith, e) in
        let late : leb me q ≡ true = ground (arith, e) in
        rw late (
          subst (λ x. IsWoken me (wakeup_one chan other x s.kernel)) (sym e)
            (wakeup_one-IsWoken chan me other s.kernel ne (rw early at h)))
    | inr apart ↦
        let ne_q : q ≢ me = ground (arith, apart) in
        elim (Bool-cases (ltb me q)) [
          | inl late ↦
              let late' : leb me q ≡ true = ground (arith, late) in
              rw late' (wakeup_one-keeps chan me other q s.kernel ne_q (rw late at h))
          | inr early ↦
              let early' : leb me q ≡ false = ground (arith, early, ne_q) in
              rw early' (
                subst (λ (r : Proc). (r.state ≡ State.sleeping) × (r.chan ≡ chan))
                  (sym (wakeup_one-other chan me other q s.kernel ne_q)) (rw early at h))
        ]
  ]
  wake_step-asleep (tested q) s h = let same : ltb me (q + 1) ≡ leb me q = ground arith in rw same h
  wake_step-asleep finished s h = h

  wake_step-Invariant :
      (c : Config) → Invariant chan me c → Invariant chan me (wake_step chan other c)
  unfolding wake_step
  wake_step-Invariant (at_acquire, w, s) (out, held, free) =
      let busy : (s.lk == 0) ≡ false = ground (arith, held, pos) in
      subst (λ x. Invariant chan me (wake_step chan other (at_acquire, x, s))) (sym out)
        (rw busy (refl, held, free))
  wake_step-Invariant (at_release, w, s) (out, held, mine) =
      let busy : (s.lk == 0) ≡ false = ground (arith, held, pos) in
      subst (λ x. Invariant chan me (wake_step chan other (at_release, x, s))) (sym out)
        (rw busy (refl, held, mine))
  wake_step-Invariant (at_mark, w, s) (before, off, mine) =
      wake_step-before at_mark w s (Invariant chan me) before off mine (λ w' s' b o m e. (b, o, m))
  wake_step-Invariant (at_sched, w, s) (before, off, mine, sleeps) =
      wake_step-before at_sched w s (Invariant chan me) before off mine (λ w' s' b o m e. (
        b,
        o,
        m,
        subst (λ (r : Proc). (r.state ≡ State.sleeping) × (r.chan ≡ chan)) (sym e) sleeps,
      ))
  wake_step-Invariant (asleep, w, s) h = wake_step-asleep w s h

  run_steps-Invariant :
      (order : List Bool) (c : Config)
      → Invariant chan me c
      → Invariant chan me (run_steps chan me other order c)
  unfolding run_steps
  run_steps-Invariant [] c h = h
  run_steps-Invariant (true ∷ order) c h =
      run_steps-Invariant order (sleep_step chan me c) (sleep_step-Invariant c h)
  run_steps-Invariant (false ∷ order) c h =
      run_steps-Invariant order (wake_step chan other c) (wake_step-Invariant c h)

-- The invariant at the end of `wakeup`.
Invariant-finished :
    (chan me : ℕ) (p : SleepAt) (s : Shared)
    → Invariant chan me (p, finished, s)
    → (p ≡ asleep) × IsWoken me s.kernel
Invariant-finished chan me at_acquire s (out, held, free) =
    absurd (false≢true (sym (ap (passed me) out)))
Invariant-finished chan me at_release s (out, held, mine) =
    absurd (false≢true (sym (ap (passed me) out)))
Invariant-finished chan me at_mark s (before, off, mine) = absurd (false≢true (sym before))
Invariant-finished chan me at_sched s (before, off, mine, sleeps) = absurd (false≢true (sym before))
Invariant-finished chan me asleep s h = (refl, h)

-- No wakeup is lost. A process of the table holds the lock of its condition and calls `sleep`, while
-- another one waits for this lock to call `wakeup` on the channel. In whatever order their steps are
-- taken, when the second one has come to the end of `wakeup` and given the lock back, the first one
-- has slept and is runnable again, and stands in the queue of its level unless that queue is full.
pub sleep-wakeup :
    (chan me other : ℕ) (order : List Bool) (s s' : Shared) (p : SleepAt)
    → 1 ≤ me
    → me ≤ nproc
    → me ≢ other
    → s.lk ≡ me
    → s.plock me ≡ 0
    → run_steps chan me other order (at_acquire, outside, s) ≡ (p, finished, s')
    → (p ≡ asleep) × IsWoken me s'.kernel
sleep-wakeup chan me other order s s' p pos bound ne held free end =
    Invariant-finished chan me p s' (
      subst (Invariant chan me) end (
        run_steps-Invariant chan me other pos bound ne order (at_acquire, outside, s)
          (refl, held, free)))
