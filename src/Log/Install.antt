-- ===== src/Log/Install.antt =====
-- What `install_trans` does to the blocks.
use xv6_riscv_cs.Base.{
  ==_iff, Bool, Bool-cases, arith, false, if◌then◌else◌, inl, inr, refl, suc, true, update, zero, ℕ,
  ◌+◌, ◌-◌, ◌<◌, ◌==◌, ◌∙◌, ◌≡◌, ◌≢◌, ◌≤◌,
}
use xv6_riscv_cs.Log.{Log, Block, bwrite, bunpin, logblocks, install_loop}
use xv6_riscv_cs.Log.Copy.{IsHome, Moved, bwrite-Moved}

-- The block numbers of the entries from `tail` on, `r` of them, are distinct blocks outside the log.
pub record HasHomes (start : ℕ) (block : ℕ → ℕ) (tail r : ℕ) : Type 0 where
  pub home : (j : ℕ) → tail ≤ j → j < tail + r → IsHome start (block j)
  pub distinct :
      (i j : ℕ) → tail ≤ i → i < tail + r → tail ≤ j → j < tail + r → block i ≡ block j → i ≡ j
  pub fits : tail + r ≤ logblocks

pub record Installed (r tail : ℕ) (s s' : Log) : Type 0 where
  pub start : s'.start ≡ s.start
  pub n : s'.n ≡ s.n
  pub block : s'.block ≡ s.block
  pub power : s'.power ≡ s.power - r
  pub others :
      (b : ℕ)
      → ((j : ℕ) → tail ≤ j → j < tail + r → s.block j ≢ b)
      → (s'.mem b ≡ s.mem b) × (s'.disk b ≡ s.disk b)
  pub mem_at : (j : ℕ) → tail ≤ j → j < tail + r → s'.mem (s.block j) ≡ s.mem (s.start + j + 1)
  pub disk_at :
      (j : ℕ)
      → tail ≤ j
      → j < tail + r
      → j < tail + s.power
      → s'.disk (s.block j) ≡ s.mem (s.start + j + 1)
  pub disk_rest :
      (j : ℕ)
      → tail ≤ j
      → j < tail + r
      → tail + s.power ≤ j
      → s'.disk (s.block j) ≡ s.disk (s.block j)
  pub dead : s.power ≡ 0 → (b : ℕ) → s'.disk b ≡ s.disk b

Moved-bunpin : (to b : ℕ) (v : Block) (s s' : Log) → Moved to v s s' → Moved to v s (bunpin b s')
unfolding bunpin
Moved-bunpin to b v s s' m = record {
  start = m.start;
  n = m.n;
  block = m.block;
  power = m.power;
  mem = m.mem;
  disk = m.disk;
}

module _ (r tail : ℕ) (s s1 s' : Log) (h : HasHomes s.start s.block tail (suc r))
    (m : Moved (s.block tail) (s.mem (s.start + tail + 1)) s s1)
    (c : Installed r (tail + 1) s1 s') where
  -- Entries behind the first one name other blocks.
  differ : (j : ℕ) → tail + 1 ≤ j → j < tail + 1 + r → s.block j ≢ s.block tail
  differ j a b e =
      absurd
        (omega (arith, h.distinct j tail (omega arith) (omega arith) (omega arith) (omega arith) e))

  -- The log's copy of a later entry is not overwritten.
  copy_kept : (j : ℕ) → j < logblocks → s1.mem (s1.start + j + 1) ≡ s.mem (s.start + j + 1)
  copy_kept j lt =
      rw m.start (ground (arith, m.mem (s.start + j + 1), h.home tail (omega arith) (omega arith)))

  first_kept :
      (s'.mem (s.block tail) ≡ s1.mem (s.block tail))
      × (s'.disk (s.block tail) ≡ s1.disk (s.block tail))
  first_kept = c.others (s.block tail) (λ j a b. rw m.block (differ j a b))

  later_mem_at :
      (j : ℕ) → tail + 1 ≤ j → j < tail + 1 + r → s'.mem (s.block j) ≡ s.mem (s.start + j + 1)
  later_mem_at j a b = rw m.block at (c.mem_at j a b) ∙ copy_kept j (omega (arith, h.fits))

  Installed-suc : Installed (suc r) tail s s'
  Installed-suc = record {
    start = c.start ∙ m.start;
    n = c.n ∙ m.n;
    block = c.block ∙ m.block;
    power = omega (arith, c.power, m.power);
    others = λ b ne.
        let kept = c.others b (λ j a l. rw m.block (ne j (omega arith) (omega arith))) in
        let first : s.block tail ≢ b = ne tail (omega arith) (omega arith) in
        (ground (arith, kept, m.mem b), ground (arith, kept, m.disk b));
    mem_at = λ j a b. elim (Bool-cases (tail == j)) [
      | inl here ↦ rw (← (==_iff tail j).0 here) (ground (arith, first_kept, m.mem (s.block tail)))
      | inr later ↦ later_mem_at j (ground arith) (omega arith)
    ];
    disk_at = λ j a b p. elim (Bool-cases (tail == j)) [
      | inl here ↦
          let e : tail ≡ j = (==_iff tail j).0 here in
          let on : (s.power == 0) ≡ false = ground arith in
          rw (← e) (ground (arith, first_kept, m.disk (s.block tail), on))
      | inr later ↦
          rw m.block at (c.disk_at j (ground arith) (omega arith) (omega (arith, m.power)))
          ∙ copy_kept j (omega (arith, h.fits))
    ];
    disk_rest = λ j a b p. elim (Bool-cases (tail == j)) [
      | inl here ↦
          let e : tail ≡ j = (==_iff tail j).0 here in
          let off : (s.power == 0) ≡ true = ground arith in
          rw (← e) (ground (arith, first_kept, m.disk (s.block tail), off))
      | inr later ↦
          let lo : tail + 1 ≤ j = ground arith in
          rw m.block at (c.disk_rest j lo (omega arith) (omega (arith, m.power)))
          ∙ ground (arith, m.disk (s.block j), differ j lo)
    ];
    dead = λ p b.
        c.dead (omega (arith, m.power)) b
        ∙ (let off : (s.power == 0) ≡ true = ground arith in ground (arith, m.disk b, off));
  }

pub install_loop-Installed :
    (r tail : ℕ) (recovering : Bool) (s : Log)
    → HasHomes s.start s.block tail r
    → Installed r tail s (install_loop r tail recovering s)
unfolding install_loop
install_loop-Installed zero tail recovering s h = record {
  start = refl;
  n = refl;
  block = refl;
  power = omega arith;
  others = λ b ne. (refl, refl);
  mem_at = λ j a b. absurd (omega arith);
  disk_at = λ j a b p. absurd (omega arith);
  disk_rest = λ j a b p. absurd (omega arith);
  dead = λ p b. refl;
}
install_loop-Installed (suc r) tail recovering s h =
    let v = s.mem (s.start + tail + 1) in
    let written = bwrite (s.block tail) (record s { mem = update s.mem (s.block tail) v }) in
    let s1 = if recovering then written else bunpin (s.block tail) written in
    let m = moved recovering written (bwrite-Moved (s.block tail) v s) in
    let h1 : HasHomes s1.start s1.block (tail + 1) r = rw (m.start, m.block) rest in
    Installed-suc r tail s s1 (install_loop r (tail + 1) recovering s1) h m
      (install_loop-Installed r (tail + 1) recovering s1 h1)
  where
    moved :
        (recovering : Bool) (w : Log)
        → Moved (s.block tail) (s.mem (s.start + tail + 1)) s w
        → Moved
            (s.block tail)
            (s.mem (s.start + tail + 1))
            s
            (if recovering then w else bunpin (s.block tail) w)
    moved true w m = m
    moved false w m = Moved-bunpin (s.block tail) (s.block tail) (s.mem (s.start + tail + 1)) s w m

    rest : HasHomes s.start s.block (tail + 1) r
    rest = record {
      home = λ j a b. h.home j (omega arith) (omega arith);
      distinct =
          λ i j a b c d e. h.distinct i j (omega arith) (omega arith) (omega arith) (omega arith) e;
      fits = omega (arith, h.fits);
    }
