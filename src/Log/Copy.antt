-- ===== src/Log/Copy.antt =====
-- What `write_log` does to the blocks.
use xv6_riscv_cs.Base.{
  arith, if◌then◌else◌, leb, ltb, min, not, refl, suc, update, zero, ℕ, ◌&&◌, ◌+◌, ◌-◌, ◌<◌, ◌==◌,
  ◌∙◌, ◌≡◌, ◌≤◌, ◌⊎◌,
}
use xv6_riscv_cs.Log.{Log, bwrite, logblocks, write_log_loop, Block}

-- The block is outside the log.
abbrev pub IsHome : ℕ → ℕ → Type 0
IsHome start b = (b < start) ⊎ (start + logblocks < b)

-- A block is written over another in memory, and then to the disk.
pub record Moved (to : ℕ) (v : Block) (s s' : Log) : Type 0 where
  pub start : s'.start ≡ s.start
  pub n : s'.n ≡ s.n
  pub block : s'.block ≡ s.block
  pub power : s'.power ≡ s.power - 1
  pub mem : (b : ℕ) → s'.mem b ≡ (if to == b then v else s.mem b)
  pub disk : (b : ℕ) → s'.disk b ≡ (if (to == b) && not (s.power == 0) then v else s.disk b)

pub bwrite-Moved :
    (to : ℕ) (v : Block) (s : Log) → Moved to v s (bwrite to (record s { mem = update s.mem to v }))
unfolding bwrite
bwrite-Moved to v s = record {
  start = ground arith;
  n = ground arith;
  block = ground arith;
  power = ground arith;
  mem = λ b. ground arith;
  disk = λ b. ground arith;
}

-- What the loop leaves alone, and the blocks behind it.
pub record Copied (r tail : ℕ) (s s' : Log) : Type 0 where
  pub start : s'.start ≡ s.start
  pub n : s'.n ≡ s.n
  pub block : s'.block ≡ s.block
  pub power : s'.power ≡ s.power - r
  pub mem :
      (b : ℕ)
      → s'.mem b ≡ (
          if leb (s.start + tail + 1) b && ltb b (s.start + tail + 1 + r)
          then s.mem (s.block (b - s.start - 1))
          else s.mem b)
  pub disk :
      (b : ℕ)
      → s'.disk b ≡ (
          if leb (s.start + tail + 1) b && ltb b (s.start + tail + 1 + min r s.power)
          then s.mem (s.block (b - s.start - 1))
          else s.disk b)

module _ (r tail : ℕ) (s s1 s' : Log)
    (home : (j : ℕ) → tail ≤ j → j < tail + suc r → IsHome s.start (s.block j))
    (m : Moved (s.start + tail + 1) (s.mem (s.block tail)) s s1)
    (c : Copied r (tail + 1) s1 s') where
  later_mem :
      (b : ℕ)
      → s'.mem b ≡ (
          if leb (s.start + (tail + 1) + 1) b && ltb b (s.start + (tail + 1) + 1 + r)
          then s1.mem (s.block (b - s.start - 1))
          else s1.mem b)
  later_mem b = rw (← m.start, ← m.block) (c.mem b)

  later_disk :
      (b : ℕ)
      → s'.disk b ≡ (
          if leb (s.start + (tail + 1) + 1) b && ltb b (s.start + (tail + 1) + 1 + min r s1.power)
          then s1.mem (s.block (b - s.start - 1))
          else s1.disk b)
  later_disk b = rw (← m.start, ← m.block) (c.disk b)

  -- A home block that is still to be copied was not overwritten by the first copy.
  source_kept :
      (b : ℕ)
      → s.start + (tail + 1) + 1 ≤ b
      → b < s.start + (tail + 1) + 1 + r
      → tail + suc r ≤ logblocks
      → s1.mem (s.block (b - s.start - 1)) ≡ s.mem (s.block (b - s.start - 1))
  source_kept b lo hi fits =
      ground (
        arith,
        m.mem (s.block (b - s.start - 1)),
        home (b - s.start - 1) (omega arith) (omega arith),
      )

  Copied-suc : tail + suc r ≤ logblocks → Copied (suc r) tail s s'
  Copied-suc fits = record {
    start = c.start ∙ m.start;
    n = c.n ∙ m.n;
    block = c.block ∙ m.block;
    power = omega (arith, c.power, m.power);
    mem = λ b. ground (
      arith,
      later_mem b,
      m.mem b,
      λ (lo : s.start + (tail + 1) + 1 ≤ b) (hi : b < s.start + (tail + 1) + 1 + r).
          source_kept b lo hi fits,
    );
    disk = λ b. ground (
      arith,
      later_disk b,
      m.disk b,
      m.power,
      λ (lo : s.start + (tail + 1) + 1 ≤ b) (hi : b < s.start + (tail + 1) + 1 + r).
          source_kept b lo hi fits,
    );
  }

pub write_log_loop-Copied :
    (r tail : ℕ) (s : Log)
    → ((j : ℕ) → tail ≤ j → j < tail + r → IsHome s.start (s.block j))
    → tail + r ≤ logblocks
    → Copied r tail s (write_log_loop r tail s)
unfolding write_log_loop
write_log_loop-Copied zero tail s home fits = record {
  start = refl;
  n = refl;
  block = refl;
  power = omega arith;
  mem = λ b. ground arith;
  disk = λ b. ground arith;
}
write_log_loop-Copied (suc r) tail s home fits =
    let to = s.start + tail + 1 in
    let s1 = bwrite to (record s { mem = update s.mem to (s.mem (s.block tail)) }) in
    let m = bwrite-Moved to (s.mem (s.block tail)) s in
    let home1 : (j : ℕ) → tail + 1 ≤ j → j < tail + 1 + r → IsHome s1.start (s1.block j) =
      λ j a b. rw (m.start, m.block) (home j (omega arith) (omega arith)) in
    Copied-suc r tail s s1 (write_log_loop r (tail + 1) s1) home m
      (write_log_loop-Copied r (tail + 1) s1 home1 (omega arith)) fits
