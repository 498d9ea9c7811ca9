-- ===== src/Log/Recover.antt =====
-- The header block, and what recovery does with it.
use xv6_riscv_cs.Base.{
  ap, arith, if◌then◌else◌, leb, ltb, refl, suc, sym, true, update, zero, ℕ, ◌&&◌, ◌+◌, ◌-◌, ◌<◌,
  ◌∙◌, ◌≡◌, ◌≢◌,
}
use xv6_riscv_cs.Log.{
  Log, Block, logblocks, read_blocks, write_blocks, read_head, write_head, install_trans, initlog,
  recover_from_log,
}
use xv6_riscv_cs.Log.Install.{HasHomes, Installed, install_loop-Installed}
use xv6_riscv_cs.Log.Copy.{Moved, bwrite-Moved}

write_blocks_lem :
    (r i : ℕ) (block head : ℕ → ℕ) (j : ℕ)
    → write_blocks r i block head j
      ≡ (if leb (i + 1) j && ltb j (i + 1 + r) then block (j - 1) else head j)
unfolding write_blocks
write_blocks_lem zero i block head j = ground arith
write_blocks_lem (suc r) i block head j = ground (
  arith,
  write_blocks_lem r (i + 1) block (update head (i + 1) (block i)) j,
  ap block {x = i} {y = j - 1},
)

read_blocks_lem :
    (r i : ℕ) (head : Block) (block : ℕ → ℕ) (j : ℕ)
    → read_blocks r i head block j
      ≡ (if leb i j && ltb j (i + r) then head.word (j + 1) else block j)
unfolding read_blocks
read_blocks_lem zero i head block j = ground arith
read_blocks_lem (suc r) i head block j =
    ground (arith, read_blocks_lem r (i + 1) head (update block i (head.word (i + 1))) j)

-- The header block that `write_head` writes.
pub header : Log → Block
header s = record { word = write_blocks s.n 0 s.block (update (s.mem s.start).word 0 s.n) }

pub word-header :
    (s : Log)
    → ((header s).word 0 ≡ s.n) × ((j : ℕ) → j < s.n → (header s).word (j + 1) ≡ s.block j)
unfolding header
word-header s = (
  ground (arith, write_blocks_lem s.n 0 s.block (update (s.mem s.start).word 0 s.n) 0),
  λ j lt. ground (
    arith,
    write_blocks_lem s.n 0 s.block (update (s.mem s.start).word 0 s.n) (j + 1),
    ap s.block {x = j} {y = j + 1 - 1} (omega arith),
  ),
)

pub write_head-Moved : (s : Log) → Moved s.start (header s) s (write_head s)
unfolding write_head header
write_head-Moved s = bwrite-Moved s.start _ s

-- The entries that a header block on the disk stands for.
abbrev pub entries : Block → ℕ → ℕ
entries head j = head.word (j + 1)

-- What recovery leaves on the disk, if it is not cut off.
pub record Recovered (start : ℕ) (disk final : ℕ → Block) : Type 0 where
  pub at : (j : ℕ) → j < (disk start).word 0 → final (entries (disk start) j) ≡ disk (start + j + 1)
  pub others :
      (b : ℕ)
      → b ≢ start
      → ((j : ℕ) → j < (disk start).word 0 → entries (disk start) j ≢ b)
      → final b ≡ disk b

boot : ℕ → ℕ → (ℕ → Block) → Log
boot start power disk = record {
  start = start;
  outstanding = 0;
  committing = 0;
  n = 0;
  block = λ i. 0;
  mem = disk;
  disk = disk;
  refcnt = λ b. 0;
  power = power;
}

module _ (start power : ℕ) (disk : ℕ → Block)
    (h : HasHomes start (entries (disk start)) 0 ((disk start).word 0))
    (on : logblocks < power) where
  loaded : Log
  loaded = read_head (boot start power disk)

  loaded-block : (j : ℕ) → j < (disk start).word 0 → loaded.block j ≡ entries (disk start) j
  unfolding loaded read_head boot
  loaded-block j lt =
      ground (arith, read_blocks_lem ((disk start).word 0) 0 (disk start) (λ i. 0) j)

  loaded-HasHomes : HasHomes start loaded.block 0 ((disk start).word 0)
  loaded-HasHomes = record {
    home = λ j a b. rw (loaded-block j (omega arith)) (h.home j a b);
    distinct = λ i j a b c d e.
        h.distinct i j a b c d
          (sym (loaded-block i (omega arith)) ∙ e ∙ loaded-block j (omega arith));
    fits = h.fits;
  }

  installed : Log
  installed = install_trans true loaded

  installed-Installed : Installed ((disk start).word 0) 0 loaded installed
  unfolding installed install_trans loaded read_head boot
  installed-Installed = install_loop-Installed ((disk start).word 0) 0 true loaded loaded-HasHomes

  final : Log
  final = write_head (record installed { n = 0 })

  final-Moved :
      Moved installed.start (header (record installed { n = 0 })) (record installed { n = 0 }) final
  unfolding final
  final-Moved = write_head-Moved (record installed { n = 0 })

  initlog-final : initlog start power disk ≡ final
  unfolding initlog recover_from_log final installed loaded boot
  initlog-final = refl

  loaded_lem :
      (loaded.start ≡ start) × (loaded.mem ≡ disk) × (loaded.disk ≡ disk) × (loaded.power ≡ power)
  unfolding loaded read_head boot
  loaded_lem = (refl, refl, refl, refl)

  -- The last write clears the header, and goes nowhere else.
  final_disk : (b : ℕ) → b ≢ start → final.disk b ≡ installed.disk b
  final_disk b ne = ground (arith, final-Moved.disk b, installed-Installed.start, loaded_lem.0)

  installed_at :
      (j : ℕ)
      → j < (disk start).word 0
      → installed.disk (entries (disk start) j) ≡ disk (start + j + 1)
  installed_at j lt =
      let low : j < 0 + loaded.power = omega (arith, loaded_lem.3, h.fits) in
      rw (← loaded-block j lt) (
        installed-Installed.disk_at j (omega arith) (omega arith) low
        ∙ rw (loaded_lem.0, loaded_lem.1) refl)

  pub initlog-Recovered : Recovered start disk (initlog start power disk).disk
  initlog-Recovered = rw initlog-final (record {
    at = λ j lt.
        let apart : entries (disk start) j ≢ start =
          λ e. absurd (omega (arith, e, h.home j (omega arith) (omega arith))) in
        final_disk _ apart ∙ installed_at j lt;
    others = λ b ne far.
        final_disk b ne
        ∙ (installed-Installed.others b
            (λ j a lt. rw (loaded-block j (omega arith)) (far j (omega arith)))).1
        ∙ ap (λ (d : ℕ → Block). d b) loaded_lem.2;
  })
