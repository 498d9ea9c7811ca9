-- ===== src/Log/Crash.antt =====
-- A crash in the middle of `commit`, and the recovery after it.
use xv6_riscv_cs.Base.{
  ==_iff, Bool-cases, ap, arith, false, if◌then◌else◌, inl, inr, refl, sym, ℕ, ◌+◌, ◌-◌, ◌<◌, ◌==◌,
  ◌∙◌, ◌≡◌, ◌≢◌, ◌≤◌, ◌⊎◌,
}
use xv6_riscv_cs.Log.{
  Log, Block, logblocks, commit, commit_point, initlog, install_trans, write_head, write_log,
}
use xv6_riscv_cs.Log.Copy.{Copied, IsHome, Moved, write_log_loop-Copied}
use xv6_riscv_cs.Log.Install.{HasHomes, Installed, install_loop-Installed}
use xv6_riscv_cs.Log.Recover.{entries, header, initlog-Recovered, write_head-Moved, word-header}

-- Every block outside the log has the contents from before the commit.
abbrev pub IsOld : Log → (ℕ → Block) → Type 0
IsOld s final = (b : ℕ) → IsHome s.start b → final b ≡ s.disk b

-- Every block of the transaction has its new contents, and every other one the old.
pub record IsNew (s : Log) (final : ℕ → Block) : Type 0 where
  pub at : (j : ℕ) → j < s.n → final (s.block j) ≡ s.mem (s.block j)
  pub others : (b : ℕ) → IsHome s.start b → ((j : ℕ) → j < s.n → s.block j ≢ b) → final b ≡ s.disk b

-- A log between two commits: its entries are distinct home blocks, and the header on the disk is
-- empty.
pub record IsQuiet (s : Log) : Type 0 where
  pub homes : HasHomes s.start s.block 0 s.n
  pub empty : (s.disk s.start).word 0 ≡ 0

no_entries : (start : ℕ) (block : ℕ → ℕ) (n : ℕ) → n ≡ 0 → HasHomes start block 0 n
no_entries start block n e = record {
  home = λ j a b. absurd (omega arith);
  distinct = λ i j a b c d e'. absurd (omega arith);
  fits = omega arith;
}

-- With an empty header recovery leaves every home block as it is.
recover_empty :
    (start power : ℕ) (disk : ℕ → Block)
    → (disk start).word 0 ≡ 0
    → logblocks < power
    → (b : ℕ) → b ≢ start
    → (initlog start power disk).disk b ≡ disk b
recover_empty start power disk e on b ne =
    (initlog-Recovered start power disk (no_entries start (entries (disk start)) _ e) on).others b
      ne (λ j lt. absurd (omega arith))

module _ (s : Log) (q : IsQuiet s) where
  logged : Log
  logged = write_log s

  logged-Copied : Copied s.n 0 s logged
  unfolding logged write_log
  logged-Copied = write_log_loop-Copied s.n 0 s q.homes.home q.homes.fits

  committed : Log
  committed = write_head logged

  committed-Moved : Moved logged.start (header logged) logged committed
  unfolding committed
  committed-Moved = write_head-Moved logged

  placed : Log
  placed = install_trans false committed

  committed_start : committed.start ≡ s.start
  committed_start = committed-Moved.start ∙ logged-Copied.start

  committed_block : committed.block ≡ s.block
  committed_block = committed-Moved.block ∙ logged-Copied.block

  committed_n : committed.n ≡ s.n
  committed_n = committed-Moved.n ∙ logged-Copied.n

  committed_power : committed.power ≡ s.power - s.n - 1
  committed_power = omega (arith, committed-Moved.power, logged-Copied.power)

  placed-Installed : Installed s.n 0 committed placed
  unfolding placed install_trans
  placed-Installed = rw (← committed_n) (
      install_loop-Installed committed.n 0 false committed
        (rw (committed_start, committed_block, committed_n) q.homes))

  cleared : Log
  cleared = write_head (record placed { n = 0 })

  cleared-Moved :
      Moved placed.start (header (record placed { n = 0 })) (record placed { n = 0 }) cleared
  unfolding cleared
  cleared-Moved = write_head-Moved (record placed { n = 0 })

  commit-cleared : commit s ≡ (if s.n == 0 then s else cleared)
  unfolding commit commit_point cleared placed committed logged
  commit-cleared = refl

  placed_start : placed.start ≡ s.start
  placed_start = placed-Installed.start ∙ committed_start

  -- A home block is not written before the header is.
  home_before : (b : ℕ) → IsHome s.start b → committed.disk b ≡ s.disk b
  home_before b home =
      ground
        (arith, committed-Moved.disk b, logged-Copied.disk b, logged-Copied.start, q.homes.fits)

  -- The log's copies, in memory and on the disk.
  copy_on_disk :
      (j : ℕ) → j < s.n → s.n < s.power → committed.disk (s.start + j + 1) ≡ s.mem (s.block j)
  copy_on_disk j lt on = ground (
    arith,
    committed-Moved.disk (s.start + j + 1),
    logged-Copied.disk (s.start + j + 1),
    logged-Copied.start,
    ap s.block {x = s.start + j + 1 - s.start - 1} {y = j} (omega arith),
  )

  copy_in_mem : (j : ℕ) → j < s.n → committed.mem (s.start + j + 1) ≡ s.mem (s.block j)
  copy_in_mem j lt = ground (
    arith,
    committed-Moved.mem (s.start + j + 1),
    logged-Copied.mem (s.start + j + 1),
    logged-Copied.start,
    ap s.block {x = s.start + j + 1 - s.start - 1} {y = j} (omega arith),
  )

  -- A block that is no home of the transaction is not installed over.
  placed_others : (b : ℕ) → ((j : ℕ) → j < s.n → s.block j ≢ b) → placed.disk b ≡ committed.disk b
  placed_others b far =
      (placed-Installed.others b (λ j a lt. rw committed_block (far j (omega arith)))).1

  log_is_no_home : (k : ℕ) → k ≤ logblocks → (j : ℕ) → j < s.n → s.block j ≢ s.start + k
  log_is_no_home k fits j lt e =
      absurd (omega (arith, e, q.homes.home j (omega arith) (omega arith)))

  -- The disk stops before the header is written: it is as before the commit, but for the log.
  module _ (off : s.power ≤ s.n) where
    frozen : (b : ℕ) → (IsHome s.start b) ⊎ (b ≡ s.start) → cleared.disk b ≡ s.disk b
    frozen b home = ground (
      arith,
      cleared-Moved.disk b,
      placed-Installed.power,
      committed_power,
      placed-Installed.dead (omega (arith, committed_power)) b,
      committed-Moved.disk b,
      logged-Copied.power,
      logged-Copied.disk b,
      logged-Copied.start,
      q.homes.fits,
    )

    crash-IsOld :
        (power : ℕ) → logblocks < power → IsOld s (initlog s.start power cleared.disk).disk
    crash-IsOld power on b home =
        recover_empty s.start power cleared.disk
          (ap (λ (d : Block). d.word 0) (frozen s.start (inr refl)) ∙ q.empty) on b (omega arith)
        ∙ frozen b (inl home)

  -- The disk stops behind the header, and before the header is cleared.
  module _ (on : s.n < s.power) (last : placed.power ≡ 0) where
    same_disk : (b : ℕ) → cleared.disk b ≡ placed.disk b
    same_disk b = ground (arith, cleared-Moved.disk b)

    header_stays : cleared.disk s.start ≡ header logged
    header_stays =
        same_disk s.start
        ∙ placed_others s.start (λ j lt e. log_is_no_home 0 (omega arith) j lt (e ∙ omega arith))
        ∙ ground (arith, committed-Moved.disk s.start, logged-Copied.start, logged-Copied.power)

    header_n : (cleared.disk s.start).word 0 ≡ s.n
    header_n = rw header_stays ((word-header logged).0 ∙ logged-Copied.n)

    header_entry : (j : ℕ) → j < s.n → entries (cleared.disk s.start) j ≡ s.block j
    header_entry j lt =
        rw header_stays ((word-header logged).1 j (omega (arith, logged-Copied.n)))
        ∙ ap (λ (f : ℕ → ℕ). f j) logged-Copied.block

    header_homes :
        HasHomes s.start (entries (cleared.disk s.start)) 0 ((cleared.disk s.start).word 0)
    header_homes = record {
      home = λ j a b.
          rw (header_entry j (omega (arith, header_n)))
            (q.homes.home j a (omega (arith, header_n)));
      distinct = λ i j a b c d e.
          q.homes.distinct i j a (omega (arith, header_n)) c (omega (arith, header_n)) (
            sym (header_entry i (omega (arith, header_n)))
            ∙ e
            ∙ header_entry j (omega (arith, header_n)));
      fits = omega (arith, header_n, q.homes.fits);
    }

    replay-IsNew :
        (power : ℕ) → logblocks < power → IsNew s (initlog s.start power cleared.disk).disk
    replay-IsNew power more =
        let r = initlog-Recovered s.start power cleared.disk header_homes more in
        record {
          at = λ j lt.
              let e = r.at j (omega (arith, header_n)) in
              rw (header_entry j lt) at e
              ∙ same_disk (s.start + j + 1)
              ∙ placed_others (s.start + j + 1) (λ i low e'.
                log_is_no_home (j + 1) (omega (arith, q.homes.fits)) i low (e' ∙ omega arith))
              ∙ copy_on_disk j lt on;
          others = λ b home far.
              r.others b (omega arith) (λ j lt.
                rw (header_entry j (omega (arith, header_n))) (far j (omega (arith, header_n))))
              ∙ same_disk b
              ∙ placed_others b far
              ∙ home_before b home;
        }

  -- The disk does not stop before the header is cleared.
  module _ (more_left : 0 < placed.power) where
    all_placed : (j : ℕ) → j < s.n → placed.disk (s.block j) ≡ s.mem (s.block j)
    all_placed j lt =
        let low : j < 0 + committed.power = omega (arith, placed-Installed.power) in
        let e = placed-Installed.disk_at j (omega arith) (omega arith) low in
        rw (committed_block, committed_start) at e ∙ copy_in_mem j lt

    header_cleared : (cleared.disk s.start).word 0 ≡ 0
    header_cleared =
        let left : (placed.power == 0) ≡ false = ground arith in
        let e : cleared.disk s.start ≡ header (record placed { n = 0 }) =
          ground (arith, cleared-Moved.disk s.start, placed_start) in
        rw e (word-header (record placed { n = 0 })).0

    off_header : (b : ℕ) → b ≢ s.start → cleared.disk b ≡ placed.disk b
    off_header b ne = ground (arith, cleared-Moved.disk b, placed_start)

    done-IsNew : (power : ℕ) → logblocks < power → IsNew s (initlog s.start power cleared.disk).disk
    done-IsNew power on = record {
      at = λ j lt.
          let apart : s.block j ≢ s.start =
            λ e. log_is_no_home 0 (omega arith) j lt (e ∙ omega arith) in
          recover_empty s.start power cleared.disk header_cleared on (s.block j) apart
          ∙ off_header (s.block j) apart
          ∙ all_placed j lt;
      others = λ b home far.
          recover_empty s.start power cleared.disk header_cleared on b (omega arith)
          ∙ off_header b (omega arith)
          ∙ placed_others b far
          ∙ home_before b home;
    }

-- Wherever the machine stops in `commit`, recovery after it leaves either all blocks of the
-- transaction as they were or all of them new, and every other block outside the log as it was.
-- The transaction counts exactly when the disk lived to write the log's blocks and the header.
pub commit-crash :
    (s : Log) (power : ℕ)
    → IsQuiet s
    → logblocks < power
    → (s.power ≤ s.n → IsOld s (initlog s.start power (commit s).disk).disk)
      × (s.n < s.power → IsNew s (initlog s.start power (commit s).disk).disk)
commit-crash s power q on = elim (Bool-cases (s.n == 0)) [
  | inl none_logged ↦
      let old : IsOld s (initlog s.start power s.disk).disk =
        λ b home. recover_empty s.start power s.disk q.empty on b (omega arith) in
      let unchanged : commit s ≡ s = commit-cleared s q ∙ rw none_logged refl in
      rw unchanged (
        λ off. old,
        λ live. record {
          at = λ j lt. absurd (omega (arith, (==_iff s.n 0).0 none_logged));
          others = λ b home far. old b home;
        },
      )
  | inr some_logged ↦
      let e : commit s ≡ cleared s q = commit-cleared s q ∙ rw some_logged refl in
      rw e (
        λ off. crash-IsOld s q off power on,
        λ live. elim (Bool-cases ((placed s q).power == 0)) [
          | inl last ↦ replay-IsNew s q live ((==_iff _ _).0 last) power on
          | inr more ↦ done-IsNew s q (ground arith) power on
        ],
      )
]
