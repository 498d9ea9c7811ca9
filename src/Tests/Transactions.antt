-- ===== src/Tests/Transactions.antt =====
-- The log's theorems at a transaction of two blocks.
use xv6_riscv_cs.Base.{[], arith, if◌then◌else◌, inl, not, refl, some, ℕ, ◌<◌, ◌==◌, ◌∷◌, ◌≡◌, ◌≤◌}
use xv6_riscv_cs.Log.{
  bwrite, Log, Block, initlog, commit, log_write, begin_op, install_loop, install_trans,
  read_blocks, read_head, recover_from_log, write_blocks, write_head,
}
use xv6_riscv_cs.Log.Install.{HasHomes}
use xv6_riscv_cs.Log.Crash.{IsNew, IsOld, IsQuiet, commit-crash}
use xv6_riscv_cs.Log.Absorb.{Logged, log_write-Logged}
use xv6_riscv_cs.Log.Reserve.{begin_op-write_all, write_all}

abbrev zeros : Block
zeros = record { word = λ i. 0 }

abbrev ones : Block
ones = record { word = λ i. 1 }

-- The log starts at block 2; blocks 40 and 50 have new contents in memory. The disk stops after
-- `power` writes.
abbrev pending : ℕ → Log
pending power = record {
  start = 2;
  outstanding = 1;
  committing = 0;
  n = 2;
  block = λ i. if i == 0 then 40 else 50;
  mem = λ b. ones;
  disk = λ b. zeros;
  refcnt = λ b. 1;
  power = power;
}

pending-homes : (power : ℕ) → HasHomes 2 (pending power).block 0 2
pending-homes power = record {
  home = λ j lo hi. ground arith;
  distinct = λ i j a b c d e. ground arith;
  fits = omega arith;
}

pending-IsQuiet : (power : ℕ) → IsQuiet (pending power)
pending-IsQuiet power = record { homes = pending-homes power; empty = refl }

-- The disk stops with the header written and nothing installed.
commit-crash_example :
    (3 ≤ 2 → IsOld (pending 3) (initlog 2 100 (commit (pending 3)).disk).disk)
    × (2 < 3 → IsNew (pending 3) (initlog 2 100 (commit (pending 3)).disk).disk)
commit-crash_example = commit-crash (pending 3) 100 (pending-IsQuiet 3) (omega arith)

log_write-Logged_example :
    (s' : Log) × (log_write 40 (pending 0) ≡ some s') × Logged 40 (pending 0) s'
log_write-Logged_example = log_write-Logged 40 (pending 0) (omega arith) (omega arith)

absorbed : Logged 40 (pending 0) (pending 0)
absorbed = record {
  start = refl;
  outstanding = refl;
  blocks = (refl, refl);
  entry = (0, omega arith, refl);
  kept = λ j lt. refl;
  absorbed = inl (refl, refl, (0, omega arith, refl));
}

abbrev entered : Log
entered = record (pending 0) { outstanding = 2 }

begin_op-write_all_example : (s' : Log) × (write_all (7 ∷ 8 ∷ 9 ∷ []) entered ≡ some s')
unfolding begin_op
begin_op-write_all_example =
    begin_op-write_all (pending 0) entered (7 ∷ 8 ∷ 9 ∷ []) refl (omega arith)

-- Block `b` holds `b`, but the header of the log at block 2 has a transaction for 40 and 50.
abbrev logged_disk : ℕ → Block
logged_disk b = record {
  word = λ i. if not (b == 2) then b else if i == 0 then 2 else if i == 1 then 40 else 50;
}

-- Block 50 gets the contents of the log's second block.
installed_block : ((initlog 2 100 logged_disk).disk 50).word 0 ≡ 4
unfolding initlog recover_from_log read_head read_blocks install_trans install_loop bwrite
    write_head write_blocks
installed_block = refl
