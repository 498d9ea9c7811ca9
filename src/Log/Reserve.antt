-- ===== src/Log/Reserve.antt =====
-- The room that `begin_op` reserves is enough for the operations in progress.
use xv6_riscv_cs.Base.{
  List, Option, [], arith, length, none, refl, some, ℕ, ◌*◌, ◌+◌, ◌∷◌, ◌≡◌, ◌≤◌,
}
use xv6_riscv_cs.Log.{Log, logblocks, maxopblocks, log_write, begin_op}
use xv6_riscv_cs.Log.Absorb.{log_write-Logged}

-- `log_write` of each block in turn.
unfoldable pub write_all : List ℕ → Log → Option Log
write_all [] s = some s
write_all (b ∷ bs) s = elim (log_write b s) [ none ↦ none | some s' ↦ write_all bs s' ]

-- `begin_op` lets an operation in only when each operation in progress, the new one included, can
-- write MAXOPBLOCKS more blocks.
pub begin_op-room :
    (s s' : Log)
    → begin_op s ≡ some s'
    → (s.committing ≡ 0)
      × (s'.n + s'.outstanding * maxopblocks ≤ logblocks)
      × (s'.outstanding ≡ s.outstanding + 1)
unfolding begin_op
begin_op-room s s' h = ground arith

write_all-some :
    (bs : List ℕ) (s : Log)
    → 1 ≤ s.outstanding
    → s.n + length bs ≤ logblocks
    → (s' : Log) × (write_all bs s ≡ some s') × (s'.n ≤ s.n + length bs)
unfolding write_all
write_all-some [] s open_op fits = (s, refl, omega arith)
write_all-some (b ∷ bs) s open_op fits =
    let (s1, e, l) = log_write-Logged b s (omega arith) open_op in
    let grown : s1.n ≤ s.n + 1 = ground (arith, l.absorbed) in
    let (s', e', le) = write_all-some bs s1 (omega (arith, l.outstanding)) (omega arith) in
    (s', rw (e, write_all) e', omega arith)

-- Once `begin_op` has let an operation in, the operations in progress do not overrun the log: as
-- long as they write at most MAXOPBLOCKS blocks each in all, no `log_write` panics.
pub begin_op-write_all :
    (s s' : Log) (bs : List ℕ)
    → begin_op s ≡ some s'
    → length bs ≤ s'.outstanding * maxopblocks
    → (s'' : Log) × (write_all bs s' ≡ some s'')
begin_op-write_all s s' bs h few =
    let (quiet, room, shared) = begin_op-room s s' h in
    let (s'', e, le) = write_all-some bs s' (omega arith) (omega arith) in (s'', e)
