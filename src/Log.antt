-- ===== src/Log.antt =====
-- kernel/log.c: the write-ahead log. A block holds a function from the index of a 32-bit word to the
-- word; a `struct logheader` has `n` in word 0 and `block[i]` in word i + 1. `mem` is what `bread`
-- returns for a block: its buffer, or the disk's contents where it has none; a pinned buffer is
-- not recycled. `power` is the number of blocks that the disk still writes before the machine
-- stops: a later `bwrite` has no effect on the disk.
pub mod Reserve
pub mod Absorb
pub mod Copy
pub mod Install
pub mod Recover
pub mod Crash
use xv6_riscv_cs.Base.{
  Bool, Option, false, if◌then◌else◌, leb, ltb, none, not, some, suc, true, update, zero, ℕ, ◌%◌,
  ◌*◌, ◌+◌, ◌-◌, ◌==◌, ◌^◌,
}

pub record Block : Type 0 where
  pub word : ℕ → ℕ

-- `struct log` with its header, and the blocks.
pub record Log : Type 0 where
  pub start : ℕ
  pub outstanding : ℕ
  pub committing : ℕ
  pub n : ℕ
  pub block : ℕ → ℕ
  pub mem : ℕ → Block
  pub disk : ℕ → Block
  pub refcnt : ℕ → ℕ
  pub power : ℕ

-- LOGBLOCKS and MAXOPBLOCKS of param.h
abbrev pub logblocks : ℕ
logblocks = 30

abbrev pub maxopblocks : ℕ
maxopblocks = 10

unfoldable pub bwrite : ℕ → Log → Log
bwrite b s =
    if s.power == 0 then s else record s { disk = update s.disk b (s.mem b); power = s.power - 1 }

unfoldable pub bpin : ℕ → Log → Log
bpin b s = record s { refcnt = update s.refcnt b ((s.refcnt b + 1) % 2 ^ 32) }

unfoldable pub bunpin : ℕ → Log → Log
bunpin b s = record s { refcnt = update s.refcnt b ((s.refcnt b + 2 ^ 32 - 1) % 2 ^ 32) }

-- The loop of `install_trans`, from `tail` on for `r` rounds.
unfoldable pub install_loop : ℕ → ℕ → Bool → Log → Log
install_loop zero tail recovering s = s
install_loop (suc r) tail recovering s =
    let dst = s.block tail in
    let copied = record s { mem = update s.mem dst (s.mem (s.start + tail + 1)) } in
    let written = bwrite dst copied in
    install_loop r (tail + 1) recovering (if recovering then written else bunpin dst written)

unfoldable pub install_trans : Bool → Log → Log
install_trans recovering s = install_loop s.n 0 recovering s

-- The loop of `read_head`, which copies block numbers out of the header block.
unfoldable pub read_blocks : ℕ → ℕ → Block → (ℕ → ℕ) → ℕ → ℕ
read_blocks zero i head block = block
read_blocks (suc r) i head block = read_blocks r (i + 1) head (update block i (head.word (i + 1)))

unfoldable pub read_head : Log → Log
read_head s =
    let head = s.mem s.start in
    record s { n = head.word 0; block = read_blocks (head.word 0) 0 head s.block }

-- The loop of `write_head`.
unfoldable pub write_blocks : ℕ → ℕ → (ℕ → ℕ) → (ℕ → ℕ) → ℕ → ℕ
write_blocks zero i block head = head
write_blocks (suc r) i block head = write_blocks r (i + 1) block (update head (i + 1) (block i))

unfoldable pub write_head : Log → Log
write_head s =
    let words = write_blocks s.n 0 s.block (update (s.mem s.start).word 0 s.n) in
    bwrite s.start (record s { mem = update s.mem s.start (record { word = words }) })

unfoldable pub recover_from_log : Log → Log
recover_from_log s = write_head (record (install_trans true (read_head s)) { n = 0 })

-- `initlog` when the machine starts again: no buffer holds anything but what is on the disk.
unfoldable pub initlog : ℕ → ℕ → (ℕ → Block) → Log
initlog start power disk = recover_from_log (record {
  start = start;
  outstanding = 0;
  committing = 0;
  n = 0;
  block = λ i. 0;
  mem = disk;
  disk = disk;
  refcnt = λ b. 0;
  power = power;
})

-- The loop of `write_log`.
unfoldable pub write_log_loop : ℕ → ℕ → Log → Log
write_log_loop zero tail s = s
write_log_loop (suc r) tail s =
    let to = s.start + tail + 1 in
    write_log_loop r (tail + 1)
      (bwrite to (record s { mem = update s.mem to (s.mem (s.block tail)) }))

unfoldable pub write_log : Log → Log
write_log s = write_log_loop s.n 0 s

-- The first two steps of `commit`: with the header the transaction is on the disk.
unfoldable pub commit_point : Log → Log
commit_point s = write_head (write_log s)

unfoldable pub commit : Log → Log
commit s =
    if s.n == 0 then s else write_head (record (install_trans false (commit_point s)) { n = 0 })

-- One attempt of `begin_op`; `none` is a wait.
unfoldable pub begin_op : Log → Option Log
begin_op s =
    if not (s.committing == 0)
    then none
    else if ltb logblocks (s.n + (s.outstanding + 1) * maxopblocks)
    then none
    else some (record s { outstanding = s.outstanding + 1 })

-- `end_op`; `none` is its panic.
unfoldable pub end_op : Log → Option Log
end_op s =
    let left = (s.outstanding + 2 ^ 32 - 1) % 2 ^ 32 in
    if not (s.committing == 0)
    then none
    else if left == 0
    then some (record (commit (record s { outstanding = left; committing = 1 })) { committing = 0 })
    else some (record s { outstanding = left })

-- The search of `log_write` for block `b` among `r` entries from `i` on.
unfoldable pub find_entry : ℕ → ℕ → ℕ → (ℕ → ℕ) → ℕ
find_entry zero i b block = i
find_entry (suc r) i b block =
    let rest = find_entry r (i + 1) b block in if block i == b then i else rest

-- `log_write` of block `b`; `none` is a panic.
unfoldable pub log_write : ℕ → Log → Option Log
log_write b s =
    let i = find_entry s.n 0 b s.block in
    let noted = record s { block = update s.block i b } in
    if leb logblocks s.n
    then none
    else if ltb s.outstanding 1
    then none
    else some (if i == s.n then record (bpin b noted) { n = s.n + 1 } else noted)
