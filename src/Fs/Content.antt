-- ===== src/Fs/Content.antt =====
-- `readi`, `writei` and `stati` of kernel/fs.c. The calls of `either_copyout` and `either_copyin`
-- are arguments: by how many bytes of the request were moved before, the first tells whether the
-- copy of these bytes succeeds, and the second gives the bytes asked for, if it succeeds. A copy that fails
-- in the middle leaves no bytes in the block.
pub mod Rounds
use xv6_riscv_cs.Base.{
  Bool, List, Option, [], if◌then◌else◌, leb, ltb, min, none, not, slice, some, suc, update, zero,
  ℕ, ◌%◌, ◌*◌, ◌++◌, ◌+◌, ◌-◌, ◌/◌, ◌==◌, ◌^◌, ◌||◌, ◌∷◌,
}
use xv6_riscv_cs.Fs.{
  ◌>>=◌, ◌>>◌, Op, bsize, done, get_inode, log_block, maxfile, read_block, set_inode,
}
use xv6_riscv_cs.Fs.Inodes.{bmap, iupdate}

-- `struct stat`
pub record Stat : Type 0 where
  pub dev : ℕ
  pub ino : ℕ
  pub type : ℕ
  pub nlink : ℕ
  pub size : ℕ

unfoldable pub stati : ℕ → Op Stat
stati ip = do
  v ← get_inode ip
  done (record { dev = v.dev; ino = v.inum; type = v.type; nlink = v.nlink; size = v.size })

-- The bytes of one round: to the end of the block, at most `left`.
abbrev pub piece : ℕ → ℕ → ℕ
piece off left = min left (bsize - off % bsize)

-- A round of the loop of `readi` for `m` bytes; `next` stands for the rounds that follow.
unfoldable pub readi_round :
    (ℕ → List ℕ → Bool) → ℕ → ℕ → ℕ → ℕ → Op (Option ℕ × List ℕ) → Op (Option ℕ × List ℕ)
unfolding bmap
readi_round copyout ip off tot m next = do
  addr ← bmap ip (off / bsize)
  if addr == 0 then done (some tot, []) else do
    bytes ← read_block addr
    let part = slice bytes (off % bsize) m
    if not (copyout tot part)
        then done (none, [])
        else do rest ← next; done (rest.0, part ++ rest.1)

-- The loop of `readi`, which a round for each byte ends at the latest. The result is the number of
-- bytes read, `none` for -1, and the bytes copied.
unfoldable pub readi_loop : (ℕ → List ℕ → Bool) → ℕ → ℕ → ℕ → ℕ → ℕ → Op (Option ℕ × List ℕ)
unfolding readi_round
readi_loop copyout zero ip off tot n = done (some tot, [])
readi_loop copyout (suc rounds) ip off tot n =
    let m = piece off (n - tot) in
    let next = readi_loop copyout rounds ip (off + m) (tot + m) n in
    if leb n tot then done (some tot, []) else readi_round copyout ip off tot m next

unfoldable pub readi : (ℕ → List ℕ → Bool) → ℕ → ℕ → ℕ → Op (Option ℕ × List ℕ)
unfolding readi_loop
readi copyout ip off n = do
  v ← get_inode ip
  if ltb v.size off || ltb ((off + n) % 2 ^ 32) off then done (some 0, []) else do
    let m = if ltb v.size (off + n) then v.size - off else n
    readi_loop copyout m ip off 0 m

-- `memmove` of a list of bytes into a block.
unfoldable pub put_bytes : (ℕ → ℕ) → ℕ → List ℕ → ℕ → ℕ
put_bytes f i [] = f
put_bytes f i (b ∷ bs) = put_bytes (update f i b) (i + 1) bs

-- A round of the loop of `writei` for `m` bytes; `next` stands for the rounds that follow.
unfoldable pub writei_round : (ℕ → ℕ → Option (List ℕ)) → ℕ → ℕ → ℕ → ℕ → Op (ℕ × ℕ) → Op (ℕ × ℕ)
unfolding bmap put_bytes
writei_round copyin ip off tot m next = do
  addr ← bmap ip (off / bsize)
  if addr == 0 then done (tot, off) else do
    bytes ← read_block addr
    elim (copyin tot m) [
      | none ↦ done (tot, off)
      | some part ↦ do log_block addr (put_bytes bytes (off % bsize) part); next
    ]

-- The loop of `writei`: the number of bytes written, and the offset behind them.
unfoldable pub writei_loop : (ℕ → ℕ → Option (List ℕ)) → ℕ → ℕ → ℕ → ℕ → ℕ → Op (ℕ × ℕ)
unfolding writei_round
writei_loop copyin zero ip off tot n = done (tot, off)
writei_loop copyin (suc rounds) ip off tot n =
    let m = piece off (n - tot) in
    let next = writei_loop copyin rounds ip (off + m) (tot + m) n in
    if leb n tot then done (tot, off) else writei_round copyin ip off tot m next

-- `writei`; `none` is -1.
unfoldable pub writei : (ℕ → ℕ → Option (List ℕ)) → ℕ → ℕ → ℕ → Op (Option ℕ)
unfolding writei_loop iupdate
writei copyin ip off n = do
  v ← get_inode ip
  if ltb v.size off || ltb ((off + n) % 2 ^ 32) off
      then done none
      else if ltb (maxfile * bsize) (off + n)
      then done none
      else do
        r ← writei_loop copyin n ip off 0 n
        w ← get_inode ip
        (if ltb w.size r.1 then set_inode ip (record w { size = r.1 }) else done tt)
        iupdate ip
        done (some r.0)
