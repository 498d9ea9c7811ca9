-- ===== src/Files/Transfer.antt =====
-- `fileread` and `filewrite` of kernel/file.c, and `pipealloc` of kernel/pipe.c.
use xv6_riscv_cs.Base.{
  Bool, List, Option, [], false, if◌then◌else◌, leb, length, ltb, min, none, not, some, suc, true,
  update, zero, ℕ, ◌%◌, ◌&&◌, ◌*◌, ◌+◌, ◌-◌, ◌/◌, ◌==◌, ◌^◌, ◌||◌, ◌∷◌,
}
use xv6_riscv_cs.Files.{
  ◌>>=◌, ◌>>◌, Sys, give, panic, get_file, set_file, on_disk, File, FileType, fd_none, fd_pipe,
  fd_inode, fd_device, filealloc, fileclose, ndev,
}
use xv6_riscv_cs.Fs.{bsize}
use xv6_riscv_cs.Fs.Inodes.{ilock, iunlock}
use xv6_riscv_cs.Fs.Content.{readi, writei, put_bytes}
use xv6_riscv_cs.Pipe.{Pipecall, failed, returned, piperead, pipewrite}
use xv6_riscv_cs.Pipe.Fifo.{count}
use xv6_riscv_cs.Log.{maxopblocks}

-- The process that calls: whether it was killed, the addresses that it may write, and its bytes.
pub record Caller : Type 0 where
  pub killed : Bool
  pub may_write : ℕ → Bool
  pub byte_at : ℕ → Option ℕ
  pub memory : ℕ → ℕ

-- Whether a copy of `n` bytes to an address succeeds.
unfoldable pub all_writable : (ℕ → Bool) → ℕ → ℕ → Bool
all_writable may_write a zero = true
all_writable may_write a (suc n) = may_write a && all_writable may_write (a + 1) n

-- The `n` bytes at an address, if all can be read.
unfoldable pub bytes_from : (ℕ → Option ℕ) → ℕ → ℕ → Option (List ℕ)
bytes_from byte_at a zero = some []
bytes_from byte_at a (suc n) =
    let rest = bytes_from byte_at (a + 1) n in
    elim (byte_at a) [ none ↦ none | some b ↦ elim rest [ none ↦ none | some bs ↦ some (b ∷ bs) ] ]

-- What a call gives: -1, a count, or a wait with a part done; and the caller's memory.
abbrev pub Transferred : Type 0
Transferred = Pipecall × (ℕ → ℕ)

unfoldable pub read_pipe : Caller → ℕ → ℕ → ℕ → Sys Transferred
unfolding piperead
read_pipe p pi addr n s =
    let (r, pipe, memory) = piperead p.may_write p.killed addr n (s.pipes pi) p.memory in
    some ((r, memory), record s { pipes = update s.pipes pi pipe })

-- The part of `fileread` for a file of the file system.
unfoldable pub read_inode : Caller → ℕ → File → ℕ → ℕ → Sys Transferred
unfolding ilock readi iunlock all_writable put_bytes
read_inode p f v addr n = do
  on_disk (ilock v.ip)
  r ← on_disk (readi (λ tot part. all_writable p.may_write (addr + tot) (length part)) v.ip v.off n)
  let memory = put_bytes p.memory addr r.1
  elim r.0 [
    | none ↦ (do on_disk (iunlock v.ip); give (failed, memory))
    | some count ↦ (do
      (if ltb 0 count then set_file f (record v { off = (v.off + count) % 2 ^ 32 }) else give tt)
      on_disk (iunlock v.ip)
      give (returned count, memory))
  ]

-- `devsw` has what the `read` of a device gives for this call, or `none` for a null pointer.
unfoldable pub read_typed :
    FileType → (ℕ → Option Transferred) → Caller → ℕ → File → ℕ → ℕ → Sys Transferred
unfolding read_pipe read_inode
read_typed fd_none devsw p f v addr n = panic
read_typed fd_pipe devsw p f v addr n = read_pipe p v.pipe addr n
read_typed fd_inode devsw p f v addr n = read_inode p f v addr n
read_typed fd_device devsw p f v addr n =
    if leb ndev v.major
    then give (failed, p.memory)
    else elim (devsw v.major) [ none ↦ give (failed, p.memory) | some r ↦ give r ]

unfoldable pub fileread : (ℕ → Option Transferred) → Caller → ℕ → ℕ → ℕ → Sys Transferred
unfolding read_typed
fileread devsw p f addr n = do
  v ← get_file f
  if not v.readable then give (failed, p.memory) else read_typed v.type devsw p f v addr n

unfoldable pub write_pipe : Caller → ℕ → ℕ → ℕ → Sys Pipecall
unfolding pipewrite
write_pipe p pi addr n s =
    let (r, pipe) = pipewrite p.byte_at p.killed addr n (s.pipes pi) in
    some (r, record s { pipes = update s.pipes pi pipe })

-- The bytes of one transaction.
abbrev pub max_write : ℕ
max_write = (maxopblocks - 1 - 1 - 2) / 2 * bsize

-- One transaction of `filewrite` for `n1` bytes from `i` on: what `writei` gives.
unfoldable pub write_part : Caller → ℕ → ℕ → ℕ → ℕ → Sys (Option ℕ)
unfolding ilock writei iunlock bytes_from
write_part p f addr i n1 = do
  v ← get_file f
  on_disk (ilock v.ip)
  r ← on_disk (writei (λ tot m. bytes_from p.byte_at (addr + i + tot) m) v.ip v.off n1)
  (elim r [
    | none ↦ give tt
    | some count ↦
        if ltb 0 count then set_file f (record v { off = (v.off + count) % 2 ^ 32 }) else give tt
  ])
  on_disk (iunlock v.ip)
  give r

-- The loop of `filewrite`, which a round for each byte ends at the latest; the number of bytes
-- written.
unfoldable pub write_rounds : ℕ → Caller → ℕ → ℕ → ℕ → ℕ → Sys ℕ
unfolding write_part
write_rounds zero p f addr i n = give i
write_rounds (suc rounds) p f addr i n = if leb n i then give i else do
  let n1 = min (n - i) max_write
  r ← write_part p f addr i n1
  elim r [
    | none ↦ give i
    | some count ↦ if count == n1 then write_rounds rounds p f addr (i + count) n else give i
  ]

unfoldable pub write_typed :
    FileType → (ℕ → Option Pipecall) → Caller → ℕ → File → ℕ → ℕ → Sys Pipecall
unfolding write_pipe write_rounds
write_typed fd_none devsw p f v addr n = panic
write_typed fd_pipe devsw p f v addr n = write_pipe p v.pipe addr n
write_typed fd_inode devsw p f v addr n = do
  i ← write_rounds n p f addr 0 n
  give (if i == n then returned n else failed)
write_typed fd_device devsw p f v addr n =
    if leb ndev v.major
    then give failed
    else elim (devsw v.major) [ none ↦ give failed | some r ↦ give r ]

unfoldable pub filewrite : (ℕ → Option Pipecall) → Caller → ℕ → ℕ → ℕ → Sys Pipecall
unfolding write_typed
filewrite devsw p f addr n = do
  v ← get_file f
  if not v.writable then give failed else write_typed v.type devsw p f v addr n

abbrev pub close_if : ℕ → Sys (Unit {0})
close_if f = if f == 0 then give tt else fileclose f

-- `pipealloc`; `page` is what `kalloc` returns. The result is the two files, or `none` for -1.
unfoldable pub pipealloc : ℕ → Sys (Option (ℕ × ℕ))
unfolding filealloc fileclose
pipealloc page = do
  f0 ← filealloc
  f1 ← (if f0 == 0 then give 0 else filealloc)
  if (f0 == 0) || ((f1 == 0) || (page == 0)) then (do close_if f0; close_if f1; give none) else (do
    (λ s. some (
      tt,
      record s {
        pipes =
            update s.pipes page
              (record (s.pipes page) { readopen = true; writeopen = true; nwrite = 0; nread = 0 });
      },
    ))
    v0 ← get_file f0
    set_file f0 (record v0 { type = fd_pipe; readable = true; writable = false; pipe = page })
    v1 ← get_file f1
    set_file f1 (record v1 { type = fd_pipe; readable = false; writable = true; pipe = page })
    give (some (f0, f1)))
