-- ===== src/Files.antt =====
-- The open files of the system, kernel/file.c, and the process that calls. A file pointer is its
-- index in the table plus 1, and 0 is null. `begin_op` and `end_op` have no effect here.
pub mod Transfer
pub mod Descriptors
pub mod Names
pub mod Open
pub mod References
pub mod Close
use xv6_riscv_cs.Base.{
  Bool, List, Option, false, if◌then◌else◌, ltb, none, not, some, suc, true, update, zero, ℕ, ◌+◌,
  ◌-◌, ◌==◌, ◌∷◌,
}
use xv6_riscv_cs.Fs.{Op, Disk}
use xv6_riscv_cs.Fs.Inodes.{iput, ilock, iunlock}
use xv6_riscv_cs.Fs.Content.{stati, Stat}
use xv6_riscv_cs.Pipe.{Pipe, pipeclose}

-- NFILE, NDEV and NOFILE of kernel/param.h
abbrev pub nfile : ℕ
nfile = 100

abbrev pub ndev : ℕ
ndev = 10

-- The `type` of a `struct file`.
pub data FileType : Type 0 where
  fd_none fd_pipe fd_inode fd_device : FileType

-- `struct file`; `major` is a `short` as a number below 2 ^ 16.
pub record File : Type 0 where
  pub type : FileType
  pub ref : ℕ
  pub readable : Bool
  pub writable : Bool
  pub pipe : ℕ
  pub ip : ℕ
  pub off : ℕ
  pub major : ℕ

-- `ofile` and `cwd` are those of the process that calls. `freed` has the pages given to `kfree`.
pub record System : Type 0 where
  pub disk : Disk
  pub file : ℕ → File
  pub pipes : ℕ → Pipe
  pub freed : List ℕ
  pub ofile : ℕ → ℕ
  pub cwd : ℕ

-- A result and the new state, or `none` for `panic`.
abbrev pub Sys : Type 0 → Type 0
Sys A = System → Option (A × System)

infixl 5 ◌>>=◌ ◌>>◌
abbrev pub ◌>>=◌ : {A B : Type 0} → Sys A → (A → Sys B) → Sys B
◌>>=◌ r f s = elim (r s) [ none ↦ none | some (a, s') ↦ f a s' ]

abbrev pub ◌>>◌ : {B : Type 0} → Sys (Unit {0}) → Sys B → Sys B
r >> k = r >>= λ _. k

abbrev pub give : {A : Type 0} → A → Sys A
give a s = some (a, s)

abbrev pub panic : {A : Type 0} → Sys A
panic s = none

abbrev pub with_disk : {A : Type 0} → System → Option (A × Disk) → Option (A × System)
with_disk s none = none
with_disk s (some (a, d)) = some (a, record s { disk = d })

-- A call into the file system.
abbrev pub on_disk : {A : Type 0} → Op A → Sys A
on_disk op s = with_disk s (op s.disk)

abbrev pub get_file : ℕ → Sys File
get_file f s = some (s.file f, s)

abbrev pub set_file : ℕ → File → Sys (Unit {0})
set_file f v s = some (tt, record s { file = update s.file f v })

-- The scan of `filealloc` over `n` files from `f` on.
unfoldable pub find_free : ℕ → ℕ → (ℕ → File) → ℕ
find_free zero f file = 0
find_free (suc n) f file =
    let rest = find_free n (f + 1) file in if (file f).ref == 0 then f else rest

-- What `filealloc` does with the file that it found.
unfoldable pub take_file : ℕ → Sys ℕ
take_file f s =
    if f == 0
    then some (0, s)
    else some (f, record s { file = update s.file f (record (s.file f) { ref = 1 }) })

unfoldable pub filealloc : Sys ℕ
unfolding find_free take_file
filealloc s = take_file (find_free nfile 1 s.file) s

unfoldable pub filedup : ℕ → Sys ℕ
filedup f = do
  v ← get_file f
  if ltb v.ref 1 then panic else do set_file f (record v { ref = v.ref + 1 }); give f

-- `pipeclose` on a pipe of the system, with the `kfree` of its page.
unfoldable pub close_pipe : ℕ → Bool → Sys (Unit {0})
unfolding pipeclose
close_pipe pi writable s =
    let (closed, is_freed) = pipeclose writable (s.pipes pi) in
    some (
      tt,
      record s {
        pipes = update s.pipes pi closed;
        freed = (if is_freed then pi ∷ s.freed else s.freed);
      },
    )

-- What is left to do for a file that nobody refers to any more.
unfoldable pub close_last : FileType → File → Sys (Unit {0})
unfolding close_pipe iput
close_last fd_none ff = give tt
close_last fd_pipe ff = close_pipe ff.pipe ff.writable
close_last fd_inode ff = on_disk (iput ff.ip)
close_last fd_device ff = on_disk (iput ff.ip)

unfoldable pub fileclose : ℕ → Sys (Unit {0})
unfolding close_last
fileclose f = do
  v ← get_file f
  if ltb v.ref 1 then panic else do
    set_file f (record v { ref = v.ref - 1 })
    if ltb 0 (v.ref - 1)
        then give tt
        else do set_file f (record v { ref = 0; type = fd_none }); close_last v.type v

abbrev pub is_on_disk : FileType → Bool
is_on_disk fd_inode = true
is_on_disk fd_device = true
is_on_disk _ = false

-- `filestat`, whether it returns 0. `copyout` tells whether the copy to the caller succeeds.
unfoldable pub filestat : (Stat → Bool) → ℕ → Sys Bool
unfolding ilock stati iunlock
filestat copyout f = do
  v ← get_file f
  if not (is_on_disk v.type) then give false else do
    on_disk (ilock v.ip)
    st ← on_disk (stati v.ip)
    on_disk (iunlock v.ip)
    give (copyout st)
