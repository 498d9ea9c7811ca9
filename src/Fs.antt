-- ===== src/Fs.antt =====
-- The state of the file system code, kernel/fs.c, and functions that may panic. There is one disk,
-- and its blocks are those that the buffer cache shows.
pub mod Blocks
pub mod Inodes
pub mod Content
pub mod Directory
pub mod Path
use xv6_riscv_cs.Base.{List, Option, none, some, update, ℕ, ◌%◌, ◌*◌, ◌+◌, ◌/◌, ◌∷◌}

-- BSIZE and the constants of kernel/fs.h and kernel/param.h
abbrev pub bsize : ℕ
bsize = 1024

abbrev pub bpb : ℕ
bpb = 8192

abbrev pub ipb : ℕ
ipb = 16

abbrev pub ndirect : ℕ
ndirect = 12

abbrev pub nindirect : ℕ
nindirect = 256

abbrev pub maxfile : ℕ
maxfile = ndirect + nindirect

abbrev pub dirsiz : ℕ
dirsiz = 14

abbrev pub ninode : ℕ
ninode = 50

-- The fields of `struct superblock` that the code uses.
pub record Superblock : Type 0 where
  pub size : ℕ
  pub ninodes : ℕ
  pub inodestart : ℕ
  pub bmapstart : ℕ

-- `struct inode` without its lock.
pub record Inode : Type 0 where
  pub dev : ℕ
  pub inum : ℕ
  pub ref : ℕ
  pub valid : ℕ
  pub type : ℕ
  pub major : ℕ
  pub minor : ℕ
  pub nlink : ℕ
  pub size : ℕ
  pub addrs : ℕ → ℕ

-- `block b i` is byte `i` of block `b`. `logged` has the arguments of `log_write`, the last one
-- first. Entry `i` of the inode table is number `i + 1`; 0 is a null pointer.
pub record Disk : Type 0 where
  pub block : ℕ → ℕ → ℕ
  pub logged : List ℕ
  pub sb : Superblock
  pub inode : ℕ → Inode

-- A result and the new state, or `none` for `panic`.
abbrev pub Op : Type 0 → Type 0
Op A = Disk → Option (A × Disk)

infixl 5 ◌>>=◌ ◌>>◌
abbrev pub ◌>>=◌ : {A B : Type 0} → Op A → (A → Op B) → Op B
◌>>=◌ r f d = elim (r d) [ none ↦ none | some (a, d') ↦ f a d' ]

abbrev pub ◌>>◌ : {B : Type 0} → Op (Unit {0}) → Op B → Op B
r >> k = r >>= λ _. k

abbrev pub done : {A : Type 0} → A → Op A
done a d = some (a, d)

abbrev pub fail : {A : Type 0} → Op A
fail d = none

-- `bread`: the bytes of a block.
abbrev pub read_block : ℕ → Op (ℕ → ℕ)
read_block b d = some (d.block b, d)

-- New bytes of a block, and `log_write` of its buffer.
abbrev pub log_block : ℕ → (ℕ → ℕ) → Op (Unit {0})
log_block b bytes d = some (tt, record d { block = update d.block b bytes; logged = b ∷ d.logged })

abbrev pub get_inode : ℕ → Op Inode
get_inode i d = some (d.inode i, d)

abbrev pub set_inode : ℕ → Inode → Op (Unit {0})
set_inode i v d = some (tt, record d { inode = update d.inode i v })

-- Little-endian fields of a block.
abbrev pub get16 : (ℕ → ℕ) → ℕ → ℕ
get16 f o = f o + 256 * f (o + 1)

abbrev pub get32 : (ℕ → ℕ) → ℕ → ℕ
get32 f o = get16 f o + 65536 * get16 f (o + 2)

abbrev pub put16 : (ℕ → ℕ) → ℕ → ℕ → ℕ → ℕ
put16 f o v = update (update f o (v % 256)) (o + 1) (v / 256 % 256)

abbrev pub put32 : (ℕ → ℕ) → ℕ → ℕ → ℕ → ℕ
put32 f o v = put16 (put16 f o (v % 65536)) (o + 2) (v / 65536 % 65536)
