-- ===== src/Fs/Directory.antt =====
-- `namecmp`, `dirlookup` and `dirlink` of kernel/fs.c. The content of a directory is read into a
-- kernel variable, so no copy fails.
use xv6_riscv_cs.Base.{
  Bool, List, [], false, if◌then◌else◌, none, not, some, suc, take, true, zero, ℕ, ◌%◌, ◌&&◌, ◌*◌,
  ◌+◌, ◌/◌, ◌==◌, ◌∷◌,
}
use xv6_riscv_cs.Fs.{◌>>=◌, ◌>>◌, Op, dirsiz, done, fail, get_inode}
use xv6_riscv_cs.Strings.{behind, front, strncmp, strncpy}
use xv6_riscv_cs.Fs.Inodes.{iput, iget}
use xv6_riscv_cs.Fs.Content.{readi, writei}

-- T_DIR of kernel/stat.h
abbrev pub t_dir : ℕ
t_dir = 1

-- The bytes of a `struct dirent`, of which the first two are `inum`.
abbrev pub dirent_inum : List ℕ → ℕ
dirent_inum de = front de + 256 * front (behind de)

abbrev pub dirent_name : List ℕ → List ℕ
dirent_name de = behind (behind de)

unfoldable pub namecmp : List ℕ → List ℕ → ℕ
unfolding strncmp
namecmp s t = strncmp dirsiz s t

-- `readi` of one entry, and the panic where it is not whole.
unfoldable pub read_dirent : ℕ → ℕ → Op (List ℕ)
unfolding readi
read_dirent dp off = do
  r ← readi (λ tot part. true) dp off 16
  elim r.0 [ none ↦ fail | some n ↦ if n == 16 then done r.1 else fail ]

-- The loop of `dirlookup` over `n` entries from `off` on: the inode and the offset, or 0.
unfoldable pub lookup_loop : ℕ → ℕ → List ℕ → ℕ → Op (ℕ × ℕ)
unfolding read_dirent namecmp iget
lookup_loop zero dp name off = done (0, 0)
lookup_loop (suc n) dp name off = do
  de ← read_dirent dp off
  if not (dirent_inum de == 0) && (namecmp name (dirent_name de) == 0)
      then (do v ← get_inode dp; ip ← iget v.dev (dirent_inum de); done (ip, off))
      else lookup_loop n dp name (off + 16)

unfoldable pub dirlookup : ℕ → List ℕ → Op (ℕ × ℕ)
unfolding lookup_loop
dirlookup dp name = do
  v ← get_inode dp
  if not (v.type == t_dir) then fail else lookup_loop ((v.size + 15) / 16) dp name 0

-- The loop of `dirlink`: the offset of the first empty entry, or the end.
unfoldable pub empty_loop : ℕ → ℕ → ℕ → Op ℕ
unfolding read_dirent
empty_loop zero dp off = done off
empty_loop (suc n) dp off = do
  de ← read_dirent dp off
  if dirent_inum de == 0 then done off else empty_loop n dp (off + 16)

-- `m` bytes of a list behind the first `tot`.
abbrev pub part_of : List ℕ → ℕ → ℕ → List ℕ
part_of bs zero m = take m bs
part_of [] (suc tot) m = []
part_of (b ∷ bs) (suc tot) m = part_of bs tot m

-- `dirlink`, whether it returns 0.
unfoldable pub dirlink : ℕ → List ℕ → ℕ → Op Bool
unfolding dirlookup iput empty_loop strncpy writei
dirlink dp name inum = do
  found ← dirlookup dp name
  if not (found.0 == 0) then (do iput found.0; done false) else do
    v ← get_inode dp
    off ← empty_loop ((v.size + 15) / 16) dp 0
    let de = (inum % 256) ∷ (inum / 256 % 256) ∷ strncpy name dirsiz
    written ← writei (λ tot m. some (part_of de tot m)) dp off 16
    elim written [ none ↦ done false | some n ↦ done (n == 16) ]
