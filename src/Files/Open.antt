-- ===== src/Files/Open.antt =====
-- `sys_open` of kernel/sysfile.c, with the flags of kernel/fcntl.h.
use xv6_riscv_cs.Base.{
  Bool, List, Option, bit_and, if◌then◌else◌, leb, none, not, some, ℕ, ◌&&◌, ◌==◌, ◌||◌,
}
use xv6_riscv_cs.Files.{
  ◌>>=◌, ◌>>◌, Sys, give, on_disk, filealloc, fileclose, get_file, set_file, fd_inode, fd_device,
  ndev,
}
use xv6_riscv_cs.Files.Descriptors.{fdalloc}
use xv6_riscv_cs.Files.Names.{create, find_inode, read_inode_of, t_file, t_device}
use xv6_riscv_cs.Fs.{Inode}
use xv6_riscv_cs.Fs.Inodes.{ilock, iunlock, iunlockput, itrunc}
use xv6_riscv_cs.Fs.Directory.{t_dir}

abbrev pub o_wronly : ℕ
o_wronly = 0x001

abbrev pub o_rdwr : ℕ
o_rdwr = 0x002

abbrev pub o_create : ℕ
o_create = 0x200

abbrev pub o_trunc : ℕ
o_trunc = 0x400

abbrev pub has_mode : ℕ → ℕ → Bool
has_mode omode flag = not (bit_and omode flag == 0)

-- The inode to open, locked, or 0.
unfoldable pub open_inode : List ℕ → ℕ → Sys ℕ
unfolding create ilock iunlockput
open_inode path omode = if has_mode omode o_create then create path t_file 0 0 else do
  ip ← find_inode path
  if ip == 0 then give 0 else do
    on_disk (ilock ip)
    v ← read_inode_of ip
    if (v.type == t_dir) && not (omode == 0) then (do on_disk (iunlockput ip); give 0) else give ip

-- The file and the descriptor, or `none`; a file without a descriptor is closed again.
abbrev pub keep_fd : ℕ → Option ℕ → Sys (Option (ℕ × ℕ))
keep_fd f none = do fileclose f; give none
keep_fd f (some fd) = give (some (f, fd))

unfoldable pub open_file : Sys (Option (ℕ × ℕ))
unfolding filealloc fdalloc fileclose
open_file = do f ← filealloc; if f == 0 then give none else do fd ← fdalloc f; keep_fd f fd

-- The fields of the new file `f` for the inode `v` at `ip`.
unfoldable pub fill_file : ℕ → ℕ → Inode → ℕ → Sys (Unit {0})
fill_file f ip v omode = do
  old ← get_file f
  let typed =
      if v.type == t_device
      then record old { type = fd_device; major = v.major }
      else record old { type = fd_inode; off = 0 }
  set_file f (record typed {
    ip = ip;
    readable = not (has_mode omode o_wronly);
    writable = has_mode omode o_wronly || has_mode omode o_rdwr;
  })

unfoldable pub open_with : ℕ → ℕ → Option (ℕ × ℕ) → Sys (Option ℕ)
unfolding fill_file itrunc iunlock iunlockput
open_with ip omode none = do on_disk (iunlockput ip); give none
open_with ip omode (some (f, fd)) = do
  v ← read_inode_of ip
  fill_file f ip v omode
  (if has_mode omode o_trunc && (v.type == t_file) then on_disk (itrunc ip) else give tt)
  on_disk (iunlock ip)
  give (some fd)

-- `sys_open`: the descriptor, or `none` for -1.
unfoldable pub sys_open : Option (List ℕ) → ℕ → Sys (Option ℕ)
unfolding open_inode open_file open_with iunlockput
sys_open path omode = elim path [
  | none ↦ give none
  | some name ↦ (do
    ip ← open_inode name omode
    if ip == 0 then give none else do
      v ← read_inode_of ip
      if (v.type == t_device) && leb ndev v.major
          then (do on_disk (iunlockput ip); give none)
          else do opened ← open_file; open_with ip omode opened)
]
