-- ===== src/Files/Names.antt =====
-- The system calls that change directories, kernel/sysfile.c. A path is what `argstr` gives, `none`
-- for -1. A call that returns 0 or -1 gives whether it is 0. `major` and `minor` are `short`.
use xv6_riscv_cs.Base.{
  Bool, List, Option, [], false, if◌then◌else◌, leb, none, not, some, suc, true, update, zero, ℕ,
  ◌%◌, ◌&&◌, ◌+◌, ◌-◌, ◌/◌, ◌==◌, ◌^◌, ◌||◌, ◌∷◌,
}
use xv6_riscv_cs.Files.{◌>>=◌, ◌>>◌, Sys, give, panic, on_disk}
use xv6_riscv_cs.Fs.{Inode, get_inode}
use xv6_riscv_cs.Fs.Inodes.{ilock, iunlock, iput, iunlockput, iupdate, ialloc}
use xv6_riscv_cs.Fs.Content.{writei}
use xv6_riscv_cs.Fs.Directory.{
  dirlookup, dirlink, namecmp, t_dir, read_dirent, dirent_inum, part_of,
}
use xv6_riscv_cs.Fs.Path.{namei, nameiparent}
use xv6_riscv_cs.Strings.{zeros}

-- T_FILE and T_DEVICE of kernel/stat.h
abbrev pub t_file : ℕ
t_file = 2

abbrev pub t_device : ℕ
t_device = 3

abbrev pub dot : List ℕ
dot = b'.' ∷ []

abbrev pub dot_dot : List ℕ
dot_dot = b'.' ∷ b'.' ∷ []

abbrev pub change_inode : ℕ → (Inode → Inode) → Sys (Unit {0})
change_inode ip f =
    on_disk (λ d. some (tt, record d { inode = update d.inode ip (f (d.inode ip)) }))

abbrev pub read_inode_of : ℕ → Sys Inode
read_inode_of ip = on_disk (get_inode ip)

-- `nlink` is a `short`.
abbrev pub more_links : Inode → Inode
more_links v = record v { nlink = (v.nlink + 1) % 2 ^ 16 }

abbrev pub fewer_links : Inode → Inode
fewer_links v = record v { nlink = (v.nlink + 2 ^ 16 - 1) % 2 ^ 16 }

-- `namei` and `nameiparent` in the directory of the process.
abbrev pub find_inode : List ℕ → Sys ℕ
find_inode path s = on_disk (namei s.cwd path) s

abbrev pub find_parent : List ℕ → Sys (ℕ × List ℕ)
find_parent path s = on_disk (nameiparent s.cwd path) s

-- The label `bad` of `sys_link`.
unfoldable pub unlink_again : ℕ → Sys Bool
unfolding ilock iupdate iunlockput
unlink_again ip = do
  on_disk (ilock ip)
  change_inode ip fewer_links
  on_disk (iupdate ip)
  on_disk (iunlockput ip)
  give false

-- The part of `sys_link` behind `nameiparent`.
unfoldable pub link_in : ℕ → ℕ × List ℕ → Sys Bool
unfolding ilock iunlockput iput dirlink unlink_again
link_in ip parent = if parent.0 == 0 then unlink_again ip else do
  on_disk (ilock parent.0)
  vd ← read_inode_of parent.0
  v ← read_inode_of ip
  linked ←
      (if not (vd.dev == v.dev) then give false else on_disk (dirlink parent.0 parent.1 v.inum))
  if not linked
      then (do on_disk (iunlockput parent.0); unlink_again ip)
      else do on_disk (iunlockput parent.0); on_disk (iput ip); give true

abbrev pub link_paths : Option (List ℕ) → Option (List ℕ) → Sys Bool
link_paths none new = give false
link_paths (some old) none = give false
link_paths (some old) (some new) = do
  ip ← find_inode old
  if ip == 0 then give false else do
    on_disk (ilock ip)
    v ← read_inode_of ip
    if v.type == t_dir then (do on_disk (iunlockput ip); give false) else do
      change_inode ip more_links
      on_disk (iupdate ip)
      on_disk (iunlock ip)
      parent ← find_parent new
      link_in ip parent

unfoldable pub sys_link : Option (List ℕ) → Option (List ℕ) → Sys Bool
unfolding namei nameiparent ilock iunlockput iunlock iupdate link_in
sys_link old new = link_paths old new

-- The loop of `isdirempty` over `n` entries from `off` on.
unfoldable pub empty_from : ℕ → ℕ → ℕ → Sys Bool
unfolding read_dirent
empty_from zero dp off = give true
empty_from (suc n) dp off = do
  de ← on_disk (read_dirent dp off)
  if not (dirent_inum de == 0) then give false else empty_from n dp (off + 16)

unfoldable pub isdirempty : ℕ → Sys Bool
unfolding empty_from
isdirempty dp = do v ← read_inode_of dp; empty_from ((v.size + 15) / 16 - 2) dp 32

-- A directory entry of zeros.
unfoldable pub no_entry : List ℕ
no_entry = zeros 16

-- The part of `sys_unlink` that takes the entry at `off` of `dp`, for the inode `ip`, away.
unfoldable pub remove_entry : ℕ → ℕ → ℕ → Sys Bool
unfolding writei iupdate iunlockput no_entry
remove_entry dp ip off = do
  written ← on_disk (writei (λ tot m. some (part_of no_entry tot m)) dp off 16)
  elim written [
    | none ↦ panic
    | some n ↦ if not (n == 16) then panic else do
      v ← read_inode_of ip
      (if v.type == t_dir then (do change_inode dp fewer_links; on_disk (iupdate dp)) else give tt)
      on_disk (iunlockput dp)
      change_inode ip fewer_links
      on_disk (iupdate ip)
      on_disk (iunlockput ip)
      give true
  ]

-- The part behind `nameiparent`.
unfoldable pub unlink_in : ℕ × List ℕ → Sys Bool
unfolding ilock iunlockput dirlookup namecmp isdirempty remove_entry
unlink_in parent = if parent.0 == 0 then give false else do
  on_disk (ilock parent.0)
  if (namecmp parent.1 dot == 0) || (namecmp parent.1 dot_dot == 0)
      then (do on_disk (iunlockput parent.0); give false)
      else do
        found ← on_disk (dirlookup parent.0 parent.1)
        if found.0 == 0 then (do on_disk (iunlockput parent.0); give false) else do
          on_disk (ilock found.0)
          v ← read_inode_of found.0
          if (v.nlink == 0) || leb (2 ^ 15) v.nlink then panic else do
            is_empty_dir ← (if v.type == t_dir then isdirempty found.0 else give true)
            if not is_empty_dir
                then (do on_disk (iunlockput found.0); on_disk (iunlockput parent.0); give false)
                else remove_entry parent.0 found.0 found.1

unfoldable pub sys_unlink : Option (List ℕ) → Sys Bool
unfolding nameiparent unlink_in
sys_unlink path = elim path [
  | none ↦ give false
  | some name ↦ (do parent ← find_parent name; unlink_in parent)
]

-- The label `fail` of `create`.
unfoldable pub create_fails : ℕ → ℕ → Sys ℕ
unfolding iupdate iunlockput
create_fails ip dp = do
  change_inode ip (λ v. record v { nlink = 0 })
  on_disk (iupdate ip)
  on_disk (iunlockput ip)
  on_disk (iunlockput dp)
  give 0

-- The entries `.` and `..` of a new directory.
unfoldable pub link_dots : ℕ → ℕ → Sys Bool
unfolding dirlink
link_dots ip dp = do
  v ← read_inode_of ip
  first ← on_disk (dirlink ip dot v.inum)
  if not first then give false else do vd ← read_inode_of dp; on_disk (dirlink ip dot_dot vd.inum)

-- The part of `create` for a new inode `ip`.
unfoldable pub create_in : ℕ → ℕ → List ℕ → ℕ → ℕ → ℕ → Sys ℕ
unfolding ilock iupdate iunlockput dirlink link_dots create_fails
create_in dp ip name type major minor = do
  on_disk (ilock ip)
  change_inode ip (λ v. record v { major = major; minor = minor; nlink = 1 })
  on_disk (iupdate ip)
  dots ← (if type == t_dir then link_dots ip dp else give true)
  if not dots then create_fails ip dp else do
    v ← read_inode_of ip
    linked ← on_disk (dirlink dp name v.inum)
    if not linked then create_fails ip dp else do
      (if type == t_dir then (do change_inode dp more_links; on_disk (iupdate dp)) else give tt)
      on_disk (iunlockput dp)
      give ip

-- The part of `create` for a name that exists.
unfoldable pub create_over : ℕ → ℕ → ℕ → Sys ℕ
unfolding ilock iunlockput
create_over dp ip type = do
  on_disk (iunlockput dp)
  on_disk (ilock ip)
  v ← read_inode_of ip
  if (type == t_file) && ((v.type == t_file) || (v.type == t_device))
      then give ip
      else (do on_disk (iunlockput ip); give 0)

unfoldable pub create_entry : ℕ × List ℕ → ℕ → ℕ → ℕ → Sys ℕ
unfolding ilock iunlockput dirlookup ialloc create_in create_over
create_entry parent type major minor = if parent.0 == 0 then give 0 else do
  on_disk (ilock parent.0)
  found ← on_disk (dirlookup parent.0 parent.1)
  if not (found.0 == 0) then create_over parent.0 found.0 type else do
    vd ← read_inode_of parent.0
    ip ← on_disk (ialloc vd.dev type)
    if ip == 0
        then (do on_disk (iunlockput parent.0); give 0)
        else create_in parent.0 ip parent.1 type major minor

-- `create`: the inode, or 0.
unfoldable pub create : List ℕ → ℕ → ℕ → ℕ → Sys ℕ
unfolding nameiparent create_entry
create path type major minor = do parent ← find_parent path; create_entry parent type major minor

abbrev pub made : ℕ → Sys Bool
made ip = if ip == 0 then give false else do on_disk (iunlockput ip); give true

unfoldable pub sys_mkdir : Option (List ℕ) → Sys Bool
unfolding create iunlockput
sys_mkdir path = elim path [
  | none ↦ give false
  | some name ↦ (do ip ← create name t_dir 0 0; made ip)
]

unfoldable pub sys_mknod : Option (List ℕ) → ℕ → ℕ → Sys Bool
unfolding create iunlockput
sys_mknod path major minor = elim path [
  | none ↦ give false
  | some name ↦ (do ip ← create name t_device (major % 2 ^ 16) (minor % 2 ^ 16); made ip)
]

abbrev pub enter : ℕ → Sys Bool
enter ip = if ip == 0 then give false else do
  on_disk (ilock ip)
  v ← read_inode_of ip
  if not (v.type == t_dir) then (do on_disk (iunlockput ip); give false) else do
    on_disk (iunlock ip)
    (λ s. on_disk (iput s.cwd) s)
    (λ s. some (tt, record s { cwd = ip }))
    give true

unfoldable pub sys_chdir : Option (List ℕ) → Sys Bool
unfolding namei ilock iunlock iput iunlockput
sys_chdir path = elim path [ none ↦ give false | some name ↦ (do ip ← find_inode name; enter ip) ]
