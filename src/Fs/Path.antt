-- ===== src/Fs/Path.antt =====
-- `skipelem`, `namex`, `namei` and `nameiparent` of kernel/fs.c. A path is the list of its
-- characters before the null character.
pub mod Elements
pub mod Rounds
use xv6_riscv_cs.Base.{
  Bool, List, Option, [], false, if◌then◌else◌, leb, length, none, not, some, suc, take, true, zero,
  ℕ, ◌&&◌, ◌++◌, ◌==◌, ◌∷◌,
}
use xv6_riscv_cs.Fs.{◌>>=◌, ◌>>◌, Op, dirsiz, done, fail, get_inode}
use xv6_riscv_cs.Fs.Directory.{dirlookup, t_dir}
use xv6_riscv_cs.Strings.{front}
use xv6_riscv_cs.Fs.Inodes.{iput, idup, iget, ilock, iunlock, iunlockput}

unfoldable pub skip_slashes : List ℕ → List ℕ
skip_slashes [] = []
skip_slashes (c ∷ path) = let rest = skip_slashes path in if c == b'/' then rest else c ∷ path

-- The characters up to the next slash, and what follows them.
unfoldable pub split_element : List ℕ → List ℕ × List ℕ
split_element [] = ([], [])
split_element (c ∷ path) =
    let rest = split_element path in if c == b'/' then ([], c ∷ path) else (c ∷ rest.0, rest.1)

-- What `skipelem` writes to `name` for an element.
abbrev pub name_of : List ℕ → List ℕ
name_of s = if leb dirsiz (length s) then take dirsiz s else s ++ (0 ∷ [])

-- The part of `skipelem` behind its first loop.
unfoldable pub skip_first : List ℕ → Option (List ℕ × List ℕ)
skip_first [] = none
skip_first (c ∷ path) =
    let (s, rest) = split_element (c ∷ path) in some (name_of s, skip_slashes rest)

-- `skipelem`: the name and the rest of the path, or `none` for 0.
unfoldable pub skipelem : List ℕ → Option (List ℕ × List ℕ)
skipelem path = skip_first (skip_slashes path)

abbrev pub ends : List ℕ → Bool
ends [] = true
ends (c ∷ path) = false

-- One round of the loop of `namex` at the inode `ip`, with the rest of the path: the result of the
-- call, or the next inode.
unfoldable pub namex_step : Bool → ℕ → List ℕ → List ℕ → Op (Option ℕ × ℕ)
unfolding ilock iunlock iunlockput dirlookup
namex_step nameiparent ip name rest = do
  ilock ip
  v ← get_inode ip
  if not (v.type == t_dir)
      then (do iunlockput ip; done (some 0, 0))
      else if nameiparent && ends rest
      then (do iunlock ip; done (some ip, 0))
      else do
        next ← dirlookup ip name
        if next.0 == 0
            then (do iunlockput ip; done (some 0, 0))
            else do iunlockput ip; done (none, next.0)

-- Whether the loop goes on behind a round.
abbrev pub namex_next : (ℕ → List ℕ → Op (ℕ × List ℕ)) → List ℕ → Option ℕ × ℕ → Op (ℕ × List ℕ)
namex_next loop name (some result, next) = done (result, name)
namex_next loop name (none, next) = loop next name

-- A round of `namex` for what `skipelem` gives; `loop` stands for the rounds that follow.
unfoldable pub namex_round :
    Bool
    → Option (List ℕ × List ℕ)
    → (List ℕ → ℕ → List ℕ → Op (ℕ × List ℕ))
    → ℕ
    → List ℕ
    → Op (ℕ × List ℕ)
unfolding namex_step iput
namex_round nameiparent none loop ip name =
    if nameiparent then (do iput ip; done (0, name)) else done (ip, name)
namex_round nameiparent (some element) loop ip name = do
  r ← namex_step nameiparent ip element.0 element.1
  namex_next (loop element.1) element.0 r

-- The loop of `namex`: the inode, or 0, and the last name. Each round shortens the path, so as
-- many rounds as the path is long are enough.
unfoldable pub namex_loop : ℕ → Bool → List ℕ → ℕ → List ℕ → Op (ℕ × List ℕ)
unfolding skipelem namex_round
namex_loop zero nameiparent path ip name =
    namex_round nameiparent (skipelem path) (λ rest ip name. fail) ip name
namex_loop (suc more) nameiparent path ip name =
    namex_round nameiparent (skipelem path) (namex_loop more nameiparent) ip name

-- `namex` in a process with the directory `cwd`; ROOTDEV and ROOTINO are 1.
unfoldable pub namex : ℕ → List ℕ → Bool → Op (ℕ × List ℕ)
unfolding iget idup namex_loop
namex cwd path nameiparent = do
  ip ← (if front path == b'/' then iget 1 1 else idup cwd)
  namex_loop (length path) nameiparent path ip []

unfoldable pub namei : ℕ → List ℕ → Op ℕ
unfolding namex
namei cwd path = do r ← namex cwd path false; done r.0

unfoldable pub nameiparent : ℕ → List ℕ → Op (ℕ × List ℕ)
unfolding namex
nameiparent cwd path = namex cwd path true
