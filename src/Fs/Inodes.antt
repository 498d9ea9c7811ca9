-- ===== src/Fs/Inodes.antt =====
-- The inode table and the inodes on disk: `ialloc`, `iupdate`, `iget`, `idup`, `ilock`, `iput`,
-- `itrunc`, `bmap` and `stati` of kernel/fs.c. Sleep locks have no model.
pub mod Table
use xv6_riscv_cs.Base.{
  if◌then◌else◌, leb, ltb, not, some, suc, update, zero, ℕ, ◌%◌, ◌&&◌, ◌*◌, ◌+◌, ◌-◌, ◌/◌, ◌==◌,
  ◌||◌,
}
use xv6_riscv_cs.Fs.{
  ◌>>=◌, ◌>>◌, Inode, Op, done, fail, get16, get32, get_inode, ipb, log_block, ndirect, nindirect,
  ninode, put16, put32, read_block, set_inode,
}
use xv6_riscv_cs.Fs.Blocks.{balloc, bfree}

-- The fields of `struct dinode`, at byte `o` of a block.
unfoldable pub read_dinode : (ℕ → ℕ) → ℕ → Inode → Inode
read_dinode f o v = record v {
  type = get16 f o;
  major = get16 f (o + 2);
  minor = get16 f (o + 4);
  nlink = get16 f (o + 6);
  size = get32 f (o + 8);
  addrs = λ i. get32 f (o + 12 + 4 * i);
}

-- `memmove(dip->addrs, ip->addrs, sizeof(ip->addrs))` for `n` addresses from `i` on.
unfoldable pub put_addrs : ℕ → ℕ → (ℕ → ℕ) → ℕ → (ℕ → ℕ) → ℕ → ℕ
put_addrs zero i addrs o f = f
put_addrs (suc n) i addrs o f = put_addrs n (i + 1) addrs o (put32 f (o + 4 * i) (addrs i))

unfoldable pub write_dinode : Inode → ℕ → (ℕ → ℕ) → ℕ → ℕ
unfolding put_addrs
write_dinode v o f = put_addrs (ndirect + 1) 0 v.addrs (o + 12) (
    put32 (put16 (put16 (put16 (put16 f o v.type) (o + 2) v.major) (o + 4) v.minor) (o + 6) v.nlink)
      (o + 8) v.size)

-- The place of an inode in its block.
abbrev pub dinode_at : ℕ → ℕ
dinode_at inum = inum % ipb * 64

abbrev pub iblock : ℕ → Op ℕ
iblock inum d = some (inum / ipb + d.sb.inodestart, d)

unfoldable pub iupdate : ℕ → Op (Unit {0})
unfolding write_dinode
iupdate ip = do
  v ← get_inode ip
  b ← iblock v.inum
  bytes ← read_block b
  log_block b (write_dinode v (dinode_at v.inum) bytes)

-- The scan of `iget` over `n` entries from `ip` on: the entry in use, or the first free one, or 0.
unfoldable pub iget_find : ℕ → ℕ → ℕ → ℕ → (ℕ → Inode) → ℕ
iget_find zero ip dev inum table = 0
iget_find (suc n) ip dev inum table =
    let rest = iget_find n (ip + 1) dev inum table in
    if ltb 0 (table ip).ref && (((table ip).dev == dev) && ((table ip).inum == inum))
    then ip
    else rest

unfoldable pub iget_empty : ℕ → ℕ → (ℕ → Inode) → ℕ
iget_empty zero ip table = 0
iget_empty (suc n) ip table =
    let rest = iget_empty n (ip + 1) table in if (table ip).ref == 0 then ip else rest

-- The part of `iget` behind its scan.
unfoldable pub iget_entry : ℕ → ℕ → ℕ → ℕ → Op ℕ
iget_entry found empty dev inum d =
    (if not (found == 0)
        then (do
          set_inode found (record (d.inode found) { ref = (d.inode found).ref + 1 })
          done found)
        else if empty == 0
        then fail
        else (do
          set_inode empty (record (d.inode empty) { dev = dev; inum = inum; ref = 1; valid = 0 })
          done empty))
      d

unfoldable pub iget : ℕ → ℕ → Op ℕ
unfolding iget_find iget_empty iget_entry
iget dev inum d =
    iget_entry (iget_find ninode 1 dev inum d.inode) (iget_empty ninode 1 d.inode) dev inum d

unfoldable pub idup : ℕ → Op ℕ
idup ip = do v ← get_inode ip; set_inode ip (record v { ref = v.ref + 1 }); done ip

-- `dip->type = type` in a dinode that `memset` has cleared.
abbrev pub clear_dinode : ℕ → (ℕ → ℕ) → ℕ → ℕ
clear_dinode o f i = if leb o i && ltb i (o + 64) then 0 else f i

-- The loop of `ialloc` over `n` inodes from `inum` on.
unfoldable pub ialloc_loop : ℕ → ℕ → ℕ → ℕ → Op ℕ
unfolding iget
ialloc_loop zero inum dev type = done 0
ialloc_loop (suc n) inum dev type = do
  b ← iblock inum
  bytes ← read_block b
  if get16 bytes (dinode_at inum) == 0
      then (do
        log_block b (put16 (clear_dinode (dinode_at inum) bytes) (dinode_at inum) type)
        iget dev inum)
      else ialloc_loop n (inum + 1) dev type

unfoldable pub ialloc : ℕ → ℕ → Op ℕ
unfolding ialloc_loop
ialloc dev type d = ialloc_loop (d.sb.ninodes - 1) 1 dev type d

unfoldable pub ilock : ℕ → Op (Unit {0})
unfolding read_dinode
ilock ip = do
  v ← get_inode ip
  if (ip == 0) || ltb v.ref 1 then fail else if not (v.valid == 0) then done tt else do
    b ← iblock v.inum
    bytes ← read_block b
    set_inode ip (record (read_dinode bytes (dinode_at v.inum) v) { valid = 1 })
    if get16 bytes (dinode_at v.inum) == 0 then fail else done tt

-- `iunlock` without the release of the lock.
unfoldable pub iunlock : ℕ → Op (Unit {0})
iunlock ip = do v ← get_inode ip; if (ip == 0) || ltb v.ref 1 then fail else done tt

-- `ip->addrs[i] = a`
abbrev pub set_addr : ℕ → ℕ → ℕ → Op (Unit {0})
set_addr ip i a = do v ← get_inode ip; set_inode ip (record v { addrs = update v.addrs i a })

-- The loop of `itrunc` over `n` direct blocks from `i` on.
unfoldable pub trunc_direct : ℕ → ℕ → ℕ → Op (Unit {0})
unfolding bfree
trunc_direct zero i ip = done tt
trunc_direct (suc n) i ip = do
  v ← get_inode ip
  (if v.addrs i == 0 then done tt else do bfree (v.addrs i); set_addr ip i 0)
  trunc_direct n (i + 1) ip

-- The loop over `n` entries of the indirect block from `j` on.
unfoldable pub trunc_indirect : ℕ → ℕ → (ℕ → ℕ) → Op (Unit {0})
unfolding bfree
trunc_indirect zero j bytes = done tt
trunc_indirect (suc n) j bytes = do
  (if get32 bytes (4 * j) == 0 then done tt else bfree (get32 bytes (4 * j)))
  trunc_indirect n (j + 1) bytes

unfoldable pub itrunc : ℕ → Op (Unit {0})
unfolding trunc_direct trunc_indirect bfree iupdate
itrunc ip = do
  trunc_direct ndirect 0 ip
  v ← get_inode ip
  (if v.addrs ndirect == 0 then done tt else do
    bytes ← read_block (v.addrs ndirect)
    trunc_indirect nindirect 0 bytes
    bfree (v.addrs ndirect)
    set_addr ip ndirect 0)
  w ← get_inode ip
  set_inode ip (record w { size = 0 })
  iupdate ip

unfoldable pub iput : ℕ → Op (Unit {0})
unfolding itrunc iupdate
iput ip = do
  v ← get_inode ip
  (if (v.ref == 1) && (not (v.valid == 0) && (v.nlink == 0))
      then (do
        itrunc ip
        w ← get_inode ip
        set_inode ip (record w { type = 0 })
        iupdate ip
        x ← get_inode ip
        set_inode ip (record x { valid = 0 }))
      else done tt)
  y ← get_inode ip
  set_inode ip (record y { ref = y.ref - 1 })

unfoldable pub iunlockput : ℕ → Op (Unit {0})
unfolding iunlock iput
iunlockput ip = do iunlock ip; iput ip

-- The loop of `ireclaim` over `n` inodes from `inum` on; `begin_op` and `end_op` are left out.
unfoldable pub reclaim_loop : ℕ → ℕ → ℕ → Op (Unit {0})
unfolding iget ilock iunlock iput
reclaim_loop zero inum dev = done tt
reclaim_loop (suc n) inum dev = do
  b ← iblock inum
  bytes ← read_block b
  (if not (get16 bytes (dinode_at inum) == 0) && (get16 bytes (dinode_at inum + 6) == 0)
      then (do ip ← iget dev inum; ilock ip; iunlock ip; iput ip)
      else done tt)
  reclaim_loop n (inum + 1) dev

unfoldable pub ireclaim : ℕ → Op (Unit {0})
unfolding reclaim_loop
ireclaim dev d = reclaim_loop (d.sb.ninodes - 1) 1 dev d

-- `bmap`; the address is 0 if the disk is full.
unfoldable pub bmap : ℕ → ℕ → Op ℕ
unfolding balloc
bmap ip bn = do
  v ← get_inode ip
  if ltb bn ndirect
      then (if not (v.addrs bn == 0)
          then done (v.addrs bn)
          else do addr ← balloc; if addr == 0 then done 0 else do set_addr ip bn addr; done addr)
      else if ltb (bn - ndirect) nindirect
      then (do
        table ←
            (if not (v.addrs ndirect == 0) then done (v.addrs ndirect) else do
              addr ← balloc
              if addr == 0 then done 0 else do set_addr ip ndirect addr; done addr)
        if table == 0 then done 0 else do
          bytes ← read_block table
          let addr = get32 bytes (4 * (bn - ndirect))
          if not (addr == 0) then done addr else do
            fresh_addr ← balloc
            if fresh_addr == 0 then done 0 else do
              now ← read_block table
              log_block table (put32 now (4 * (bn - ndirect)) fresh_addr)
              done fresh_addr)
      else fail
