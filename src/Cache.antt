-- ===== src/Cache.antt =====
-- The buffer cache, kernel/bio.c. Buffer `i` of the array is number `i + 1`; 0 is `bcache.head`. The
-- links of the list are two tables.
pub mod Ring
pub mod Release
pub mod Search
pub mod Lookup
use xv6_riscv_cs.Base.{
  Option, if◌then◌else◌, none, not, some, suc, update, zero, ℕ, ◌%◌, ◌&&◌, ◌+◌, ◌-◌, ◌==◌, ◌^◌,
}
use xv6_riscv_cs.Locks.{Sleeplock, acquiresleep, holdingsleep, initsleeplock, releasesleep}

-- NBUF of kernel/param.h
abbrev pub nbuf : ℕ
nbuf = 30

-- `struct buf` without its links. `contents` is the field `data`.
pub record Buf : Type 0 where
  pub valid : ℕ
  pub dev : ℕ
  pub blockno : ℕ
  pub lock : Sleeplock
  pub refcnt : ℕ
  pub contents : ℕ → ℕ

-- `struct bcache`, and the blocks of the disks: `disk dev blockno` is a function of the byte.
pub record Cache : Type 0 where
  pub buf : ℕ → Buf
  pub next : ℕ → ℕ
  pub prev : ℕ → ℕ
  pub disk : ℕ → ℕ → ℕ → ℕ

-- `refcnt` is a `uint`.
abbrev pub inc : ℕ → ℕ
inc n = (n + 1) % 2 ^ 32

abbrev pub dec : ℕ → ℕ
dec n = (n + 2 ^ 32 - 1) % 2 ^ 32

abbrev pub set_buf : ℕ → Buf → Cache → Cache
set_buf b v c = record c { buf = update c.buf b v }

abbrev pub set_next : ℕ → ℕ → Cache → Cache
set_next b n c = record c { next = update c.next b n }

abbrev pub set_prev : ℕ → ℕ → Cache → Cache
set_prev b p c = record c { prev = update c.prev b p }

-- The four assignments that put a buffer behind the head.
unfoldable pub link_front : ℕ → Cache → Cache
link_front b c =
    let c1 = set_next b (c.next 0) c in
    let c2 = set_prev b 0 c1 in let c3 = set_prev (c2.next 0) b c2 in set_next 0 b c3

-- The two assignments that take it out.
unfoldable pub unlink : ℕ → Cache → Cache
unlink b c = let c1 = set_prev (c.next b) (c.prev b) c in set_next (c1.prev b) (c1.next b) c1

-- The loop of `binit` over `n` buffers from `b` on.
unfoldable pub init_loop : ℕ → ℕ → Cache → Cache
unfolding link_front initsleeplock
init_loop zero b c = c
init_loop (suc n) b c =
    init_loop n (b + 1) (link_front b (set_buf b (record (c.buf b) { lock = initsleeplock }) c))

unfoldable pub binit : Cache → Cache
unfolding init_loop
binit c = init_loop nbuf 1 (set_next 0 0 (set_prev 0 0 c))

-- The first loop of `bget`, of `n` rounds at most from `b` on; 0 if it finds none.
unfoldable pub find_cached : ℕ → ℕ → ℕ → ℕ → Cache → ℕ
find_cached zero b dev blockno c = 0
find_cached (suc n) b dev blockno c =
    let rest = find_cached n (c.next b) dev blockno c in
    if b == 0
    then 0
    else if ((c.buf b).dev == dev) && ((c.buf b).blockno == blockno)
    then b
    else rest

-- The second loop of `bget`.
unfoldable pub find_unused_buf : ℕ → ℕ → Cache → ℕ
find_unused_buf zero b c = 0
find_unused_buf (suc n) b c =
    let rest = find_unused_buf n (c.prev b) c in
    if b == 0 then 0 else if (c.buf b).refcnt == 0 then b else rest

-- What a call gives: a panic, the sleep on the lock of the buffer that was chosen, or the buffer.
pub data Got : Type 0 where
  no_buffers : Got
  sleeps : ℕ → Cache → Got
  got : ℕ → Cache → Got

abbrev pub with_lock : ℕ → Cache → Option Sleeplock → Got
with_lock b c none = sleeps b c
with_lock b c (some l) = got b (set_buf b (record (c.buf b) { lock = l }) c)

-- `acquiresleep(&b->lock)` in process `pid`.
unfoldable pub lock_buf : ℕ → ℕ → Cache → Got
unfolding acquiresleep
lock_buf pid b c = with_lock b c (acquiresleep pid (c.buf b).lock)

-- The part of `bget` behind its loops.
unfoldable pub bget_entry : ℕ → ℕ → ℕ → ℕ → ℕ → Cache → Got
unfolding lock_buf
bget_entry cached unused pid dev blockno c =
    if not (cached == 0)
    then lock_buf pid cached
        (set_buf cached (record (c.buf cached) { refcnt = inc (c.buf cached).refcnt }) c)
    else if unused == 0
    then no_buffers
    else lock_buf pid unused (
        set_buf unused
          (record (c.buf unused) { dev = dev; blockno = blockno; valid = 0; refcnt = 1 }) c)

unfoldable pub bget : ℕ → ℕ → ℕ → Cache → Got
unfolding find_cached find_unused_buf bget_entry
bget pid dev blockno c =
    bget_entry (find_cached (nbuf + 1) (c.next 0) dev blockno c)
      (find_unused_buf (nbuf + 1) (c.prev 0) c) pid dev blockno c

-- `virtio_disk_rw` as its effect, for a read.
unfoldable pub disk_read : ℕ → Cache → Cache
disk_read b c = set_buf b (record (c.buf b) { contents = c.disk (c.buf b).dev (c.buf b).blockno }) c

-- The part of `bread` behind `bget`.
unfoldable pub fill_buffer : ℕ → Cache → Cache
unfolding disk_read
fill_buffer b c =
    let filled = disk_read b c in
    if (c.buf b).valid == 0 then set_buf b (record (filled.buf b) { valid = 1 }) filled else c

unfoldable pub bread : ℕ → ℕ → ℕ → Cache → Got
unfolding bget fill_buffer
bread pid dev blockno c = elim (bget pid dev blockno c) [
  | no_buffers ↦ no_buffers
  | sleeps b c' ↦ sleeps b c'
  | got b c' ↦ got b (fill_buffer b c')
]

unfoldable pub bwrite : ℕ → ℕ → Cache → Option Cache
unfolding holdingsleep
bwrite pid b c =
    if not (holdingsleep pid (c.buf b).lock)
    then none
    else let v = c.buf b in
      some (record c { disk = update c.disk v.dev (update (c.disk v.dev) v.blockno v.contents) })

-- The move of a buffer that nobody waits for to the front of the list.
unfoldable pub move_free : ℕ → Cache → Cache
unfolding unlink link_front
move_free b c = if (c.buf b).refcnt == 0 then link_front b (unlink b c) else c

-- The part of `brelse` behind `releasesleep`.
unfoldable pub drop_buf : ℕ → Cache → Cache
unfolding move_free
drop_buf b c = move_free b (set_buf b (record (c.buf b) { refcnt = dec (c.buf b).refcnt }) c)

unfoldable pub brelse : ℕ → ℕ → Cache → Option Cache
unfolding holdingsleep releasesleep drop_buf
brelse pid b c =
    if not (holdingsleep pid (c.buf b).lock)
    then none
    else some (drop_buf b (set_buf b (record (c.buf b) { lock = releasesleep (c.buf b).lock }) c))

unfoldable pub bpin : ℕ → Cache → Cache
bpin b c = set_buf b (record (c.buf b) { refcnt = inc (c.buf b).refcnt }) c

unfoldable pub bunpin : ℕ → Cache → Cache
bunpin b c = set_buf b (record (c.buf b) { refcnt = dec (c.buf b).refcnt }) c
