-- ===== src/Vm/Copy.antt =====
-- `copyin`, `copyout` and `copyinstr` of kernel/vm.c.
use xv6_riscv_cs.Base.{
  Bool, false, if◌then◌else◌, leb, ltb, not, suc, true, zero, ℕ, ◌%◌, ◌*◌, ◌+◌, ◌-◌, ◌/◌, ◌==◌, ◌^◌,
}
use xv6_riscv_cs.Vm.Machine.{Run, give, load, panic, store, ◌>>=◌, ◌>>◌}
use xv6_riscv_cs.Vm.Table.{has_flag, maxva, no_page, pg_round_down, pgsize, pte_w, walk, walkaddr}
use xv6_riscv_cs.Vm.Space.{vmfault}

-- Byte `a` of the memory: the words are little-endian.
unfoldable pub load_byte : ℕ → Run ℕ
load_byte a = do w ← load (a / 8 * 8); give (w / 256 ^ (a % 8) % 256)

unfoldable pub store_byte : ℕ → ℕ → Run (Unit {0})
unfolding load_byte
store_byte a b = do
  w ← load (a / 8 * 8)
  old ← load_byte a
  store (a / 8 * 8) (w - old * 256 ^ (a % 8) + b % 256 * 256 ^ (a % 8))

-- `memmove` of `n` bytes between areas that do not overlap.
unfoldable pub move_bytes : ℕ → ℕ → ℕ → Run (Unit {0})
unfolding load_byte store_byte
move_bytes zero to from = give tt
move_bytes (suc n) to from = do
  b ← load_byte from
  store_byte to b
  move_bytes n (to + 1) (from + 1)

-- The bytes from `va` to the end of its page, at most `len`.
abbrev pub chunk : ℕ → ℕ → ℕ
chunk va len = let n = pgsize - (va - pg_round_down va) in if ltb len n then len else n

-- `walkaddr`, and `vmfault` where it returns 0.
unfoldable pub walkaddr_or_fault : ℕ → ℕ → Run ℕ
unfolding walkaddr vmfault
walkaddr_or_fault pagetable va0 = do
  pa0 ← walkaddr pagetable va0
  if pa0 == 0 then vmfault pagetable va0 else give pa0

-- The loop of `copyout`, whether it returns 0. Each round copies a byte at least, so `len` rounds
-- are enough.
unfoldable pub copyout_loop : ℕ → ℕ → ℕ → ℕ → ℕ → Run Bool
unfolding walkaddr_or_fault move_bytes
copyout_loop zero pagetable dstva src len = if len == 0 then give true else panic
copyout_loop (suc rounds) pagetable dstva src len = if len == 0 then give true else do
  let va0 = pg_round_down dstva
  let n = chunk dstva len
  if leb maxva va0 then give false else do
    pa0 ← walkaddr_or_fault pagetable va0
    if pa0 == 0 then give false else do
      at ← walk no_page pagetable va0
      pte ← load at
      if not (has_flag pte_w pte) then give false else do
        move_bytes n (pa0 + (dstva - va0)) src
        copyout_loop rounds pagetable (va0 + pgsize) (src + n) (len - n)

unfoldable pub copyout : ℕ → ℕ → ℕ → ℕ → Run Bool
unfolding copyout_loop
copyout pagetable dstva src len = copyout_loop len pagetable dstva src len

unfoldable pub copyin_loop : ℕ → ℕ → ℕ → ℕ → ℕ → Run Bool
unfolding walkaddr_or_fault move_bytes
copyin_loop zero pagetable dst srcva len = if len == 0 then give true else panic
copyin_loop (suc rounds) pagetable dst srcva len = if len == 0 then give true else do
  let va0 = pg_round_down srcva
  let n = chunk srcva len
  pa0 ← walkaddr_or_fault pagetable va0
  if pa0 == 0 then give false else do
    move_bytes n dst (pa0 + (srcva - va0))
    copyin_loop rounds pagetable (dst + n) (va0 + pgsize) (len - n)

unfoldable pub copyin : ℕ → ℕ → ℕ → ℕ → Run Bool
unfolding copyin_loop
copyin pagetable dst srcva len = copyin_loop len pagetable dst srcva len

-- The inner loop of `copyinstr`: whether it met the null byte.
unfoldable pub copy_string : ℕ → ℕ → ℕ → Run Bool
unfolding load_byte store_byte
copy_string zero dst p = give false
copy_string (suc n) dst p = do
  b ← load_byte p
  store_byte dst b
  if b == 0 then give true else copy_string n (dst + 1) (p + 1)

unfoldable pub copyinstr_loop : ℕ → ℕ → ℕ → ℕ → ℕ → Run Bool
unfolding walkaddr copy_string
copyinstr_loop zero pagetable dst srcva left = give false
copyinstr_loop (suc rounds) pagetable dst srcva left = if left == 0 then give false else do
  let va0 = pg_round_down srcva
  let n = chunk srcva left
  pa0 ← walkaddr pagetable va0
  if pa0 == 0 then give false else do
    got_null ← copy_string n dst (pa0 + (srcva - va0))
    if got_null
        then give true
        else copyinstr_loop rounds pagetable (dst + n) (va0 + pgsize) (left - n)

-- `copyinstr`, whether it returns 0. Each round reads a byte at least.
unfoldable pub copyinstr : ℕ → ℕ → ℕ → ℕ → Run Bool
unfolding copyinstr_loop
copyinstr pagetable dst srcva max = copyinstr_loop max pagetable dst srcva max
