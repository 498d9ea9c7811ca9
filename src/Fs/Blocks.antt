-- ===== src/Fs/Blocks.antt =====
-- `bzero`, `balloc` and `bfree` of kernel/fs.c.
pub mod Bitmap
use xv6_riscv_cs.Base.{
  Option, bit_and, bit_or, if◌then◌else◌, ltb, none, some, suc, update, zero, ℕ, ◌%◌, ◌+◌, ◌-◌, ◌/◌,
  ◌==◌, ◌^◌,
}
use xv6_riscv_cs.Fs.{◌>>=◌, ◌>>◌, Op, done, fail, log_block, read_block, bpb}

unfoldable pub bzero : ℕ → Op (Unit {0})
bzero bno = log_block bno (λ i. 0)

-- `1 << (bi % 8)`
abbrev pub bit_mask : ℕ → ℕ
bit_mask bi = 2 ^ (bi % 8)

-- The inner loop of `balloc` over `n` bits from `bi` on: the first one that is clear.
unfoldable pub clear_bit : ℕ → ℕ → (ℕ → ℕ) → Option ℕ
clear_bit zero bi bytes = none
clear_bit (suc n) bi bytes =
    let rest = clear_bit n (bi + 1) bytes in
    if bit_and (bytes (bi / 8)) (bit_mask bi) == 0 then some bi else rest

-- `bp->data[bi/8] |= m`
abbrev pub set_bit : (ℕ → ℕ) → ℕ → ℕ → ℕ
set_bit bytes bi = update bytes (bi / 8) (bit_or (bytes (bi / 8)) (bit_mask bi))

-- How many bits the inner loop looks at, for the map block of `b`.
abbrev pub bits_from : ℕ → ℕ → ℕ
bits_from size b = if ltb size (b + bpb) then size - b else bpb

-- What a round of the outer loop does with the bit `b + bi` that the inner loop found in block `m`.
unfoldable pub take_bit : ℕ → ℕ → Option ℕ → Op ℕ → Op ℕ
unfolding bzero
take_bit b m none next = next
take_bit b m (some bi) next = do
  bytes ← read_block m
  log_block m (set_bit bytes bi)
  bzero (b + bi)
  done (b + bi)

-- The outer loop of `balloc` over `n` map blocks, from that of block `b` on.
unfoldable pub balloc_loop : ℕ → ℕ → Op ℕ
unfolding clear_bit take_bit
balloc_loop zero b d = done 0 d
balloc_loop (suc n) b d =
    let m = b / bpb + d.sb.bmapstart in
    take_bit b m (clear_bit (bits_from d.sb.size b) 0 (d.block m)) (balloc_loop n (b + bpb)) d

unfoldable pub balloc : Op ℕ
unfolding balloc_loop
balloc d = balloc_loop ((d.sb.size + bpb - 1) / bpb) 0 d

unfoldable pub bfree : ℕ → Op (Unit {0})
bfree b = do
  sb ← (λ d. some (d.sb, d))
  let map_block = b / bpb + sb.bmapstart
  let bi = b % bpb
  bytes ← read_block map_block
  if bit_and (bytes (bi / 8)) (bit_mask bi) == 0
      then fail
      else log_block map_block
          (update bytes (bi / 8) (bit_and (bytes (bi / 8)) (255 - bit_mask bi)))
