-- ===== src/Pipe.antt =====
-- kernel/pipe.c: the pipe's ring of PIPESIZE bytes, between two waits of its callers.
pub mod Fifo
pub mod Write
pub mod Read
use xv6_riscv_cs.Base.{
  Bool, Option, false, if◌then◌else◌, none, not, some, suc, update, zero, ℕ, ◌%◌, ◌&&◌, ◌+◌, ◌==◌,
  ◌^◌, ◌||◌,
}

abbrev pub pipesize : ℕ
pipesize = 512

-- `struct pipe`, without its lock. A `uint` counter keeps its wrap-around.
pub record Pipe : Type 0 where
  pub data_at : ℕ → ℕ
  pub nread : ℕ
  pub nwrite : ℕ
  pub readopen : Bool
  pub writeopen : Bool

-- What a caller of the pipe comes to: -1, a number of bytes, or a wait with that many copied.
pub data Pipecall : Type 0 where
  failed : Pipecall
  returned : ℕ → Pipecall
  blocked : ℕ → Pipecall

-- `pi->nwrite == pi->nread + PIPESIZE`.
unfoldable pub is_full : Pipe → Bool
is_full p = p.nwrite == (p.nread + pipesize) % 2 ^ 32

unfoldable pub is_empty : Pipe → Bool
is_empty p = p.nread == p.nwrite

-- `pi->data[pi->nwrite++ % PIPESIZE] = ch`.
unfoldable pub put_byte : Pipe → ℕ → Pipe
put_byte p ch = record p {
  data_at = update p.data_at (p.nwrite % pipesize) ch;
  nwrite = (p.nwrite + 1) % 2 ^ 32;
}

-- `pi->data[pi->nread % PIPESIZE]`.
unfoldable pub next_byte : Pipe → ℕ
next_byte p = p.data_at (p.nread % pipesize)

-- `pi->nread++`.
unfoldable pub drop_byte : Pipe → Pipe
drop_byte p = record p { nread = (p.nread + 1) % 2 ^ 32 }

-- The loop of `pipewrite` for `m` bytes from byte `i` on. `copyin` gives the caller's byte at
-- an address, where it has one.
unfoldable pub write_loop : (ℕ → Option ℕ) → Bool → ℕ → ℕ → ℕ → Pipe → Pipecall × Pipe
unfolding is_full put_byte
write_loop copyin killed addr zero i p = (returned i, p)
write_loop copyin killed addr (suc m) i p =
    if not p.readopen || killed
    then (failed, p)
    else if is_full p
    then (blocked i, p)
    else elim (copyin ((addr + i) % 2 ^ 64)) [
      | none ↦ (returned i, p)
      | some ch ↦ write_loop copyin killed addr m (i + 1) (put_byte p ch)
    ]

unfoldable pub pipewrite : (ℕ → Option ℕ) → Bool → ℕ → ℕ → Pipe → Pipecall × Pipe
unfolding write_loop
pipewrite copyin killed addr n p = write_loop copyin killed addr n 0 p

-- The second loop of `piperead`, for `m` bytes from byte `i` on, with the caller's memory.
-- `writable` tells the addresses at which `copyout` succeeds.
unfoldable pub read_loop : (ℕ → Bool) → ℕ → ℕ → ℕ → Pipe → (ℕ → ℕ) → Pipecall × Pipe × (ℕ → ℕ)
unfolding is_empty next_byte drop_byte
read_loop writable addr zero i p mem = (returned i, p, mem)
read_loop writable addr (suc m) i p mem =
    if is_empty p
    then (returned i, p, mem)
    else if writable ((addr + i) % 2 ^ 64)
    then read_loop writable addr m (i + 1) (drop_byte p)
        (update mem ((addr + i) % 2 ^ 64) (next_byte p))
    else ((if i == 0 then failed else returned i), p, mem)

unfoldable pub piperead : (ℕ → Bool) → Bool → ℕ → ℕ → Pipe → (ℕ → ℕ) → Pipecall × Pipe × (ℕ → ℕ)
unfolding read_loop
piperead writable killed addr n p mem =
    if is_empty p && p.writeopen
    then ((if killed then failed else blocked 0), p, mem)
    else read_loop writable addr n 0 p mem

-- `pipeclose`, and whether it freed the pipe.
unfoldable pub pipeclose : Bool → Pipe → Pipe × Bool
pipeclose writable p =
    let closed =
      if writable then record p { writeopen = false } else record p { readopen = false } in
    (closed, not closed.readopen && not closed.writeopen)
