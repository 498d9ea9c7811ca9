-- ===== src/Tests/Pipes.antt =====
-- The theorems of the pipe at a pipe whose counters are about to wrap around.
use xv6_riscv_cs.Base.{
  Option, arith, false, if◌then◌else◌, inl, leb, ltb, none, refl, some, true, ℕ, ◌&&◌, ◌-◌, ◌==◌,
  ◌≡◌,
}
use xv6_riscv_cs.Pipe.Fifo.{IsPipe, count}
use xv6_riscv_cs.Pipe.Read.{IsRead, piperead-IsRead}
use xv6_riscv_cs.Pipe.Write.{IsWritten, pipewrite-IsWritten}
use xv6_riscv_cs.Pipe.{
  Pipe, Pipecall, drop_byte, is_empty, is_full, next_byte, piperead, pipewrite, put_byte, read_loop,
  write_loop,
}

-- Bytes 65 and 66 are in the pipe, at indices 510 and 511, and `nwrite` has wrapped around.
abbrev two_bytes : Pipe
two_bytes = record {
  data_at = λ i. if i == 510 then 65 else 66;
  nread = 4294967294;
  nwrite = 0;
  readopen = true;
  writeopen = true;
}

two_bytes-IsPipe : IsPipe two_bytes
unfolding count
two_bytes-IsPipe = record {
  nread_word = omega arith;
  nwrite_word = omega arith;
  bounded = omega arith;
}

-- The caller's bytes stand at addresses from 4096 to 4098.
abbrev user_bytes : ℕ → Option ℕ
user_bytes a = if leb 4096 a && ltb a 4099 then some (a - 4000) else none

pipewrite-IsWritten_example :
    IsWritten user_bytes false 4096 5 0 two_bytes (pipewrite user_bytes false 4096 5 two_bytes)
pipewrite-IsWritten_example = pipewrite-IsWritten user_bytes false 4096 5 two_bytes two_bytes-IsPipe

-- Three of the five bytes can be read.
write_three : (pipewrite user_bytes false 4096 5 two_bytes).0 ≡ Pipecall.returned 3
unfolding pipewrite write_loop is_full put_byte
write_three = refl

piperead-IsRead_example :
    IsRead
      (λ a. true)
      4096
      10
      0
      two_bytes
      (λ a. 0)
      (piperead (λ a. true) false 4096 10 two_bytes (λ a. 0))
unfolding count
piperead-IsRead_example =
    piperead-IsRead (λ a. true) false 4096 10 two_bytes (λ a. 0) two_bytes-IsPipe (omega arith)
      (inl (omega arith))

read_two : (piperead (λ a. true) false 4096 10 two_bytes (λ a. 0)).0 ≡ Pipecall.returned 2
unfolding piperead read_loop is_empty drop_byte next_byte
read_two = refl
