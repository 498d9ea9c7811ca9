-- ===== src/Console.antt =====
-- The line editor of kernel/console.c: the input ring, with the `uint` counters `r`, `w` and `e`. The
-- interrupt is a function of its character; `consoleread` runs up to the next wait of its caller.
pub mod Edits
pub mod Line
use xv6_riscv_cs.Base.{
  Bool, List, Option, [], if◌then◌else◌, ltb, none, not, some, suc, update, zero, ℕ, ◌%◌, ◌&&◌,
  ◌++◌, ◌+◌, ◌-◌, ◌==◌, ◌^◌, ◌||◌, ◌∷◌,
}
use xv6_riscv_cs.Pipe.{Pipecall, blocked, failed, returned}

abbrev pub input_buf_size : ℕ
input_buf_size = 128

abbrev pub backspace : ℕ
backspace = 0x100

-- `C(x)`, for a character above `@`
abbrev pub control : ℕ → ℕ
control x = x - b'@'

-- `cons`, and `sent`, the characters given to the uart.
pub record Console : Type 0 where
  pub buf : ℕ → ℕ
  pub r : ℕ
  pub w : ℕ
  pub e : ℕ
  pub sent : List ℕ

-- What `consputc` sends for a character.
unfoldable pub uart_chars : ℕ → List ℕ
uart_chars c = if c == backspace then 8 ∷ 32 ∷ 8 ∷ [] else c ∷ []

unfoldable pub consputc : ℕ → Console → Console
unfolding uart_chars
consputc c s = record s { sent = s.sent ++ uart_chars c }

-- `cons.e--` with its echo.
unfoldable pub erase : Console → Console
unfolding consputc
erase s = consputc backspace (record s { e = (s.e + 2 ^ 32 - 1) % 2 ^ 32 })

-- How many characters are between `w` and `e`.
unfoldable pub line_count : Console → ℕ
line_count s = (s.e + 2 ^ 32 - s.w) % 2 ^ 32

-- The loop for Control-U, of `n` rounds at most.
unfoldable pub kill_loop : ℕ → Console → Console
unfolding erase
kill_loop zero s = s
kill_loop (suc n) s =
    let rest = kill_loop n (erase s) in
    if s.e == s.w
    then s
    else if s.buf ((s.e + 2 ^ 32 - 1) % 2 ^ 32 % input_buf_size) == b'\n'
    then s
    else rest

-- `cons.e - cons.r`
unfoldable pub used_count : Console → ℕ
used_count s = (s.e + 2 ^ 32 - s.r) % 2 ^ 32

-- `cons.buf[cons.e++ % INPUT_BUF_SIZE] = c`
unfoldable pub store_char : ℕ → Console → Console
store_char c s = record s { buf = update s.buf (s.e % input_buf_size) c; e = (s.e + 1) % 2 ^ 32 }

-- The commit of a whole line, without the `wakeup`.
unfoldable pub end_line : ℕ → Console → Console
unfolding used_count
end_line c s =
    if (c == b'\n') || (c == control b'D') || (used_count s == input_buf_size)
    then record s { w = s.e }
    else s

-- `(c == '\r') ? '\n' : c`
unfoldable pub newline_of : ℕ → ℕ
newline_of c = if c == b'\r' then b'\n' else c

unfoldable pub add_char : ℕ → Console → Console
unfolding consputc store_char end_line
add_char c s = end_line c (store_char c (consputc c s))

-- `consoleintr`; `procdump` only prints.
unfoldable pub consoleintr : ℕ → Console → Console
unfolding kill_loop line_count erase used_count newline_of add_char
consoleintr c s =
    if c == control b'P'
    then s
    else if c == control b'U'
    then kill_loop (line_count s) s
    else if (c == control b'H') || (c == 127)
    then (if s.e == s.w then s else erase s)
    else if not (c == 0) && ltb (used_count s) input_buf_size
    then add_char (newline_of c) s
    else s

-- The loop of `consoleread` for `n` of `target` bytes, with the caller's memory. `writable` tells the
-- addresses at which `either_copyout` succeeds.
unfoldable pub take_chars :
    (ℕ → Bool) → Bool → ℕ → ℕ → ℕ → Console → (ℕ → ℕ) → Pipecall × Console × (ℕ → ℕ)
take_chars writable killed target dst zero s mem = (returned target, s, mem)
take_chars writable killed target dst (suc n) s mem =
    let c = s.buf (s.r % input_buf_size) in
    let next = record s { r = (s.r + 1) % 2 ^ 32 } in
    let stored = update mem dst c in
    let rest = take_chars writable killed target ((dst + 1) % 2 ^ 64) n next stored in
    if s.r == s.w
    then ((if killed then failed else blocked (target - suc n)), s, mem)
    else if c == control b'D'
    then (returned (target - suc n), (if ltb (suc n) target then s else next), mem)
    else if not (writable dst)
    then (returned (target - suc n), next, mem)
    else if c == b'\n'
    then (returned (target - n), next, stored)
    else rest

unfoldable pub consoleread :
    (ℕ → Bool) → Bool → ℕ → ℕ → Console → (ℕ → ℕ) → Pipecall × Console × (ℕ → ℕ)
unfolding take_chars
consoleread writable killed dst n s mem = take_chars writable killed n dst n s mem

-- The loop of `consolewrite`, of `m` rounds at most. `copied` is `either_copyin`: the bytes at an
-- address, if they can be read. `uartwrite` is what it sends.
unfoldable pub write_batches : (ℕ → ℕ → Option (List ℕ)) → ℕ → ℕ → ℕ → ℕ → Console → ℕ × Console
write_batches copied zero src i n s = (i, s)
write_batches copied (suc m) src i n s =
    let nn = if ltb (n - i) 32 then n - i else 32 in
    if ltb i n
    then elim (copied ((src + i) % 2 ^ 64) nn) [
      | none ↦ (i, s)
      | some cs ↦ write_batches copied m src (i + nn) n (record s { sent = s.sent ++ cs })
    ]
    else (i, s)

unfoldable pub consolewrite : (ℕ → ℕ → Option (List ℕ)) → ℕ → ℕ → Console → ℕ × Console
unfolding write_batches
consolewrite copied src n s = write_batches copied n src 0 n s
