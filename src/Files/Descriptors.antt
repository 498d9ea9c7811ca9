-- ===== src/Files/Descriptors.antt =====
-- The system calls on file descriptors, kernel/sysfile.c. A descriptor is the argument register as a
-- `uint`, so that a negative one is large. The result `none` is -1.
use xv6_riscv_cs.Base.{
  Bool, Option, false, if◌then◌else◌, leb, none, some, suc, true, update, zero, ℕ, ◌+◌, ◌==◌,
}
use xv6_riscv_cs.Files.{◌>>=◌, ◌>>◌, Sys, give, filedup, fileclose, filestat}
use xv6_riscv_cs.Files.Transfer.{Caller, Transferred, fileread, filewrite, pipealloc}
use xv6_riscv_cs.Fs.Content.{Stat}
use xv6_riscv_cs.Pipe.{Pipecall, failed}
use xv6_riscv_cs.Proc.Exit.{nofile}

-- `argfd`: the open file, or 0 for -1.
unfoldable pub argfd : ℕ → Sys ℕ
argfd fd s = some (if leb nofile fd then 0 else s.ofile fd, s)

-- The loop of `fdalloc` over `n` descriptors from `fd` on.
unfoldable pub free_fd : ℕ → ℕ → (ℕ → ℕ) → Option ℕ
free_fd zero fd ofile = none
free_fd (suc n) fd ofile =
    let rest = free_fd n (fd + 1) ofile in if ofile fd == 0 then some fd else rest

abbrev pub set_fd : ℕ → ℕ → Sys (Unit {0})
set_fd fd f s = some (tt, record s { ofile = update s.ofile fd f })

abbrev pub take_fd : ℕ → Option ℕ → Sys (Option ℕ)
take_fd f none = give none
take_fd f (some fd) = do set_fd fd f; give (some fd)

unfoldable pub fdalloc : ℕ → Sys (Option ℕ)
unfolding free_fd
fdalloc f s = take_fd f (free_fd nofile 0 s.ofile) s

-- The part of `sys_dup` behind `fdalloc`.
abbrev pub dup_to : ℕ → Option ℕ → Sys (Option ℕ)
dup_to f none = give none
dup_to f (some fd) = do g ← filedup f; give (some fd)

unfoldable pub sys_dup : ℕ → Sys (Option ℕ)
unfolding argfd fdalloc filedup
sys_dup arg = do f ← argfd arg; if f == 0 then give none else do fd ← fdalloc f; dup_to f fd

unfoldable pub sys_read : (ℕ → Option Transferred) → Caller → ℕ → ℕ → ℕ → Sys Transferred
unfolding argfd fileread
sys_read devsw p arg addr n = do
  f ← argfd arg
  if f == 0 then give (failed, p.memory) else fileread devsw p f addr n

unfoldable pub sys_write : (ℕ → Option Pipecall) → Caller → ℕ → ℕ → ℕ → Sys Pipecall
unfolding argfd filewrite
sys_write devsw p arg addr n = do
  f ← argfd arg
  if f == 0 then give failed else filewrite devsw p f addr n

-- `sys_close`, whether it returns 0.
unfoldable pub sys_close : ℕ → Sys Bool
unfolding argfd fileclose
sys_close arg = do
  f ← argfd arg
  if f == 0 then give false else do set_fd arg 0; fileclose f; give true

unfoldable pub sys_fstat : (Stat → Bool) → ℕ → Sys Bool
unfolding argfd filestat
sys_fstat copyout arg = do f ← argfd arg; if f == 0 then give false else filestat copyout f

abbrev pub close_both : ℕ → ℕ → Sys Bool
close_both rf wf = do fileclose rf; fileclose wf; give false

-- The part of `sys_pipe` behind `fdalloc(wf)`. `copied fd0 fd1` tells whether both calls of
-- `copyout` succeed.
abbrev pub pipe_end : (ℕ → ℕ → Bool) → ℕ → ℕ → ℕ → Option ℕ → Sys Bool
pipe_end copied rf wf fd0 none = do set_fd fd0 0; close_both rf wf
pipe_end copied rf wf fd0 (some fd1) =
    if copied fd0 fd1 then give true else do set_fd fd0 0; set_fd fd1 0; close_both rf wf

abbrev pub pipe_middle : (ℕ → ℕ → Bool) → ℕ → ℕ → Option ℕ → Sys Bool
pipe_middle copied rf wf none = close_both rf wf
pipe_middle copied rf wf (some fd0) = do fd1 ← fdalloc wf; pipe_end copied rf wf fd0 fd1

abbrev pub pipe_start : (ℕ → ℕ → Bool) → Option (ℕ × ℕ) → Sys Bool
pipe_start copied none = give false
pipe_start copied (some (rf, wf)) = do fd0 ← fdalloc rf; pipe_middle copied rf wf fd0

-- `sys_pipe`, whether it returns 0.
unfoldable pub sys_pipe : (ℕ → ℕ → Bool) → ℕ → Sys Bool
unfolding pipealloc fdalloc fileclose
sys_pipe copied page = do files ← pipealloc page; pipe_start copied files
