-- ===== src/Tests/Descriptors.antt =====
-- The theorems of the file table at a small state.
use xv6_riscv_cs.Base.{
  ==_iff, Bool-cases, [], ap, arith, false, if◌then◌else◌, inl, inr, ltb, refl, some, true, ℕ, ◌==◌,
  ◌≡◌,
}
use xv6_riscv_cs.Files.{File, System, fd_inode}
use xv6_riscv_cs.Fs.{Inode}
use xv6_riscv_cs.Files.Close.{IsClosed, sys_close-IsClosed}
use xv6_riscv_cs.Files.References.{
  IsCounted, IsDuplicated, sys_dup-IsDuplicated, tally, tally_ne, tally_self,
}
use xv6_riscv_cs.Pipe.{Pipe}
use xv6_riscv_cs.Files.Descriptors.{argfd, free_fd, sys_close, sys_dup}

-- A file with `ref` references to inode 3.
abbrev file_with : ℕ → File
file_with ref = record {
  type = fd_inode;
  ref = ref;
  readable = true;
  writable = false;
  pipe = 0;
  ip = 3;
  off = 0;
  major = 0;
}

abbrev no_pipe : Pipe
no_pipe = record { data_at = λ i. 0; nread = 0; nwrite = 0; readopen = false; writeopen = false }

abbrev idle_inode : Inode
idle_inode = record {
  dev = 1;
  inum = 3;
  ref = 1;
  valid = 1;
  type = 2;
  major = 0;
  minor = 0;
  nlink = 1;
  size = 0;
  addrs = λ i. 0;
}

-- Descriptors 0, 1 and 2 are open on file 1, which another process has open once.
abbrev three_open : System
three_open = record {
  disk = record {
    block = λ b i. 0;
    logged = [];
    sb = record { size = 2000; ninodes = 200; inodestart = 33; bmapstart = 46 };
    inode = λ i. idle_inode;
  };
  file = λ f. file_with (if f == 1 then 4 else 0);
  pipes = λ p. no_pipe;
  freed = [];
  ofile = λ fd. if ltb fd 3 then 1 else 0;
  cwd = 1;
}

abbrev one_other : ℕ → ℕ
one_other f = if f == 1 then 1 else 0

three_open-IsCounted : IsCounted one_other three_open
three_open-IsCounted f pos = elim (Bool-cases (f == 1)) [
  | inl e ↦ rw e (
      omega (
        arith,
        tally_ne 0 f (λ z. omega (arith, z, pos)),
        ap (tally 1) ((==_iff f 1).0 e),
        tally_self 1,
      ))
  | inr e ↦
      rw e (omega (arith, tally_ne 0 f (λ z. omega (arith, z, pos)), tally_ne 1 f (ground arith)))
]

sys_dup-IsDuplicated_example : IsDuplicated one_other 2 three_open (sys_dup 2 three_open)
sys_dup-IsDuplicated_example = sys_dup-IsDuplicated one_other 2 three_open three_open-IsCounted

sys_close-IsClosed_example : IsClosed one_other 2 three_open (sys_close 2 three_open)
sys_close-IsClosed_example = sys_close-IsClosed one_other 2 three_open three_open-IsCounted

-- Descriptor 3 is the first free one.
first_free : free_fd 16 0 three_open.ofile ≡ some 3
unfolding free_fd
first_free = refl

-- 16 is not a descriptor.
no_descriptor : sys_close 16 three_open ≡ some (false, three_open)
unfolding sys_close argfd
no_descriptor = refl
