-- ===== src/Tests/Devices.antt =====
-- The theorems of the console and of the disk driver at small states.
use xv6_riscv_cs.Base.{[], arith, false, if◌then◌else◌, ltb, refl, some, ◌==◌, ◌≡◌}
use xv6_riscv_cs.Console.{Console, consoleintr, consputc, erase, kill_loop, line_count}
use xv6_riscv_cs.Virtio.{Driver, alloc_desc, find_desc, zero_desc}
use xv6_riscv_cs.Console.Edits.{IsConsole, IsEdited, edit, line, ready, ready_count}
use xv6_riscv_cs.Console.Line.{consoleintr-IsEdited}

-- `a` is on the line that is edited, and `x` and an end of line can be read.
abbrev one_line : Console
one_line = record {
  buf = λ i. if i == 0 then b'x' else if i == 1 then b'\n' else b'a';
  r = 0;
  w = 2;
  e = 3;
  sent = [];
}

one_line-IsConsole : IsConsole one_line
unfolding ready_count line_count
one_line-IsConsole = record {
  r_word = omega arith;
  w_word = omega arith;
  e_word = omega arith;
  fits = omega arith;
  plain = λ k lt z. ground (arith, z, lt);
}

consoleintr-IsEdited_example :
    IsEdited (consoleintr 13 one_line) (edit 13 (ready one_line) (line one_line))
consoleintr-IsEdited_example = consoleintr-IsEdited 13 one_line one_line-IsConsole

-- Control-U takes `a` away.
killed_line : (consoleintr 21 one_line).e ≡ 2
unfolding consoleintr kill_loop erase consputc line_count
killed_line = refl

-- Descriptor 0 is in use.
abbrev one_used : Driver
one_used = record {
  desc = λ i. zero_desc;
  free = λ i. ltb 0 i;
  used_idx = 0;
  buf_of = λ i. 0;
  status = λ i. 0;
  ops = λ i. record { type = 0; reserved = 0; sector = 0 };
  avail = λ i. 0;
  avail_idx = 0;
  used = λ i. 0;
  used_count = 0;
  busy = λ b. false;
}

-- The chain begins at descriptor 1.
first_descriptor : (alloc_desc one_used).0 ≡ some 1
unfolding alloc_desc find_desc
first_descriptor = refl
