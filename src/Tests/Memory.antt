-- ===== src/Tests/Memory.antt =====
-- The theorems of the swap area and the clock at small states.
use xv6_riscv_cs.Base.{arith, false, if◌then◌else◌, ltb, refl, ℕ, ◌==◌, ◌≡◌}
use xv6_riscv_cs.Vm.{FrameTable}
use xv6_riscv_cs.Vm.Clock.Victim.{
  IsVictim, find_victim-IsVictim, find_victim-hand, find_victim-none,
}
use xv6_riscv_cs.Vm.Clock.{better, evictable, find_victim, scan, scan_step}
use xv6_riscv_cs.Tests.Samples.{kernel}

-- Slots 0 and 1 are taken.
abbrev mask : ℕ → ℕ
mask i = if ltb i 2 then 1 else 0

-- Frames 10 and 11 hold pages of the runnable child and of the sleeping shell.
abbrev frames : FrameTable
frames = record {
  f = λ i.
      if i == 10
      then record { is_used = 1; p = 3; va = 0; rb = 0 }
      else if i == 11
      then record { is_used = 1; p = 2; va = 4096; rb = 0 }
      else record { is_used = 0; p = 0; va = 0; rb = 0 };
  clock_p = 5;
}

-- The child is at the lower level, so its page goes.
find_victim-IsVictim_example : IsVictim 1 kernel frames (omega arith) 10
unfolding find_victim scan scan_step evictable better
find_victim-IsVictim_example = find_victim-IsVictim 1 kernel frames (omega arith) 10 refl

find_victim-hand_example : (find_victim 1 kernel frames).clock_p ≡ 5
find_victim-hand_example = find_victim-hand 1 kernel frames (omega arith)

abbrev no_frames : FrameTable
no_frames = record { f = λ i. record { is_used = 0; p = 0; va = 0; rb = 0 }; clock_p = 5 }

find_victim-none_example : evictable 1 kernel (no_frames.f 7) ≡ false
unfolding find_victim scan scan_step evictable better
find_victim-none_example = find_victim-none 1 kernel no_frames (omega arith) refl 7 (omega arith)
