-- ===== src/Tests/Bytes.antt =====
-- The theorems of the string functions at a small memory.
use xv6_riscv_cs.Base.{refl, ℕ, ◌≡◌}
use xv6_riscv_cs.Strings.Areas.{IsMoved, memmove-IsMoved}
use xv6_riscv_cs.Strings.{copy_down, memmove}

-- Byte `a` of the memory is `a`.
abbrev identity : ℕ → ℕ
identity a = a

memmove-IsMoved_example : IsMoved 12 10 4 identity (memmove 12 10 4 identity)
memmove-IsMoved_example = memmove-IsMoved 12 10 4 identity

-- The areas overlap: the byte at 12 is read before it is overwritten.
last_byte : memmove 12 10 4 identity 14 ≡ 12
unfolding memmove copy_down
last_byte = refl
