-- ===== src/Vm/Machine.antt =====
-- The state that the virtual memory code works on, and functions that may panic.
use xv6_riscv_cs.Base.{Option, if◌then◌else◌, leb, ltb, none, some, update, ℕ, ◌&&◌, ◌+◌, ◌-◌, ◌≡◌}
use xv6_riscv_cs.Vm.{FrameTable}
use xv6_riscv_cs.Proc.{Kernel, Proc, set_proc}

-- `word a` is the 64-bit word at physical address `a`, a multiple of 8. `freelist` is that of
-- `kmem`, `kernel_end` the linker's `end`, and `me` the process of this processor.
pub record Machine : Type 0 where
  pub word : ℕ → ℕ
  pub freelist : ℕ
  pub kernel_end : ℕ
  pub kernel : Kernel
  pub frametable : FrameTable
  pub swap_mask : ℕ → ℕ
  pub me : ℕ

-- A result and the new state, or `none` for `panic`.
abbrev pub Run : Type 0 → Type 0
Run A = Machine → Option (A × Machine)

infixl 5 ◌>>=◌ ◌>>◌
abbrev pub ◌>>=◌ : {A B : Type 0} → Run A → (A → Run B) → Run B
◌>>=◌ r f m = elim (r m) [ none ↦ none | some (a, m') ↦ f a m' ]

abbrev pub ◌>>◌ : {B : Type 0} → Run (Unit {0}) → Run B → Run B
r >> k = r >>= λ _. k

abbrev pub give : {A : Type 0} → A → Run A
give a m = some (a, m)

abbrev pub panic : {A : Type 0} → Run A
panic m = none

abbrev pub load : ℕ → Run ℕ
load a m = some (m.word a, m)

abbrev pub store : ℕ → ℕ → Run (Unit {0})
store a v m = some (tt, record m { word = update m.word a v })

-- `memset` of a whole page, by the word that its bytes make up.
abbrev pub filled : (ℕ → ℕ) → ℕ → ℕ → ℕ → ℕ
filled word p v a = if leb p a && ltb a (p + 4096) then v else word a

abbrev pub fill_page : ℕ → ℕ → Run (Unit {0})
fill_page p v m = some (tt, record m { word = filled m.word p v })

-- `memmove` of a whole page.
abbrev pub copy_page : ℕ → ℕ → Run (Unit {0})
copy_page to from m = some (
  tt,
  record m {
    word = λ a. if leb to a && ltb a (to + 4096) then m.word (from + (a - to)) else m.word a;
  },
)

abbrev pub change_proc : ℕ → (Proc → Proc) → Run (Unit {0})
change_proc p f m = some (tt, record m { kernel = set_proc p (f (m.kernel.proc p)) m.kernel })

-- The first step of a sequence, once its result is known.
pub bind_lem :
    {A B : Type 0} (r : Run A) (f : A → Run B) (m : Machine) {a : A} {m' : Machine}
    → r m ≡ some (a, m')
    → (r >>= f) m ≡ f a m'
bind_lem r f m e = rw (e, ◌>>=◌)
