-- ===== src/Locks/Nesting.antt =====
-- Nested calls of `push_off` and `pop_off`, kernel/spinlock.c.
use xv6_riscv_cs.Base.{
  Option, ap, arith, false, inl, inr, none, refl, some, suc, zero, ℕ, ◌<◌, ◌∙◌, ◌≡◌, ◌⊎◌,
}
use xv6_riscv_cs.Locks.{Cpu, push_off, pop_off}

-- `n` calls of `push_off`.
abbrev pub push_offs : ℕ → Cpu → Cpu
push_offs zero c = c
push_offs (suc n) c = push_offs n (push_off c)

abbrev pub then_pop : Option Cpu → Option Cpu
then_pop none = none
then_pop (some c) = pop_off c

-- `n` calls of `pop_off`.
abbrev pub pop_offs : ℕ → Cpu → Option Cpu
pop_offs zero c = some c
pop_offs (suc n) c = then_pop (pop_offs n c)

-- Interrupts are off inside a section.
pub record IsInside (c : Cpu) : Type 0 where
  pub nested : 0 < c.noff
  pub off : c.intr ≡ false

push_off-IsInside : (c : Cpu) → IsInside (push_off c)
unfolding push_off
push_off-IsInside c = ground arith

pop_off-push_off_inside : (c : Cpu) → IsInside c → pop_off (push_off c) ≡ some c
unfolding push_off pop_off
pop_off-push_off_inside c h = ground arith

pop_offs-inside : (n : ℕ) (c : Cpu) → IsInside c → pop_offs n (push_offs n c) ≡ some c
pop_offs-inside zero c h = refl
pop_offs-inside (suc n) c h =
    ap then_pop (pop_offs-inside n (push_off c) (push_off-IsInside c)) ∙ pop_off-push_off_inside c h

pop_off-push_off_outside :
    (c : Cpu) → c.noff ≡ 0 → pop_off (push_off c) ≡ some (record c { intena = c.intr })
unfolding push_off pop_off
pop_off-push_off_outside c h = ground arith

push_offs-IsInside : (n : ℕ) (c : Cpu) → IsInside c → IsInside (push_offs n c)
push_offs-IsInside zero c h = h
push_offs-IsInside (suc n) c h = push_offs-IsInside n (push_off c) (push_off-IsInside c)

-- Outside of every section, `n + 1` calls of `push_off` turn interrupts off, and as many calls of
-- `pop_off` after them do not panic and leave the interrupt flag and the depth as they were. Inside
-- of one, they leave the whole state as it was.
pub pop_offs-push_offs :
    (n : ℕ) (c : Cpu)
    → (c.noff ≡ 0) ⊎ IsInside c
    → IsInside (push_offs (suc n) c)
      × (((c.noff ≡ 0)
            × (pop_offs (suc n) (push_offs (suc n) c) ≡ some (record c { intena = c.intr })))
          ⊎ (pop_offs (suc n) (push_offs (suc n) c) ≡ some c))
pop_offs-push_offs n c (inl outside) = (
  push_offs-IsInside n (push_off c) (push_off-IsInside c),
  inl (
    outside,
    ap then_pop (pop_offs-inside n (push_off c) (push_off-IsInside c))
        ∙ pop_off-push_off_outside c outside,
  ),
)
pop_offs-push_offs n c (inr inside) = (
  push_offs-IsInside n (push_off c) (push_off-IsInside c),
  inr (pop_offs-inside (suc n) c inside),
)
