-- ===== src/Fs/Content/Rounds.antt =====
-- The rounds of the loops of `readi` and `writei` of kernel/fs.c.
use xv6_riscv_cs.Base.{
  Bool, Bool-cases, List, Option, [], ap, arith, fun_ext, if◌then◌else◌, inl, inr, leb, refl, some,
  suc, true, zero, ℕ, ◌+◌, ◌-◌, ◌<◌, ◌≡◌, ◌≤◌,
}
use xv6_riscv_cs.Fs.{Op, Disk, done}
use xv6_riscv_cs.Fs.Content.{piece, readi_loop, writei_loop, readi_round, writei_round}

-- A round moves a byte at least.
piece_pos : (off left : ℕ) → 0 < left → 0 < piece off left
piece_pos off left h = omega arith

-- As many rounds as bytes are left are enough for the loop of `readi`: one more makes no
-- difference.
pub readi_loop-enough :
    (copyout : ℕ → List ℕ → Bool) (rounds ip off tot n : ℕ) (d : Disk)
    → n ≤ tot + rounds
    → readi_loop copyout (suc rounds) ip off tot n d ≡ readi_loop copyout rounds ip off tot n d
unfolding readi_loop
readi_loop-enough copyout zero ip off tot n d h =
    let full : leb n tot ≡ true = ground arith in rw full refl
readi_loop-enough copyout (suc rounds) ip off tot n d h = elim (Bool-cases (leb n tot)) [
  | inl full ↦ rw full refl
  | inr more ↦
      let m = piece off (n - tot) in
      let some_left : tot < n = ground arith in
      let moved = piece_pos off (n - tot) (omega arith) in
      ap
        (λ (next : Op (Option ℕ × List ℕ)).
          (if leb n tot then done (some tot, []) else readi_round copyout ip off tot m next) d)
        (fun_ext (λ d'.
          readi_loop-enough copyout rounds ip (off + m) (tot + m) n d' (omega (arith, moved))))
]

-- The same for the loop of `writei`.
pub writei_loop-enough :
    (copyin : ℕ → ℕ → Option (List ℕ)) (rounds ip off tot n : ℕ) (d : Disk)
    → n ≤ tot + rounds
    → writei_loop copyin (suc rounds) ip off tot n d ≡ writei_loop copyin rounds ip off tot n d
unfolding writei_loop
writei_loop-enough copyin zero ip off tot n d h =
    let full : leb n tot ≡ true = ground arith in rw full refl
writei_loop-enough copyin (suc rounds) ip off tot n d h = elim (Bool-cases (leb n tot)) [
  | inl full ↦ rw full refl
  | inr more ↦
      let m = piece off (n - tot) in
      let some_left : tot < n = ground arith in
      let moved = piece_pos off (n - tot) (omega arith) in
      ap
        (λ (next : Op (ℕ × ℕ)).
          (if leb n tot then done (tot, off) else writei_round copyin ip off tot m next) d)
        (fun_ext (λ d'.
          writei_loop-enough copyin rounds ip (off + m) (tot + m) n d' (omega (arith, moved))))
]
