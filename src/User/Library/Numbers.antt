-- ===== src/User/Library/Numbers.antt =====
-- `atoi` of user/ulib.c reads the numbers that `printint` of kernel/printf.c prints.
use xv6_riscv_cs.Base.{
  Bool-cases, List, [], ap, arith, false, inl, inr, refl, suc, true, zero, ℕ, ◌%◌, ◌*◌, ◌++◌, ◌+◌,
  ◌-◌, ◌/◌, ◌<◌, ◌==◌, ◌^◌, ◌∙◌, ◌∷◌, ◌≡◌, ◌≤◌,
}
use xv6_riscv_cs.Printf.{digit, digits_loop, printint}
use xv6_riscv_cs.Printf.Digits.{digit_value, printint_lem, read_digits}
use xv6_riscv_cs.User.Library.{atoi, atoi_loop, is_digit}
use xv6_riscv_cs.Strings.{front}

abbrev AreDigits : List ℕ → Type 0
AreDigits [] = Unit {0}
AreDigits (c ∷ cs) = (is_digit c ≡ true) × (digit_value c ≡ c - b'0') × AreDigits cs

digit-IsDigit :
    (d : ℕ) → d < 10 → (is_digit (digit d) ≡ true) × (digit_value (digit d) ≡ digit d - b'0')
unfolding is_digit digit_value
digit-IsDigit d h = (ground arith, ground arith)

digits_loop-AreDigits :
    (rounds x : ℕ) (buf : List ℕ) → AreDigits buf → AreDigits (digits_loop rounds 10 x buf)
unfolding digits_loop
digits_loop-AreDigits zero x buf h = h
digits_loop-AreDigits (suc rounds) x buf h =
    let (one, value) = digit-IsDigit (x % 10) (omega arith) in
    elim (Bool-cases (x / 10 == 0)) [
      | inl last ↦ rw last (one, value, h)
      | inr more ↦
          rw more (digits_loop-AreDigits rounds (x / 10) (digit (x % 10) ∷ buf) (one, value, h))
    ]

is_digit-low : (c : ℕ) → is_digit c ≡ true → b'0' ≤ c
unfolding is_digit
is_digit-low c h = ground arith

-- No digit stands at the front of the text.
abbrev pub IsEnd : List ℕ → Type 0
IsEnd s = is_digit (front s) ≡ false

atoi_loop-digits :
    (n : ℕ) (cs k : List ℕ)
    → AreDigits cs
    → IsEnd k
    → atoi_loop (n % 2 ^ 32) (cs ++ k) ≡ read_digits 10 n cs % 2 ^ 32
unfolding atoi_loop
atoi_loop-digits n [] [] h end = refl
atoi_loop-digits n [] (c ∷ k) h end = rw end refl
atoi_loop-digits n (c ∷ cs) k (one, value, h) end = rw one (
    ap (λ m. atoi_loop m (cs ++ k)) {x = (n % 2 ^ 32 * 10 + c - b'0') % 2 ^ 32}
      {y = (n * 10 + digit_value c) % 2 ^ 32} (omega (arith, is_digit-low c one, value))
    ∙ atoi_loop-digits (n * 10 + digit_value c) cs k h end)

-- `atoi` reads back what `printint` prints of a word in base 10, whatever stands behind the digits, if
-- it is not a digit.
pub atoi-printint :
    (x : ℕ) (k : List ℕ) → x < 2 ^ 32 → IsEnd k → atoi (printint x 10 false ++ k) ≡ x
unfolding atoi atoi_loop printint
atoi-printint x k lt end =
    let (ds, e, v) = printint_lem x 10 false (omega (arith, lt)) (inl refl) in
    let all = digits_loop 64 10 x [] in
    let same : read_digits 10 0 all ≡ x = ap (read_digits 10 0) e ∙ v in
    atoi_loop-digits 0 all k (digits_loop-AreDigits 64 x [] tt) end
    ∙ ap (λ m. m % 2 ^ 32) same
    ∙ omega (arith, lt)
