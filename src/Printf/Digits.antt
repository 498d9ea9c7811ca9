-- ===== src/Printf/Digits.antt =====
-- The numbers that `printint` of kernel/printf.c prints.
use xv6_riscv_cs.Base.{
  ==_iff, Bool, Bool-cases, List, [], ap, arith, false, if◌then◌else◌, inl, inr, leb, leb→le,
  length, ltb, refl, suc, sym, true, zero, ℕ, ◌%◌, ◌&&◌, ◌+◌, ◌-◌, ◌/◌, ◌<◌, ◌==◌, ◌^◌, ◌∙◌, ◌∷◌,
  ◌≡◌, ◌≤◌, ◌⊎◌,
}
use native.Mathlib.Nat.{div-lt_iff_lt-mul, mod-add-div'}
use Prim.Native.Nat.{◌*◌}
use xv6_riscv_cs.Printf.{digit, digits_loop, printint}

-- The value of a digit, and of digits behind a number, in a base.
unfoldable pub digit_value : ℕ → ℕ
digit_value c = if ltb c b'a' then c - b'0' else c - b'a' + 10

abbrev pub read_digits : ℕ → ℕ → List ℕ → ℕ
read_digits base n [] = n
read_digits base n (c ∷ cs) = read_digits base (n * base + digit_value c) cs

abbrev pow : ℕ → ℕ → ℕ
pow base zero = 1
pow base (suc k) = pow base k * base

digit_value-digit : (d : ℕ) → d < 16 → digit_value (digit d) ≡ d
unfolding digit_value
digit_value-digit d h = ground arith

module _ (base : ℕ) (base_pos : 1 < base) (base_low : base ≤ 16) where
  low_digit : (x : ℕ) → x % base < 16
  low_digit x = grind arith

  -- The loop prints the number, and no more digits than it has.
  loop_value :
      (rounds x : ℕ) (buf : List ℕ)
      → x < pow base rounds
      → read_digits base 0 (digits_loop rounds base x buf) ≡ read_digits base x buf
  unfolding digits_loop
  loop_value zero x buf h =
      let e : x ≡ 0 = omega (arith, h) in ap (λ (n : ℕ). read_digits base n buf) (sym e)
  loop_value (suc rounds) x buf h =
      let value = digit_value-digit (x % base) (low_digit x) in
      let sum = mod-add-div' x base in
      elim (Bool-cases (x / base == 0)) [
        | inl last ↦
            let none_left : x / base ≡ 0 = (==_iff _ _).0 last in
            rw last (
              ap (λ (n : ℕ). read_digits base n buf)
                (omega (arith, value, sum, ap (λ (q : ℕ). q * base) none_left)))
        | inr more ↦
            let smaller : x / base < pow base rounds =
              (div-lt_iff_lt-mul {k = base} {x = x} {y = pow base rounds}
                  (omega (arith, base_pos))).1
                h in
            rw more (
              loop_value rounds (x / base) (digit (x % base) ∷ buf) smaller
              ∙ ap (λ (n : ℕ). read_digits base n buf) (omega (arith, value, sum)))
      ]

  loop_length :
      (rounds k x : ℕ) (buf : List ℕ)
      → x < pow base (suc k)
      → length (digits_loop rounds base x buf) ≤ k + 1 + length buf
  unfolding digits_loop
  loop_length zero k x buf h = omega arith
  loop_length (suc rounds) zero x buf h =
      let none_left : x / base < 1 =
        (div-lt_iff_lt-mul {k = base} {x = x} {y = 1} (omega (arith, base_pos))).1 h in
      let last : (x / base == 0) ≡ true = ground arith in rw last (omega arith)
  loop_length (suc rounds) (suc k) x buf h =
      let smaller : x / base < pow base (suc k) =
        (div-lt_iff_lt-mul {k = base} {x = x} {y = pow base (suc k)} (omega (arith, base_pos))).1
          h in
      let rest = loop_length rounds k (x / base) (digit (x % base) ∷ buf) smaller in
      elim (Bool-cases (x / base == 0)) [
        | inl last ↦ rw last (omega arith)
        | inr more ↦ rw more (omega (arith, rest))
      ]

-- The magnitude that `printint` prints, and whether there is a sign.
abbrev negative : ℕ → Bool → Bool
negative xx sign = sign && leb (2 ^ 63) xx

abbrev magnitude : ℕ → Bool → ℕ
magnitude xx sign = if negative xx sign then (2 ^ 64 - xx) % 2 ^ 64 else xx

magnitude-lt : (xx : ℕ) (sign : Bool) → xx < 2 ^ 64 → magnitude xx sign < 2 ^ 64
magnitude-lt xx sign h = elim (Bool-cases (negative xx sign)) [
  | inl below_zero ↦ rw below_zero (omega arith)
  | inr above ↦ rw above h
]

-- The digits that `printint` prints in base 10 or 16, behind the sign, read back as the number: the
-- value of the 64-bit pattern, or its distance from 2 ^ 64 for a negative number.
pub printint_lem :
    (xx base : ℕ) (sign : Bool)
    → xx < 2 ^ 64
    → (base ≡ 10) ⊎ (base ≡ 16)
    → (ds : List ℕ) × (printint xx base sign ≡ (if sign && leb (2 ^ 63) xx then b'-' ∷ ds else ds))
      × (read_digits base 0 ds ≡ (if sign && leb (2 ^ 63) xx then 2 ^ 64 - xx else xx))
unfolding printint
printint_lem xx base sign h which =
    (digits_loop 64 base (magnitude xx sign) [], refl, value ∙ same (negative xx sign) refl)
  where
    value : read_digits base 0 (digits_loop 64 base (magnitude xx sign) []) ≡ magnitude xx sign
    value = elim which [
      | inl ten ↦ rw ten (
          loop_value 10 (omega arith) (omega arith) 64 (magnitude xx sign) []
            (omega (arith, magnitude-lt xx sign h)))
      | inr sixteen ↦ rw sixteen (
          loop_value 16 (omega arith) (omega arith) 64 (magnitude xx sign) []
            (omega (arith, magnitude-lt xx sign h)))
    ]

    same :
        (b : Bool)
        → negative xx sign ≡ b
        → (if b then (2 ^ 64 - xx) % 2 ^ 64 else xx) ≡ (if b then 2 ^ 64 - xx else xx)
    same true e = let low : leb (2 ^ 63) xx ≡ true = ground arith in omega (arith, leb→le _ _ low)
    same false e = refl

-- What `printint` stores fits into its buffer of 20 characters, for the bases and signs for which
-- `printf` calls it.
pub printint-fits :
    (xx : ℕ) (sign : Bool)
    → xx < 2 ^ 64
    → (length (printint xx 10 sign) ≤ 20) × (length (printint xx 16 false) ≤ 20)
unfolding printint
printint-fits xx sign h = (
  elim (Bool-cases (negative xx sign)) [
    | inl below_zero ↦
        let low : leb (2 ^ 63) xx ≡ true = ground arith in
        let x : ℕ = (2 ^ 64 - xx) % 2 ^ 64 in
        let small : x < pow 10 19 = omega (arith, leb→le _ _ low) in
        rw below_zero (omega (arith, loop_length 10 (omega arith) (omega arith) 64 18 x [] small))
    | inr above ↦
        rw above
          (omega (arith, loop_length 10 (omega arith) (omega arith) 64 19 xx [] (omega arith)))
  ],
  omega (arith, loop_length 16 (omega arith) (omega arith) 64 15 xx [] (omega arith)),
)
