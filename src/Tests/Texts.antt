-- ===== src/Tests/Texts.antt =====
-- The theorems of the formatters and of the matcher at short strings.
use xv6_riscv_cs.Base.{
  List, [], arith, false, if◌then◌else◌, inl, leb, length, refl, true, ℕ, ◌&&◌, ◌++◌, ◌-◌, ◌^◌, ◌↔◌,
  ◌∷◌, ◌≡◌, ◌≤◌,
}
use xv6_riscv_cs.User.Grep.Matches.{MatchesIn, match_iff}
use xv6_riscv_cs.Printf.{convert, digits_loop, number_arg, print_loop, printf, printint}
use xv6_riscv_cs.User.Grep.{match}
use xv6_riscv_cs.Printf.Digits.{printint-fits, printint_lem, read_digits}
use xv6_riscv_cs.User.Library.{atoi, is_digit}
use xv6_riscv_cs.User.Library.Numbers.{atoi-printint}

printint_lem_example :
    (ds : List ℕ) × (printint (2 ^ 64 - 42) 10 true
      ≡ (if true && leb (2 ^ 63) (2 ^ 64 - 42) then b'-' ∷ ds else ds))
    × (read_digits 10 0 ds
        ≡ (if true && leb (2 ^ 63) (2 ^ 64 - 42) then 2 ^ 64 - (2 ^ 64 - 42) else 2 ^ 64 - 42))
printint_lem_example = printint_lem (2 ^ 64 - 42) 10 true (omega arith) (inl refl)

printint-fits_example :
    (length (printint (2 ^ 63) 10 true) ≤ 20) × (length (printint (2 ^ 63) 16 false) ≤ 20)
printint-fits_example = printint-fits (2 ^ 63) true (omega arith)

minus_42 : printint (2 ^ 64 - 42) 10 true ≡ b'-' ∷ b'4' ∷ b'2' ∷ []
unfolding printint digits_loop
minus_42 = refl

hexadecimal : printf (b'%' ∷ b'x' ∷ []) (number_arg 255 ∷ []) ≡ b'f' ∷ b'f' ∷ []
unfolding printf print_loop convert printint digits_loop
hexadecimal = refl

match_iff_example :
    (match (b'a' ∷ b'*' ∷ b'b' ∷ []) (b'c' ∷ b'a' ∷ b'b' ∷ []) ≡ true)
    ↔ MatchesIn (b'a' ∷ b'*' ∷ b'b' ∷ []) (b'c' ∷ b'a' ∷ b'b' ∷ [])
match_iff_example = match_iff (b'a' ∷ b'*' ∷ b'b' ∷ []) (b'c' ∷ b'a' ∷ b'b' ∷ [])

finds : match (b'a' ∷ b'*' ∷ b'b' ∷ []) (b'c' ∷ b'a' ∷ b'b' ∷ []) ≡ true
unfolding match
finds = refl

atoi-printint_example : atoi (printint 2026 10 false ++ (b'x' ∷ [])) ≡ 2026
unfolding is_digit
atoi-printint_example = atoi-printint 2026 (b'x' ∷ []) (omega arith) refl
