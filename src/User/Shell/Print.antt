-- ===== src/User/Shell/Print.antt =====
-- A text for each command of user/sh.c: parts of a command stand in parentheses.
use xv6_riscv_cs.Base.{
  List, [], arith, length, length-append, true, ℕ, ◌*◌, ◌++◌, ◌+◌, ◌<◌, ◌∷◌, ◌≡◌, ◌≤◌,
}
use xv6_riscv_cs.User.Shell.{
  Cmd, Redirection, input, output, append, exec, redir, pipe, list, back, is_word_char, maxargs,
}

abbrev pub IsWord : List ℕ → Type 0
IsWord [] = ⊥
IsWord (c ∷ []) = is_word_char c ≡ true
IsWord (c ∷ d ∷ w) = (is_word_char c ≡ true) × IsWord (d ∷ w)

abbrev pub AreWords : List (List ℕ) → Type 0
AreWords [] = Unit {0}
AreWords (w ∷ ws) = IsWord w × AreWords ws

-- The commands that the shell can hold: their words have characters, and are not too many.
abbrev pub IsPrintable : Cmd → Type 0
IsPrintable (exec ws) = AreWords ws × (length ws < maxargs)
IsPrintable (redir c file r) = IsPrintable c × IsWord file
IsPrintable (pipe l r) = IsPrintable l × IsPrintable r
IsPrintable (list l r) = IsPrintable l × IsPrintable r
IsPrintable (back c) = IsPrintable c

-- The text of a command with `k` behind it.
abbrev pub args_to : List (List ℕ) → List ℕ → List ℕ
args_to [] k = k
args_to (w ∷ ws) k = w ++ (32 ∷ args_to ws k)

abbrev pub arrow_to : Redirection → List ℕ → List ℕ
arrow_to input k = b'<' ∷ k
arrow_to output k = b'>' ∷ k
arrow_to append k = b'>' ∷ b'>' ∷ k

abbrev pub print_to : Cmd → List ℕ → List ℕ
print_to (exec ws) k = args_to ws k
print_to (redir c file r) k = b'(' ∷ print_to c (b')' ∷ arrow_to r (file ++ k))
print_to (pipe l r) k = b'(' ∷ print_to l (b')' ∷ b'|' ∷ b'(' ∷ print_to r (b')' ∷ k))
print_to (list l r) k = b'(' ∷ print_to l (b')' ∷ b';' ∷ b'(' ∷ print_to r (b')' ∷ k))
print_to (back c) k = b'(' ∷ print_to c (b')' ∷ b'&' ∷ k)

-- The fuel that the parser needs for the text of a command.
abbrev pub need : Cmd → ℕ
need (exec ws) = length ws + 5
need (redir c file r) = need c + 6
need (pipe l r) = need l + need r + 6
need (list l r) = need l + need r + 6
need (back c) = need c + 6

length-args_to : (ws : List (List ℕ)) (k : List ℕ) → length ws + length k ≤ length (args_to ws k)
length-args_to [] k = omega arith
length-args_to (w ∷ ws) k =
    omega (arith, length-append {0} w (32 ∷ args_to ws k), length-args_to ws k)

length-arrow_to : (r : Redirection) (k : List ℕ) → 1 + length k ≤ length (arrow_to r k)
length-arrow_to input k = omega arith
length-arrow_to output k = omega arith
length-arrow_to append k = omega arith

-- The fuel of `parsecmd` is enough for it.
pub need-le : (c : Cmd) (k : List ℕ) → need c + 4 * length k ≤ 4 * length (print_to c k) + 5
need-le (exec ws) k = omega (arith, length-args_to ws k)
need-le (redir c file r) k = omega (
  arith,
  need-le c (b')' ∷ arrow_to r (file ++ k)),
  length-arrow_to r (file ++ k),
  length-append {0} file k,
)
need-le (pipe l r) k =
    omega (arith, need-le l (b')' ∷ b'|' ∷ b'(' ∷ print_to r (b')' ∷ k)), need-le r (b')' ∷ k))
need-le (list l r) k =
    omega (arith, need-le l (b')' ∷ b';' ∷ b'(' ∷ print_to r (b')' ∷ k)), need-le r (b')' ∷ k))
need-le (back c) k = omega (arith, need-le c (b')' ∷ b'&' ∷ k))
