-- ===== src/Printf.antt =====
-- The formatter of kernel/printf.c. Its output is the list of the characters given to `consputc`.
pub mod Digits
use xv6_riscv_cs.Base.{
  Bool, List, Option, [], false, if◌then◌else◌, leb, ltb, not, some, suc, true, zero, ℕ, ◌%◌, ◌&&◌,
  ◌*◌, ◌++◌, ◌+◌, ◌-◌, ◌/◌, ◌==◌, ◌^◌, ◌∷◌,
}

-- A variadic argument: 64 bits, or a string (`none` for a null pointer).
pub data Arg : Type 0 where
  number_arg : ℕ → Arg
  string_arg : Option (List ℕ) → Arg

-- What `va_arg` reads; an argument that is missing or of another kind reads as 0.
abbrev pub arg_bits : List Arg → ℕ
arg_bits (number_arg v ∷ args) = v
arg_bits _ = 0

abbrev pub arg_text : List Arg → List ℕ
arg_text (string_arg (some s) ∷ args) = s
arg_text _ = b'(' ∷ b'n' ∷ b'u' ∷ b'l' ∷ b'l' ∷ b')' ∷ []

abbrev pub arg_rest : List Arg → List Arg
arg_rest [] = []
arg_rest (_ ∷ args) = args

-- An `int` as a `long long`, and a `uint32`.
abbrev pub sign_extend : ℕ → ℕ
sign_extend v = let low = v % 2 ^ 32 in if ltb low (2 ^ 31) then low else 2 ^ 64 - 2 ^ 32 + low

-- `digits[d]`
abbrev pub digit : ℕ → ℕ
digit d = if ltb d 10 then b'0' + d else b'a' + (d - 10)

-- The loop that fills `buf` from its start; the list has the last character first. A number of 64
-- bits has at most 64 digits.
unfoldable pub digits_loop : ℕ → ℕ → ℕ → List ℕ → List ℕ
digits_loop zero base x buf = buf
digits_loop (suc rounds) base x buf =
    let buf' = digit (x % base) ∷ buf in
    let rest = digits_loop rounds base (x / base) buf' in if x / base == 0 then buf' else rest

-- `printint`; `sign` is the argument.
unfoldable pub printint : ℕ → ℕ → Bool → List ℕ
printint xx base sign =
    let negative = sign && leb (2 ^ 63) xx in
    let x = if negative then (2 ^ 64 - xx) % 2 ^ 64 else xx in
    let buf = digits_loop 64 base x [] in if negative then b'-' ∷ buf else buf

-- The loop of `printptr` for `n` digits.
unfoldable pub ptr_loop : ℕ → ℕ → List ℕ
ptr_loop zero x = []
ptr_loop (suc n) x = digit (x / 2 ^ 60) ∷ ptr_loop n (x * 16 % 2 ^ 64)

unfoldable pub printptr : ℕ → List ℕ
printptr x = b'0' ∷ b'x' ∷ ptr_loop 16 x

-- The conversion that `c0`, `c1`, `c2` behind a `%` name: what it prints, the arguments left, and
-- by how much `i` grows.
unfoldable pub convert : ℕ → ℕ → ℕ → List Arg → List ℕ × List Arg × ℕ
convert c0 c1 c2 args =
    let v = arg_bits args in
    let next = arg_rest args in
    if c0 == b'd'
    then (printint (sign_extend v) 10 true, next, 0)
    else if (c0 == b'l') && (c1 == b'd')
    then (printint v 10 true, next, 1)
    else if (c0 == b'l') && ((c1 == b'l') && (c2 == b'd'))
    then (printint v 10 true, next, 2)
    else if c0 == b'u'
    then (printint (v % 2 ^ 32) 10 false, next, 0)
    else if (c0 == b'l') && (c1 == b'u')
    then (printint v 10 false, next, 1)
    else if (c0 == b'l') && ((c1 == b'l') && (c2 == b'u'))
    then (printint v 10 false, next, 2)
    else if c0 == b'x'
    then (printint (v % 2 ^ 32) 16 false, next, 0)
    else if (c0 == b'l') && (c1 == b'x')
    then (printint v 16 false, next, 1)
    else if (c0 == b'l') && ((c1 == b'l') && (c2 == b'x'))
    then (printint v 16 false, next, 2)
    else if c0 == b'p'
    then (printptr v, next, 0)
    else if c0 == b'c'
    then ((v % 256) ∷ [], next, 0)
    else if c0 == b's'
    then (arg_text args, next, 0)
    else if c0 == b'%'
    then (b'%' ∷ [], args, 0)
    else (b'%' ∷ c0 ∷ [], args, 0)

-- The character at an index of a string, 0 behind its end.
abbrev pub char_at : List ℕ → ℕ → ℕ
char_at [] i = 0
char_at (c ∷ cs) zero = c
char_at (c ∷ cs) (suc i) = char_at cs i

-- The loop of `printf`, with `skip` characters to pass over; behind a `%` the string may end.
unfoldable pub print_loop : ℕ → List ℕ → List Arg → List ℕ
print_loop skip [] args = []
print_loop (suc skip) (c ∷ fmt) args = print_loop skip fmt args
print_loop zero (c ∷ fmt) args =
    let plain = print_loop 0 fmt args in
    let (out, args', more) = convert (char_at fmt 0) (char_at fmt 1) (char_at fmt 2) args in
    let behind = print_loop (more + 1) fmt args' in
    if not (c == b'%') then c ∷ plain else if char_at fmt 0 == 0 then [] else out ++ behind

unfoldable pub printf : List ℕ → List Arg → List ℕ
printf fmt args = print_loop 0 fmt args
