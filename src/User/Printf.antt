-- ===== src/User/Printf.antt =====
-- The formatter of user/printf.c. Its output is the list of the characters given to `putc`. The
-- table `digits` is an argument of the functions that use it.
pub mod Same
use xv6_riscv_cs.Base.{
  Bool, List, [], false, if◌then◌else◌, leb, ltb, suc, true, zero, ℕ, ◌%◌, ◌&&◌, ◌*◌, ◌++◌, ◌+◌,
  ◌-◌, ◌/◌, ◌==◌, ◌^◌, ◌∷◌,
}
use xv6_riscv_cs.Printf.{Arg, arg_bits, arg_rest, arg_text, char_at, sign_extend}

-- `digits` of user/printf.c
abbrev pub upper_digit : ℕ → ℕ
upper_digit d = if ltb d 10 then b'0' + d else b'A' + (d - 10)

-- The do loop of `printint`; the list has the last character of `buf` first.
unfoldable pub fill_buf : (ℕ → ℕ) → ℕ → ℕ → ℕ → List ℕ → List ℕ
fill_buf table zero base x buf = buf
fill_buf table (suc rounds) base x buf =
    let buf' = table (x % base) ∷ buf in
    let rest = fill_buf table rounds base (x / base) buf' in if x / base == 0 then buf' else rest

unfoldable pub print_int : (ℕ → ℕ) → ℕ → ℕ → Bool → List ℕ
print_int table xx base sgn =
    let neg = sgn && leb (2 ^ 63) xx in
    let x = if neg then (2 ^ 64 - xx) % 2 ^ 64 else xx in
    let buf = fill_buf table 64 base x [] in if neg then b'-' ∷ buf else buf

unfoldable pub print_nibbles : (ℕ → ℕ) → ℕ → ℕ → List ℕ
print_nibbles table zero x = []
print_nibbles table (suc n) x = table (x / 2 ^ 60) ∷ print_nibbles table n (x * 16 % 2 ^ 64)

unfoldable pub print_ptr : (ℕ → ℕ) → ℕ → List ℕ
print_ptr table x = b'0' ∷ b'x' ∷ print_nibbles table 16 x

-- The branch for the state `'%'`: what it prints, the arguments left, and by how much `i` grows.
unfoldable pub directive : (ℕ → ℕ) → ℕ → ℕ → ℕ → List Arg → List ℕ × List Arg × ℕ
directive table c0 c1 c2 args =
    let v = arg_bits args in
    let rest = arg_rest args in
    if c0 == b'd'
    then (print_int table (sign_extend v) 10 true, rest, 0)
    else if (c0 == b'l') && (c1 == b'd')
    then (print_int table v 10 true, rest, 1)
    else if (c0 == b'l') && ((c1 == b'l') && (c2 == b'd'))
    then (print_int table v 10 true, rest, 2)
    else if c0 == b'u'
    then (print_int table (v % 2 ^ 32) 10 false, rest, 0)
    else if (c0 == b'l') && (c1 == b'u')
    then (print_int table v 10 false, rest, 1)
    else if (c0 == b'l') && ((c1 == b'l') && (c2 == b'u'))
    then (print_int table v 10 false, rest, 2)
    else if c0 == b'x'
    then (print_int table (v % 2 ^ 32) 16 false, rest, 0)
    else if (c0 == b'l') && (c1 == b'x')
    then (print_int table v 16 false, rest, 1)
    else if (c0 == b'l') && ((c1 == b'l') && (c2 == b'x'))
    then (print_int table v 16 false, rest, 2)
    else if c0 == b'p'
    then (print_ptr table v, rest, 0)
    else if c0 == b'c'
    then ((v % 256) ∷ [], rest, 0)
    else if c0 == b's'
    then (arg_text args, rest, 0)
    else if c0 == b'%'
    then (b'%' ∷ [], args, 0)
    else (b'%' ∷ c0 ∷ [], args, 0)

-- The loop of `vprintf`: `in_directive` is `state == '%'`, and `skip` counts the characters that
-- `i += 1` and `i += 2` pass over.
unfoldable pub vprintf_loop : (ℕ → ℕ) → ℕ → Bool → List ℕ → List Arg → List ℕ
vprintf_loop table skip in_directive [] args = []
vprintf_loop table (suc skip) in_directive (c ∷ fmt) args =
    vprintf_loop table skip in_directive fmt args
vprintf_loop table zero false (c ∷ fmt) args =
    let plain = vprintf_loop table 0 false fmt args in
    let percent = vprintf_loop table 0 true fmt args in if c == b'%' then percent else c ∷ plain
vprintf_loop table zero true (c ∷ fmt) args =
    let (out, args', more) = directive table c (char_at fmt 0) (char_at fmt 1) args in
    out ++ vprintf_loop table more false fmt args'

unfoldable pub vprintf : List ℕ → List Arg → List ℕ
vprintf fmt args = vprintf_loop upper_digit 0 false fmt args
