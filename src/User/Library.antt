-- ===== src/User/Library.antt =====
-- user/ulib.c without the calls of the system. A string is the list of its bytes, with or without its
-- 0, as in Strings; a `char` is a byte.
pub mod Same
pub mod Numbers
use xv6_riscv_cs.Base.{
  Bool, List, Option, [], if◌then◌else◌, leb, ltb, none, not, some, suc, zero, ℕ, ◌%◌, ◌&&◌, ◌*◌,
  ◌+◌, ◌-◌, ◌==◌, ◌^◌, ◌||◌, ◌∷◌,
}
use xv6_riscv_cs.Strings.{byte_diff, behind, copy_down, copy_up, front, set_loop}
use xv6_riscv_cs.Console.Edits.{line}

-- The bytes that `strcpy` writes.
unfoldable pub strcpy : List ℕ → List ℕ
strcpy [] = 0 ∷ []
strcpy (c ∷ t) = let rest = strcpy t in if c == 0 then 0 ∷ [] else c ∷ rest

unfoldable pub strcmp : List ℕ → List ℕ → ℕ
strcmp [] q = byte_diff 0 (front q)
strcmp (c ∷ p) q =
    let rest = strcmp p (behind q) in
    if not (c == 0) && (c == front q) then rest else byte_diff c (front q)

unfoldable pub strlen : List ℕ → ℕ
strlen [] = 0
strlen (c ∷ s) = let rest = strlen s in if c == 0 then 0 else rest + 1

unfoldable pub memset : ℕ → ℕ → ℕ → (ℕ → ℕ) → ℕ → ℕ
unfolding set_loop
memset dst c n mem = set_loop dst c n 0 mem

-- `strchr`, the part of the string from the character on.
unfoldable pub strchr : List ℕ → ℕ → Option (List ℕ)
strchr [] c = none
strchr (d ∷ s) c =
    let rest = strchr s c in if d == 0 then none else if d == c % 256 then some (d ∷ s) else rest

-- The loop of `gets` for `n` characters at most, from the input that `read` gives, with what is left
-- of this input.
unfoldable pub gets_loop : ℕ → List ℕ → List ℕ × List ℕ
gets_loop zero stream = (0 ∷ [], stream)
gets_loop (suc n) [] = (0 ∷ [], [])
gets_loop (suc n) (c ∷ stream) =
    let (line, rest) = gets_loop n stream in
    if (c == b'\n') || (c == b'\r') then (c ∷ 0 ∷ [], stream) else (c ∷ line, rest)

unfoldable pub gets : ℕ → List ℕ → List ℕ × List ℕ
unfolding gets_loop
gets max stream = gets_loop (max - 1) stream

unfoldable pub is_digit : ℕ → Bool
is_digit c = leb b'0' c && leb c b'9'

-- The loop of `atoi`; the `int` is a word.
unfoldable pub atoi_loop : ℕ → List ℕ → ℕ
unfolding is_digit
atoi_loop n [] = n
atoi_loop n (c ∷ s) =
    let rest = atoi_loop ((n * 10 + c - b'0') % 2 ^ 32) s in if is_digit c then rest else n

unfoldable pub atoi : List ℕ → ℕ
unfolding atoi_loop
atoi s = atoi_loop 0 s

unfoldable pub memmove : ℕ → ℕ → ℕ → (ℕ → ℕ) → ℕ → ℕ
unfolding copy_up copy_down
memmove dst src n mem =
    if ltb dst src then copy_up n dst src mem else copy_down n (dst + n) (src + n) mem

unfoldable pub memcmp : ℕ → List ℕ → List ℕ → ℕ
memcmp zero p q = 0
memcmp (suc n) p q =
    let rest = memcmp n (behind p) (behind q) in
    if not (front p == front q) then byte_diff (front p) (front q) else rest
