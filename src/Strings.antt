-- ===== src/Strings.antt =====
-- kernel/string.c. `memmove` and `memset` work on a memory of bytes. Areas do not wrap around the end
-- of the address space, and `n` is below 2 ^ 31, so that the `int` index of `memset` does not overflow.
pub mod Areas
pub mod Copies
use xv6_riscv_cs.Base.{
  List, [], if◌then◌else◌, ltb, not, suc, update, zero, ℕ, ◌%◌, ◌&&◌, ◌+◌, ◌-◌, ◌==◌, ◌^◌, ◌∷◌,
}

-- The loop of `memset` from index `i` on, for `n` bytes.
unfoldable pub set_loop : ℕ → ℕ → ℕ → ℕ → (ℕ → ℕ) → ℕ → ℕ
set_loop dst c zero i mem = mem
set_loop dst c (suc n) i mem = set_loop dst c n (i + 1) (update mem (dst + i) (c % 256))

unfoldable pub memset : ℕ → ℕ → ℕ → (ℕ → ℕ) → ℕ → ℕ
unfolding set_loop
memset dst c n mem = set_loop dst c n 0 mem

-- `*d++ = *s++`, `n` times.
unfoldable pub copy_up : ℕ → ℕ → ℕ → (ℕ → ℕ) → ℕ → ℕ
copy_up zero d s mem = mem
copy_up (suc n) d s mem = copy_up n (d + 1) (s + 1) (update mem d (mem s))

-- `*--d = *--s`, `n` times.
unfoldable pub copy_down : ℕ → ℕ → ℕ → (ℕ → ℕ) → ℕ → ℕ
copy_down zero d s mem = mem
copy_down (suc n) d s mem = copy_down n (d - 1) (s - 1) (update mem (d - 1) (mem (s - 1)))

unfoldable pub memmove : ℕ → ℕ → ℕ → (ℕ → ℕ) → ℕ → ℕ
unfolding copy_up copy_down
memmove dst src n mem =
    if n == 0
    then mem
    else if ltb src dst && ltb dst (src + n)
    then copy_down n (dst + n) (src + n) mem
    else copy_up n dst src mem

-- C strings as lists of bytes: `*s` is 0 behind the end of the list.
abbrev pub front : List ℕ → ℕ
front [] = 0
front (c ∷ cs) = c

abbrev pub behind : List ℕ → List ℕ
behind [] = []
behind (c ∷ cs) = cs

-- A difference of two bytes as an `int`.
abbrev pub byte_diff : ℕ → ℕ → ℕ
byte_diff a b = (2 ^ 32 + a - b) % 2 ^ 32

unfoldable pub memcmp : ℕ → List ℕ → List ℕ → ℕ
memcmp zero p q = 0
memcmp (suc n) p q =
    let rest = memcmp n (behind p) (behind q) in
    if front p == front q then rest else byte_diff (front p) (front q)

unfoldable pub strncmp : ℕ → List ℕ → List ℕ → ℕ
strncmp zero p q = 0
strncmp (suc n) p q =
    let rest = strncmp n (behind p) (behind q) in
    if not (front p == 0) && (front p == front q) then rest else byte_diff (front p) (front q)

unfoldable pub zeros : ℕ → List ℕ
zeros zero = []
zeros (suc n) = 0 ∷ zeros n

-- The bytes that `strncpy` writes.
unfoldable pub strncpy : List ℕ → ℕ → List ℕ
unfolding zeros
strncpy t zero = []
strncpy t (suc n) =
    let rest = strncpy (behind t) n in if front t == 0 then 0 ∷ zeros n else front t ∷ rest

-- The bytes that the loop of `safestrcpy` writes for `n` bytes at most, and the 0 behind them.
unfoldable pub safe_loop : List ℕ → ℕ → List ℕ
safe_loop t zero = 0 ∷ []
safe_loop t (suc n) =
    let rest = safe_loop (behind t) n in if front t == 0 then 0 ∷ 0 ∷ [] else front t ∷ rest

unfoldable pub safestrcpy : List ℕ → ℕ → List ℕ
unfolding safe_loop
safestrcpy t zero = []
safestrcpy t (suc n) = safe_loop t n

unfoldable pub strlen : List ℕ → ℕ
strlen [] = 0
strlen (c ∷ cs) = let rest = strlen cs in if c == 0 then 0 else rest + 1
