-- ===== src/User/Printf/Same.antt =====
-- The formatters of kernel/printf.c and user/printf.c agree up to the case of hexadecimal digits: the
-- table of the kernel has small letters, that of the user library capital ones.
use xv6_riscv_cs.Base.{List, [], ℕ, ◌+◌, ◌-◌, ◌<◌, ◌^◌, ◌∷◌, ◌≡◌, ◌≢◌, ◌≤◌, ◌⊎◌}
use xv6_riscv_cs.Printf.{Arg, number_arg, string_arg}

-- The same character, or the same digit from 10 to 15 as a capital and as a small letter.
abbrev pub SameDigit : ℕ → ℕ → Type 0
SameDigit c d =
    (c ≡ d) ⊎ ((v : ℕ) × (10 ≤ v) × (v < 16) × (c ≡ b'A' + (v - 10)) × (d ≡ b'a' + (v - 10)))

abbrev pub UpToCase : List ℕ → List ℕ → Type 0
UpToCase [] [] = Unit {0}
UpToCase [] (d ∷ ds) = ⊥
UpToCase (c ∷ cs) [] = ⊥
UpToCase (c ∷ cs) (d ∷ ds) = SameDigit c d × UpToCase cs ds

-- The number is a machine word.
abbrev pub IsWordArg : Arg → Type 0
IsWordArg (number_arg v) = v < 2 ^ 64
IsWordArg (string_arg s) = Unit {0}

abbrev pub AreWordArgs : List Arg → Type 0
AreWordArgs [] = Unit {0}
AreWordArgs (a ∷ args) = IsWordArg a × AreWordArgs args

-- What two directives print, the arguments that they leave, and what they pass over.
record IsAlike (r r' : List ℕ × List Arg × ℕ) : Type 0 where
  pub out : UpToCase r.0 r'.0
  pub args : r.1 ≡ r'.1
  pub words : AreWordArgs r'.1
  pub more : r.2 ≡ r'.2

-- A C string: no character is null.
abbrev pub IsString : List ℕ → Type 0
IsString [] = Unit {0}
IsString (c ∷ cs) = (c ≢ 0) × IsString cs
