-- ===== src/User/Shell.antt =====
-- The parser of user/sh.c. The text between `*ps` and `es` is a list of characters without the null
-- character, and a string from `q` to `eq` is the list of its characters. `malloc` does not fail.
pub mod Steps
pub mod Fuel
pub mod Print
pub mod Words
pub mod Parts
pub mod RoundTrip
use xv6_riscv_cs.Base.{
  Bool, List, [], false, if◌then◌else◌, leb, length, not, suc, true, zero, ℕ, ◌&&◌, ◌*◌, ◌++◌, ◌+◌,
  ◌==◌, ◌||◌, ◌∷◌,
}
use xv6_riscv_cs.Strings.{behind, front}

-- The three redirections, for the modes and descriptors that `redircmd` is called with.
pub data Redirection : Type 0 where
  input output append : Redirection

-- O_RDONLY, O_WRONLY|O_CREATE|O_TRUNC and O_WRONLY|O_CREATE
unfoldable pub mode_of : Redirection → ℕ
mode_of input = 0x000
mode_of output = 0x601
mode_of append = 0x201

unfoldable pub fd_of : Redirection → ℕ
fd_of input = 0
fd_of output = 1
fd_of append = 1

-- `struct cmd` and the structs for its types. `exec` has the arguments of `argv`.
pub data Cmd : Type 0 where
  exec : List (List ℕ) → Cmd
  redir : Cmd → List ℕ → Redirection → Cmd
  pipe : Cmd → Cmd → Cmd
  list : Cmd → Cmd → Cmd
  back : Cmd → Cmd

-- What a parser gives: an error that ends the shell's child, too few rounds, or a value with the
-- text that is left.
pub data Parsed (A : Type 0) : Type 0 where
  syntax_error : Parsed A
  no_fuel : Parsed A
  parsed : A → List ℕ → Parsed A

abbrev pub Parser : Type 0 → Type 0
Parser A = List ℕ → Parsed A

abbrev pub bind : {A B : Type 0} → Parsed A → (A → Parser B) → Parsed B
bind syntax_error f = syntax_error
bind no_fuel f = no_fuel
bind (parsed a s) f = f a s

infixl 5 ◌>>=◌ ◌>>◌
abbrev pub ◌>>=◌ : {A B : Type 0} → Parser A → (A → Parser B) → Parser B
◌>>=◌ p f s = bind (p s) f

abbrev pub ◌>>◌ : {A B : Type 0} → Parser A → Parser B → Parser B
p >> q = p >>= λ _. q

abbrev pub yields : {A : Type 0} → A → Parser A
yields a s = parsed a s

-- `strchr(toks, c)`
abbrev pub is_in : List ℕ → ℕ → Bool
is_in [] c = false
is_in (t ∷ toks) c = (t == c) || is_in toks c

-- ` \t\r\n\v`
unfoldable pub whitespace : List ℕ
whitespace = 32 ∷ 9 ∷ 13 ∷ 10 ∷ 11 ∷ []

-- `<|>&;()`
unfoldable pub symbols : List ℕ
symbols = b'<' ∷ b'|' ∷ b'>' ∷ b'&' ∷ b';' ∷ b'(' ∷ b')' ∷ []

unfoldable pub skip_white : List ℕ → List ℕ
unfolding whitespace
skip_white [] = []
skip_white (c ∷ s) = let rest = skip_white s in if is_in whitespace c then rest else c ∷ s

unfoldable pub is_word_char : ℕ → Bool
unfolding whitespace symbols
is_word_char c = not (is_in whitespace c) && not (is_in symbols c)

-- The characters of a word, and what follows them.
unfoldable pub split_word : List ℕ → List ℕ × List ℕ
split_word [] = ([], [])
split_word (c ∷ s) =
    let rest = split_word s in if is_word_char c then (c ∷ rest.0, rest.1) else ([], c ∷ s)

-- The switch of `gettoken`: the kind, the token, and what follows it.
unfoldable pub token : List ℕ → ℕ × List ℕ × List ℕ
token [] = (0, [], [])
token (c ∷ s) =
    if c == b'>'
    then (if front s == b'>' then (b'+', b'>' ∷ b'>' ∷ [], behind s) else (b'>', b'>' ∷ [], s))
    else if is_in symbols c
    then (c, c ∷ [], s)
    else let w = split_word (c ∷ s) in (b'a', w.0, w.1)

unfoldable pub gettoken : Parser (ℕ × List ℕ)
gettoken s = let (kind, text, rest) = token (skip_white s) in parsed (kind, text) (skip_white rest)

abbrev pub starts_in : List ℕ → List ℕ → Bool
starts_in toks [] = false
starts_in toks (c ∷ s) = is_in toks c

unfoldable pub peek : List ℕ → Parser Bool
peek toks s = let t = skip_white s in parsed (starts_in toks t) t

-- The redirection for a token that `peek` found.
abbrev pub redirection : ℕ → Redirection
redirection kind = if kind == b'<' then input else if kind == b'>' then output else append

-- The loop of `parseredirs`, with the redirections that come on top of `cmd`.
unfoldable pub redirs : ℕ → List (List ℕ × Redirection) → Parser (List (List ℕ × Redirection))
redirs zero found s = no_fuel
redirs (suc n) found s =
    (do
      more ← peek (b'<' ∷ b'>' ∷ [])
      elim more [
        | false ↦ yields found
        | true ↦ (do
          tok ← gettoken
          file ← gettoken
          elim (file.0 == b'a') [
            | false ↦ (λ s. syntax_error)
            | true ↦ redirs n ((file.1, redirection tok.0) ∷ found)
          ])
      ])
      s

-- The calls of `redircmd`, the last one outermost.
unfoldable pub wrap : Cmd → List (List ℕ × Redirection) → Cmd
wrap cmd [] = cmd
wrap cmd ((file, r) ∷ found) = redir (wrap cmd found) file r

abbrev pub maxargs : ℕ
maxargs = 10

-- The part of a round of `parseexec` behind `gettoken`; `next` stands for the rounds that follow.
unfoldable pub args_token :
    ℕ
    → ℕ
    → List (List ℕ)
    → List (List ℕ × Redirection)
    → (List (List ℕ × Redirection) → Parser Cmd)
    → ℕ × List ℕ
    → Parser Cmd
args_token n argc argv found next tok =
    if tok.0 == 0
    then yields (wrap (exec argv) found)
    else if not (tok.0 == b'a') || leb maxargs (argc + 1)
    then (λ s. syntax_error)
    else (redirs n found >>= next)

-- The loop of `parseexec`: `argc` arguments and the redirections so far.
unfoldable pub args_loop : ℕ → ℕ → List (List ℕ) → List (List ℕ × Redirection) → Parser Cmd
args_loop zero argc argv found s = no_fuel
args_loop (suc n) argc argv found s =
    (do
      ends ← peek (b'|' ∷ b')' ∷ b'&' ∷ b';' ∷ [])
      elim ends [
        | true ↦ yields (wrap (exec argv) found)
        | false ↦ (do
          tok ← gettoken
          args_token n argc argv found (λ more. args_loop n (argc + 1) (argv ++ (tok.1 ∷ [])) more)
              tok)
      ])
      s

-- The loop of `parseline` over `&`.
unfoldable pub backs : ℕ → Cmd → Parser Cmd
backs zero cmd s = no_fuel
backs (suc n) cmd s =
    (do
      more ← peek (b'&' ∷ [])
      elim more [ false ↦ yields cmd | true ↦ (do gettoken; backs n (back cmd)) ])
      s

-- The part of `parseline` behind its loop; `next` stands for its recursive call.
unfoldable pub line_rest : Parser Cmd → Cmd → Parser Cmd
line_rest next cmd = do
  more ← peek (b';' ∷ [])
  elim more [ false ↦ yields cmd | true ↦ (do gettoken; rest ← next; yields (list cmd rest)) ]

-- The part of `parsepipe` behind `parseexec`.
unfoldable pub pipe_rest : Parser Cmd → Cmd → Parser Cmd
pipe_rest next cmd = do
  more ← peek (b'|' ∷ [])
  elim more [ false ↦ yields cmd | true ↦ (do gettoken; rest ← next; yields (pipe cmd rest)) ]

-- The part of `parseblock` behind `parseline`.
unfoldable pub block_rest : ℕ → Cmd → Parser Cmd
block_rest n cmd = do
  closed ← peek (b')' ∷ [])
  elim closed [
    | false ↦ (λ s. syntax_error)
    | true ↦ (do gettoken; found ← redirs n []; yields (wrap cmd found))
  ]

-- Every call and every round of a loop costs a unit of fuel.
unfoldable mutual
  pub parseline : ℕ → Parser Cmd
  parseline zero s = no_fuel
  parseline (suc n) s = (do first ← parsepipe n; cmd ← backs n first; line_rest (parseline n) cmd) s

  pub parsepipe : ℕ → Parser Cmd
  parsepipe zero s = no_fuel
  parsepipe (suc n) s = (do cmd ← parseexec n; pipe_rest (parsepipe n) cmd) s

  pub parseblock : ℕ → Parser Cmd
  parseblock zero s = no_fuel
  parseblock (suc n) s =
      (do
        opened ← peek (b'(' ∷ [])
        elim opened [
          | false ↦ (λ s. syntax_error)
          | true ↦ (do gettoken; cmd ← parseline n; block_rest n cmd)
        ])
        s

  pub parseexec : ℕ → Parser Cmd
  parseexec zero s = no_fuel
  parseexec (suc n) s =
      (do
        block ← peek (b'(' ∷ [])
        elim block [
          | true ↦ parseblock n
          | false ↦ (do found ← redirs n []; args_loop n 0 [] found)
        ])
        s

abbrev pub finish : Parsed Cmd → Parsed Cmd
finish syntax_error = syntax_error
finish no_fuel = no_fuel
finish (parsed cmd []) = parsed cmd []
finish (parsed cmd (c ∷ s)) = syntax_error

-- `parsecmd`, where `nulterminate` has no effect on lists of characters.
unfoldable pub parsecmd : Parser Cmd
parsecmd s = finish ((do cmd ← parseline (4 * length s + 5); peek []; yields cmd) s)
