-- ===== src/User/Shell/Words.antt =====
-- The tokens, arguments and redirections of the parser of user/sh.c at the text of a command.
use xv6_riscv_cs.Base.{
  Bool-cases, List, Option, [], ap, append-nil, append_assoc, arith, false, inl, inr, leb, length,
  none, refl, some, suc, sym, true, zero, ℕ, ◌++◌, ◌+◌, ◌<◌, ◌==◌, ◌∙◌, ◌∷◌, ◌≡◌,
}
use xv6_riscv_cs.User.Shell.{
  parsed, gettoken, token, skip_white, split_word, is_in, is_word_char, symbols, whitespace,
  args_loop, args_token, exec, maxargs, peek, redirs, wrap,
}
use xv6_riscv_cs.User.Shell.Print.{IsWord, AreWords, args_to}

-- What stands behind a command: nothing, or the end of a block.
abbrev pub stop : Option (List ℕ) → List ℕ
stop none = []
stop (some k) = b')' ∷ k

pub letter-white : (c : ℕ) → is_word_char c ≡ true → is_in whitespace c ≡ false
unfolding is_word_char
letter-white c h = elim (Bool-cases (is_in whitespace c)) [
  | inl white ↦ cc (rw white at h)
  | inr other ↦ other
]

pub letter-symbol : (c : ℕ) → is_word_char c ≡ true → is_in symbols c ≡ false
unfolding is_word_char
letter-symbol c h = elim (Bool-cases (is_in symbols c)) [
  | inl symbol ↦ elim (Bool-cases (is_in whitespace c)) [
    | inl white ↦ cc (rw white at h)
    | inr other ↦ cc (rw (other, symbol) at h)
  ]
  | inr other ↦ other
]

-- The end of a word.
abbrev pub EndsWord : List ℕ → Type 0
EndsWord [] = Unit {0}
EndsWord (c ∷ s) = is_word_char c ≡ false

pub split_word-append : (w k : List ℕ) → IsWord w → EndsWord k → split_word (w ++ k) ≡ (w, k)
unfolding split_word
split_word-append [] k h e = absurd h
split_word-append (c ∷ []) [] h e = rw h refl
split_word-append (c ∷ []) (d ∷ k) h e = rw (h, e) refl
split_word-append (c ∷ d ∷ w) k (h, h') e =
    rw h (ap (λ (p : List ℕ × List ℕ). (c ∷ p.0, p.1)) (split_word-append (d ∷ w) k h' e))

pub skip_white-letter : (c : ℕ) (s : List ℕ) → is_word_char c ≡ true → skip_white (c ∷ s) ≡ c ∷ s
unfolding skip_white
skip_white-letter c s h = rw (letter-white c h) refl

pub skip_white-word : (w k : List ℕ) → IsWord w → skip_white (w ++ k) ≡ w ++ k
skip_white-word [] k h = absurd h
skip_white-word (c ∷ []) k h = skip_white-letter c k h
skip_white-word (c ∷ d ∷ w) k h = skip_white-letter c (d ∷ (w ++ k)) h.0

pub letter-arrow : (c : ℕ) → is_word_char c ≡ true → (c == b'>') ≡ false
unfolding symbols
letter-arrow c h = ground (arith, letter-symbol c h)

pub token-letter :
    (c : ℕ) (s u v : List ℕ)
    → is_word_char c ≡ true
    → split_word (c ∷ s) ≡ (u, v)
    → token (c ∷ s) ≡ (b'a', u, v)
unfolding token
token-letter c s u v h e = rw (letter-arrow c h, letter-symbol c h, e) refl

pub token-word : (w k : List ℕ) → IsWord w → EndsWord k → token (w ++ k) ≡ (b'a', w, k)
token-word [] k h e = absurd h
token-word (c ∷ []) k h e = token-letter c k (c ∷ []) k h (split_word-append (c ∷ []) k h e)
token-word (c ∷ d ∷ w) k h e =
    token-letter c (d ∷ (w ++ k)) (c ∷ d ∷ w) k h.0 (split_word-append (c ∷ d ∷ w) k h e)

pub gettoken-word :
    (w k : List ℕ) → IsWord w → EndsWord k → gettoken (w ++ k) ≡ parsed (b'a', w) (skip_white k)
unfolding gettoken
gettoken-word w k h e = rw (skip_white-word w k h, token-word w k h e) refl

-- `peek` for some of the symbols finds none of them at a word.
abbrev pub AreSymbols : List ℕ → Type 0
AreSymbols toks = (c : ℕ) → is_word_char c ≡ true → is_in toks c ≡ false

pub peek-letter :
    (toks : List ℕ) (c : ℕ) (s : List ℕ)
    → AreSymbols toks
    → is_word_char c ≡ true
    → peek toks (c ∷ s) ≡ parsed false (c ∷ s)
unfolding peek
peek-letter toks c s among h = rw (skip_white-letter c s h) (ap (λ b. parsed b (c ∷ s)) (among c h))

pub peek-word :
    (toks w k : List ℕ) → AreSymbols toks → IsWord w → peek toks (w ++ k) ≡ parsed false (w ++ k)
peek-word toks [] k among h = absurd h
peek-word toks (c ∷ []) k among h = peek-letter toks c k among h
peek-word toks (c ∷ d ∷ w) k among h = peek-letter toks c (d ∷ (w ++ k)) among h.0

pub arrows-AreSymbols : AreSymbols (b'<' ∷ b'>' ∷ [])
unfolding symbols
arrows-AreSymbols c h = ground (arith, letter-symbol c h)

pub ends-AreSymbols : AreSymbols (b'|' ∷ b')' ∷ b'&' ∷ b';' ∷ [])
unfolding symbols
ends-AreSymbols c h = ground (arith, letter-symbol c h)

pub open-AreSymbols : AreSymbols (b'(' ∷ [])
unfolding symbols
open-AreSymbols c h = ground (arith, letter-symbol c h)

pub space_ends : is_word_char 32 ≡ false
unfolding is_word_char whitespace
space_ends = refl

pub stop-EndsWord : (o : Option (List ℕ)) → EndsWord (stop o)
unfolding is_word_char whitespace symbols
stop-EndsWord none = tt
stop-EndsWord (some k) = refl

pub skip_white-space : (s : List ℕ) → skip_white (32 ∷ s) ≡ skip_white s
unfolding skip_white whitespace
skip_white-space s = refl

-- Arguments with the end of a command behind them.
pub skip_white-args :
    (ws : List (List ℕ)) (o : Option (List ℕ))
    → AreWords ws
    → skip_white (args_to ws (stop o)) ≡ args_to ws (stop o)
unfolding skip_white
skip_white-args [] none h = refl
skip_white-args [] (some k) h = refl
skip_white-args (w ∷ ws) o (h, hs) = skip_white-word w (32 ∷ args_to ws (stop o)) h

pub peek-stop :
    (o : Option (List ℕ)) (toks : List ℕ)
    → is_in toks b')' ≡ false
    → peek toks (stop o) ≡ parsed false (stop o)
unfolding peek skip_white
peek-stop none toks h = refl
peek-stop (some k) toks h = ap (λ b. parsed b (b')' ∷ k)) h

pub peek-args :
    (toks : List ℕ) (ws : List (List ℕ)) (o : Option (List ℕ))
    → AreSymbols toks
    → is_in toks b')' ≡ false
    → AreWords ws
    → peek toks (args_to ws (stop o)) ≡ parsed false (args_to ws (stop o))
peek-args toks [] o among off h = peek-stop o toks off
peek-args toks (w ∷ ws) o among off (h, hs) = peek-word toks w (32 ∷ args_to ws (stop o)) among h

-- The loop of `parseredirs` where there is no redirection.
pub redirs-none :
    (n : ℕ) (s : List ℕ)
    → peek (b'<' ∷ b'>' ∷ []) s ≡ parsed false s
    → redirs (suc n) [] s ≡ parsed [] s
unfolding redirs
redirs-none n s e = rw e refl

pub args_loop-stop :
    (n argc : ℕ) (argv : List (List ℕ)) (o : Option (List ℕ))
    → args_loop (suc n) argc argv [] (stop o) ≡ parsed (exec argv) (stop o)
unfolding args_loop args_token peek gettoken skip_white token wrap
args_loop-stop n argc argv none = refl
args_loop-stop n argc argv (some k) = refl

pub args_loop-args :
    (ws : List (List ℕ)) (n argc : ℕ) (argv : List (List ℕ)) (o : Option (List ℕ))
    → AreWords ws
    → argc + length ws < maxargs
    → length ws < n
    → args_loop n argc argv [] (args_to ws (stop o)) ≡ parsed (exec (argv ++ ws)) (stop o)
unfolding args_loop args_token
args_loop-args [] zero argc argv o h small enough = absurd (omega arith)
args_loop-args [] (suc n) argc argv o h small enough =
    args_loop-stop n argc argv o ∙ ap (λ ws. parsed (exec ws) (stop o)) (sym (append-nil argv))
args_loop-args (w ∷ ws) zero argc argv o h small enough = absurd (omega arith)
args_loop-args (w ∷ ws) (suc zero) argc argv o h small enough = absurd (omega arith)
args_loop-args (w ∷ ws) (suc (suc n)) argc argv o (h, hs) small enough =
    let fits : leb maxargs (argc + 1) ≡ false = ground arith in
    let more = args_to ws (stop o) in
    rw
      (
        peek-word (b'|' ∷ b')' ∷ b'&' ∷ b';' ∷ []) w (32 ∷ more) ends-AreSymbols h,
        gettoken-word w (32 ∷ more) h space_ends,
        skip_white-space more,
        skip_white-args ws o hs,
        fits,
        redirs-none n more (peek-args (b'<' ∷ b'>' ∷ []) ws o arrows-AreSymbols refl hs),
      )
      (args_loop-args ws (suc n) (argc + 1) (argv ++ (w ∷ [])) o hs (omega arith) (omega arith)
        ∙ ap (λ v. parsed (exec v) (stop o)) (append_assoc argv (w ∷ []) ws))
