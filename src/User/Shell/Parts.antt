-- ===== src/User/Shell/Parts.antt =====
-- The parts of the text of a command, read by the parser of user/sh.c.
use xv6_riscv_cs.Base.{
  List, Option, [], ap, arith, false, length, refl, some, suc, true, zero, ℕ, ◌++◌, ◌<◌, ◌==◌, ◌∙◌,
  ◌∷◌, ◌≡◌, ◌≤◌,
}
use xv6_riscv_cs.User.Shell.{
  parsed, gettoken, token, skip_white, is_in, symbols, whitespace, exec, maxargs, peek, redirs,
  wrap, Cmd, Redirection, back, block_rest, list, parseblock, parseexec, parseline, pipe, redir,
  append, input, output, redirection,
}
use xv6_riscv_cs.User.Shell.Print.{IsWord, AreWords, args_to, IsPrintable, need, print_to, arrow_to}
use xv6_riscv_cs.Strings.{front}
use xv6_riscv_cs.User.Shell.Words.{
  args_loop-args, arrows-AreSymbols, gettoken-word, letter-arrow, open-AreSymbols, peek-args,
  peek-stop, redirs-none, skip_white-args, skip_white-word, stop, stop-EndsWord,
}

-- A command without parts.
pub parseexec-exec :
    (ws : List (List ℕ)) (n : ℕ) (o : Option (List ℕ))
    → AreWords ws
    → length ws < maxargs
    → length ws < n
    → parseexec (suc n) (args_to ws (stop o)) ≡ parsed (exec ws) (stop o)
unfolding parseexec
parseexec-exec ws zero o h small enough = absurd (omega arith)
parseexec-exec ws (suc n) o h small enough =
    rw
      (
        peek-args (b'(' ∷ []) ws o open-AreSymbols refl h,
        redirs-none n (args_to ws (stop o))
            (peek-args (b'<' ∷ b'>' ∷ []) ws o arrows-AreSymbols refl h),
      )
      (args_loop-args ws (suc n) 0 [] o h (omega arith) enough)

-- The text of a command does not start with white space.
pub skip_white-print :
    (c : Cmd) (o : Option (List ℕ))
    → IsPrintable c
    → skip_white (print_to c (stop o)) ≡ print_to c (stop o)
unfolding skip_white
skip_white-print (exec ws) o h = skip_white-args ws o h.0
skip_white-print (redir c file r) o h = refl
skip_white-print (pipe l r) o h = refl
skip_white-print (list l r) o h = refl
skip_white-print (back c) o h = refl

-- `parseline` with fuel reads the text of `c` back.
abbrev pub Reads : Cmd → Type 0
Reads c =
    (n : ℕ) (o : Option (List ℕ))
    → need c ≤ n
    → parseline n (print_to c (stop o)) ≡ parsed c (stop o)

pub peek-found :
    (toks : List ℕ) (t : ℕ) (s : List ℕ)
    → is_in whitespace t ≡ false
    → is_in toks t ≡ true
    → peek toks (t ∷ s) ≡ parsed true (t ∷ s)
unfolding peek skip_white
peek-found toks t s white found = rw white (ap (λ b. parsed b (t ∷ s)) found)

pub gettoken-open : (s : List ℕ) → gettoken (b'(' ∷ s) ≡ parsed (b'(', b'(' ∷ []) (skip_white s)
unfolding gettoken token skip_white whitespace symbols
gettoken-open s = refl

pub gettoken-close : (s : List ℕ) → gettoken (b')' ∷ s) ≡ parsed (b')', b')' ∷ []) (skip_white s)
unfolding gettoken token skip_white whitespace symbols
gettoken-close s = refl

pub peek-open : (s : List ℕ) → peek (b'(' ∷ []) (b'(' ∷ s) ≡ parsed true (b'(' ∷ s)
unfolding peek skip_white whitespace
peek-open s = refl

pub peek-close : (s : List ℕ) → peek (b')' ∷ []) (b')' ∷ s) ≡ parsed true (b')' ∷ s)
unfolding peek skip_white whitespace
peek-close s = refl

-- A command in parentheses, with what `parseredirs` makes of the text behind it.
pub parseexec-block :
    (c : Cmd) (n : ℕ) (s u : List ℕ) (found : List (List ℕ × Redirection))
    → Reads c
    → IsPrintable c
    → need c ≤ n
    → redirs n [] (skip_white s) ≡ parsed found u
    → parseexec (suc (suc n)) (b'(' ∷ print_to c (b')' ∷ s)) ≡ parsed (wrap c found) u
unfolding parseexec parseblock block_rest
parseexec-block c n s u found reads ok enough e =
    rw
      (
        peek-open (print_to c (b')' ∷ s)),
        peek-open (print_to c (b')' ∷ s)),
        gettoken-open (print_to c (b')' ∷ s)),
        skip_white-print c (some s) ok,
        reads n (some s) enough,
        peek-close s,
        gettoken-close s,
        e,
      )
      refl

-- A block that is not redirected.
pub parseexec-plain :
    (c : Cmd) (n : ℕ) (s : List ℕ)
    → Reads c
    → IsPrintable c
    → need c ≤ suc n
    → skip_white s ≡ s
    → peek (b'<' ∷ b'>' ∷ []) s ≡ parsed false s
    → parseexec (suc (suc (suc n))) (b'(' ∷ print_to c (b')' ∷ s)) ≡ parsed c s
unfolding wrap
parseexec-plain c n s reads ok enough same idle =
    parseexec-block c (suc n) s s [] reads ok enough
      (ap (redirs (suc n) []) same ∙ redirs-none n s idle)

pub kind_of : Redirection → ℕ
kind_of input = b'<'
kind_of output = b'>'
kind_of append = b'+'

pub text_of : Redirection → List ℕ
text_of r = arrow_to r []

pub skip_white-arrow : (r : Redirection) (k : List ℕ) → skip_white (arrow_to r k) ≡ arrow_to r k
unfolding skip_white whitespace
skip_white-arrow input k = refl
skip_white-arrow output k = refl
skip_white-arrow append k = refl

pub peek-arrow :
    (r : Redirection) (k : List ℕ)
    → peek (b'<' ∷ b'>' ∷ []) (arrow_to r k) ≡ parsed true (arrow_to r k)
unfolding peek skip_white whitespace
peek-arrow input k = refl
peek-arrow output k = refl
peek-arrow append k = refl

pub front-word : (w k : List ℕ) → IsWord w → (front (w ++ k) == b'>') ≡ false
front-word [] k h = absurd h
front-word (c ∷ []) k h = letter-arrow c h
front-word (c ∷ d ∷ w) k h = letter-arrow c h.0

pub gettoken-arrow :
    (r : Redirection) (w k : List ℕ)
    → IsWord w
    → gettoken (arrow_to r (w ++ k)) ≡ parsed (kind_of r, text_of r) (w ++ k)
unfolding gettoken token skip_white whitespace symbols kind_of text_of
gettoken-arrow input w k h = ap (parsed (b'<', b'<' ∷ [])) (skip_white-word w k h)
gettoken-arrow output w k h =
    rw (front-word w k h) (ap (parsed (b'>', b'>' ∷ [])) (skip_white-word w k h))
gettoken-arrow append w k h = ap (parsed (b'+', b'>' ∷ b'>' ∷ [])) (skip_white-word w k h)

pub redirection-kind : (r : Redirection) → redirection (kind_of r) ≡ r
unfolding kind_of
redirection-kind input = refl
redirection-kind output = refl
redirection-kind append = refl

pub redirs-one :
    (r : Redirection) (n : ℕ) (file : List ℕ) (o : Option (List ℕ))
    → IsWord file
    → redirs (suc (suc n)) [] (skip_white (arrow_to r (file ++ stop o)))
      ≡ parsed ((file, r) ∷ []) (stop o)
unfolding redirs
redirs-one r n file o h =
    rw
      (
        skip_white-arrow r (file ++ stop o),
        peek-arrow r (file ++ stop o),
        gettoken-arrow r file (stop o) h,
        gettoken-word file (stop o) h (stop-EndsWord o),
        skip_white-args [] o tt,
        peek-stop o (b'<' ∷ b'>' ∷ []) refl,
      )
      (ap (λ q. parsed ((file, q) ∷ []) (stop o)) (redirection-kind r))
