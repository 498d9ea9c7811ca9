-- ===== src/User/Shell/RoundTrip.antt =====
-- The parser of user/sh.c reads the text of a command back.
use xv6_riscv_cs.Base.{
  List, Option, [], arith, false, length, none, refl, some, suc, ℕ, ◌*◌, ◌++◌, ◌+◌, ◌<◌, ◌∷◌, ◌≡◌,
  ◌≤◌,
}
use xv6_riscv_cs.User.Shell.{
  parsed, gettoken, token, skip_white, is_in, symbols, whitespace, exec, maxargs, peek, wrap, Cmd,
  Redirection, back, list, parseexec, parseline, pipe, redir, backs, line_rest, parsepipe,
  pipe_rest, parsecmd,
}
use xv6_riscv_cs.User.Shell.Print.{
  IsWord, AreWords, args_to, IsPrintable, need, print_to, arrow_to, need-le,
}
use xv6_riscv_cs.User.Shell.Words.{peek-stop, skip_white-args, stop}
use xv6_riscv_cs.User.Shell.Parts.{
  Reads, parseexec-block, parseexec-exec, parseexec-plain, redirs-one,
}

parsepipe-end :
    (n : ℕ) (c : Cmd) (s t : List ℕ)
    → parseexec n s ≡ parsed c t
    → peek (b'|' ∷ []) t ≡ parsed false t
    → parsepipe (suc n) s ≡ parsed c t
unfolding parsepipe pipe_rest
parsepipe-end n c s t e idle = rw (e, idle) refl

parseline-end :
    (n : ℕ) (c : Cmd) (s : List ℕ) (o : Option (List ℕ))
    → parsepipe (suc n) s ≡ parsed c (stop o)
    → parseline (suc (suc n)) s ≡ parsed c (stop o)
unfolding parseline backs line_rest
parseline-end n c s o e = rw (e, peek-stop o (b'&' ∷ []) refl, peek-stop o (b';' ∷ []) refl) refl

-- A command in parentheses, and nothing else, in a line.
parsepipe-plain :
    (c : Cmd) (n : ℕ) (o : Option (List ℕ))
    → Reads c
    → IsPrintable c
    → need c ≤ suc n
    → parsepipe (suc (suc (suc (suc n)))) (b'(' ∷ print_to c (b')' ∷ stop o)) ≡ parsed c (stop o)
parsepipe-plain c n o reads ok enough =
    parsepipe-end (suc (suc (suc n))) c (b'(' ∷ print_to c (b')' ∷ stop o)) (stop o)
      (parseexec-plain c n (stop o) reads ok enough (skip_white-args [] o tt)
        (peek-stop o (b'<' ∷ b'>' ∷ []) refl))
      (peek-stop o (b'|' ∷ []) refl)

gettoken-bar : (s : List ℕ) → gettoken (b'|' ∷ b'(' ∷ s) ≡ parsed (b'|', b'|' ∷ []) (b'(' ∷ s)
unfolding gettoken token skip_white whitespace symbols
gettoken-bar s = refl

gettoken-semicolon : (s : List ℕ) → gettoken (b';' ∷ b'(' ∷ s) ≡ parsed (b';', b';' ∷ []) (b'(' ∷ s)
unfolding gettoken token skip_white whitespace symbols
gettoken-semicolon s = refl

gettoken-and : (o : Option (List ℕ)) → gettoken (b'&' ∷ stop o) ≡ parsed (b'&', b'&' ∷ []) (stop o)
unfolding gettoken token skip_white whitespace symbols
gettoken-and none = refl
gettoken-and (some k) = refl

-- `peek` at a symbol.
peek-bar : (toks s : List ℕ) → peek toks (b'|' ∷ s) ≡ parsed (is_in toks b'|') (b'|' ∷ s)
unfolding peek skip_white whitespace
peek-bar toks s = refl

peek-semicolon : (toks s : List ℕ) → peek toks (b';' ∷ s) ≡ parsed (is_in toks b';') (b';' ∷ s)
unfolding peek skip_white whitespace
peek-semicolon toks s = refl

peek-and : (toks s : List ℕ) → peek toks (b'&' ∷ s) ≡ parsed (is_in toks b'&') (b'&' ∷ s)
unfolding peek skip_white whitespace
peek-and toks s = refl

skip_white-symbol : (c : ℕ) (s : List ℕ) → is_in whitespace c ≡ false → skip_white (c ∷ s) ≡ c ∷ s
unfolding skip_white
skip_white-symbol c s h = rw h refl

bar_white : is_in whitespace b'|' ≡ false
unfolding whitespace
bar_white = refl

semicolon_white : is_in whitespace b';' ≡ false
unfolding whitespace
semicolon_white = refl

and_white : is_in whitespace b'&' ≡ false
unfolding whitespace
and_white = refl

module _ (c d : Cmd) (n : ℕ) (o : Option (List ℕ)) (reads_c : Reads c) (ok_c : IsPrintable c) where
  pipe-Reads :
      Reads d
      → IsPrintable d
      → need c ≤ suc (suc n)
      → need d ≤ suc n
      → parsepipe (suc (suc (suc (suc (suc n))))) (print_to (pipe c d) (stop o))
        ≡ parsed (pipe c d) (stop o)
  unfolding parsepipe pipe_rest
  pipe-Reads reads_d ok_d enough_c enough_d =
      let right = b'(' ∷ print_to d (b')' ∷ stop o) in
      rw
        (
          parseexec-plain c (suc n) (b'|' ∷ right) reads_c ok_c enough_c
              (skip_white-symbol b'|' right bar_white) (peek-bar (b'<' ∷ b'>' ∷ []) right),
          peek-bar (b'|' ∷ []) right,
          gettoken-bar (print_to d (b')' ∷ stop o)),
          parsepipe-plain d n o reads_d ok_d enough_d,
        )
        refl

  list-Reads :
      Reads d
      → IsPrintable d
      → need c ≤ suc (suc n)
      → need d ≤ suc n
      → parseline (suc (suc (suc (suc (suc (suc n)))))) (print_to (list c d) (stop o))
        ≡ parsed (list c d) (stop o)
  unfolding parseline backs line_rest
  list-Reads reads_d ok_d enough_c enough_d =
      let right = b'(' ∷ print_to d (b')' ∷ stop o) in
      let left =
        parsepipe-end (suc (suc (suc (suc n)))) c (print_to (list c d) (stop o)) (b';' ∷ right)
          (parseexec-plain c (suc n) (b';' ∷ right) reads_c ok_c enough_c
            (skip_white-symbol b';' right semicolon_white)
            (peek-semicolon (b'<' ∷ b'>' ∷ []) right))
          (peek-semicolon (b'|' ∷ []) right) in
      rw
        (
          left,
          peek-semicolon (b'&' ∷ []) right,
          peek-semicolon (b';' ∷ []) right,
          gettoken-semicolon (print_to d (b')' ∷ stop o)),
          parseline-end (suc (suc (suc n))) d right o (parsepipe-plain d n o reads_d ok_d enough_d),
        )
        refl

back-Reads :
    (c : Cmd) (n : ℕ) (o : Option (List ℕ))
    → Reads c
    → IsPrintable c
    → need c ≤ suc n
    → parseline (suc (suc (suc (suc (suc n))))) (print_to (back c) (stop o))
      ≡ parsed (back c) (stop o)
unfolding parseline backs line_rest
back-Reads c n o reads ok enough =
    let behind = b'&' ∷ stop o in
    let inner =
      parsepipe-end (suc (suc (suc n))) c (print_to (back c) (stop o)) behind
        (parseexec-plain c n behind reads ok enough (skip_white-symbol b'&' (stop o) and_white)
          (peek-and (b'<' ∷ b'>' ∷ []) (stop o)))
        (peek-and (b'|' ∷ []) (stop o)) in
    rw
      (
        inner,
        peek-and (b'&' ∷ []) (stop o),
        gettoken-and o,
        peek-stop o (b'&' ∷ []) refl,
        peek-stop o (b';' ∷ []) refl,
      )
      refl

redir-Reads :
    (c : Cmd) (file : List ℕ) (r : Redirection) (n : ℕ) (o : Option (List ℕ))
    → Reads c
    → IsPrintable c
    → IsWord file
    → need c ≤ suc (suc n)
    → parseline (suc (suc (suc (suc (suc (suc n)))))) (print_to (redir c file r) (stop o))
      ≡ parsed (redir c file r) (stop o)
unfolding wrap
redir-Reads c file r n o reads ok word enough =
    parseline-end (suc (suc (suc (suc n)))) (redir c file r) (print_to (redir c file r) (stop o)) o
      (parsepipe-end (suc (suc (suc (suc n)))) (redir c file r) (print_to (redir c file r) (stop o))
        (stop o)
        (parseexec-block c (suc (suc n)) (arrow_to r (file ++ stop o)) (stop o) ((file, r) ∷ [])
          reads ok enough (redirs-one r n file o word))
        (peek-stop o (b'|' ∷ []) refl))

exec-Reads :
    (ws : List (List ℕ)) (n : ℕ) (o : Option (List ℕ))
    → AreWords ws
    → length ws < maxargs
    → length ws < n
    → parseline (suc (suc (suc n))) (args_to ws (stop o)) ≡ parsed (exec ws) (stop o)
exec-Reads ws n o h small enough = parseline-end (suc n) (exec ws) (args_to ws (stop o)) o (
    parsepipe-end (suc n) (exec ws) (args_to ws (stop o)) (stop o)
      (parseexec-exec ws n o h small enough) (peek-stop o (b'|' ∷ []) refl))

-- With the fuel that it needs, and with the end of a block behind it, `parseline` reads the text of
-- a command back.
pub parseline-Reads : (c : Cmd) → IsPrintable c → Reads c
parseline-Reads (exec ws) h (suc (suc (suc n))) o enough = exec-Reads ws n o h.0 h.1 (omega arith)
parseline-Reads (redir c file r) h (suc (suc (suc (suc (suc (suc n)))))) o enough =
    redir-Reads c file r n o (parseline-Reads c h.0) h.0 h.1 (omega arith)
parseline-Reads (pipe l r) h (suc (suc (suc (suc (suc (suc n)))))) o enough =
    parseline-end (suc (suc (suc (suc n)))) (pipe l r) (print_to (pipe l r) (stop o)) o (
      pipe-Reads l r n o (parseline-Reads l h.0) h.0 (parseline-Reads r h.1) h.1 (omega arith)
        (omega arith))
parseline-Reads (list l r) h (suc (suc (suc (suc (suc (suc n)))))) o enough =
    list-Reads l r n o (parseline-Reads l h.0) h.0 (parseline-Reads r h.1) h.1 (omega arith)
      (omega arith)
parseline-Reads (back c) h (suc (suc (suc (suc (suc n))))) o enough =
    back-Reads c n o (parseline-Reads c h) h (omega arith)
parseline-Reads c h n o enough = absurd (omega arith)

-- `parsecmd` reads the text of every command back: one whose words have characters, but none of the
-- shell's symbols and white space, and with fewer than MAXARGS arguments in each part.
pub parsecmd-print : (c : Cmd) → IsPrintable c → parsecmd (print_to c []) ≡ parsed c []
unfolding parsecmd
parsecmd-print c h =
    rw
      (
        parseline-Reads c h (4 * length (print_to c []) + 5) none (omega (arith, need-le c [])),
        peek-stop none [] refl,
      )
      refl
