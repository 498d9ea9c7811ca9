-- ===== src/Tests/Commands.antt =====
-- The theorems of the shell's parser at small commands.
use xv6_riscv_cs.Base.{List, [], arith, refl, ℕ, ◌∷◌, ◌≡◌}
use xv6_riscv_cs.User.Shell.{
  Cmd, append, args_loop, args_token, backs, block_rest, exec, gettoken, is_word_char, line_rest,
  output, parseblock, parsecmd, parsed, parseexec, parseline, parsepipe, peek, pipe, pipe_rest,
  redir, redirs, skip_white, split_word, symbols, syntax_error, token, whitespace, wrap,
}
use xv6_riscv_cs.User.Shell.Fuel.{IsFinished, parsecmd-IsFinished}
use xv6_riscv_cs.User.Shell.Print.{IsPrintable, print_to}
use xv6_riscv_cs.User.Shell.RoundTrip.{parsecmd-print}

-- `ls`, `wc` and `out`
abbrev ls_word : List ℕ
ls_word = b'l' ∷ b's' ∷ []

abbrev out_word : List ℕ
out_word = b'o' ∷ b'u' ∷ b't' ∷ []

abbrev listing : Cmd
listing = exec (ls_word ∷ out_word ∷ [])

-- A pipe into a command with a redirection.
abbrev saved : Cmd
saved = pipe listing (redir (exec (ls_word ∷ [])) out_word append)

saved-IsPrintable : IsPrintable saved
unfolding is_word_char whitespace symbols
saved-IsPrintable = (
  (((refl, refl), ((refl, (refl, refl)), tt)), omega arith),
  ((((refl, refl), tt), omega arith), (refl, (refl, refl))),
)

parsecmd-print_example : parsecmd (print_to saved []) ≡ parsed saved []
parsecmd-print_example = parsecmd-print saved saved-IsPrintable

-- An open parenthesis alone
parsecmd-IsFinished_example : IsFinished (parsecmd (b'(' ∷ []))
parsecmd-IsFinished_example = parsecmd-IsFinished (b'(' ∷ [])

-- `ls>out` has the file behind the arguments.
read_redirection :
    parsecmd (b'l' ∷ b's' ∷ b'>' ∷ out_word)
    ≡ parsed (redir (exec (ls_word ∷ [])) out_word output) []
unfolding parsecmd parseline parsepipe parseexec parseblock redirs gettoken peek args_loop
    args_token token split_word skip_white is_word_char whitespace symbols wrap backs line_rest
    pipe_rest
read_redirection = refl

-- `(ls` lacks its end.
missing_end : parsecmd (b'(' ∷ ls_word) ≡ syntax_error
unfolding parsecmd parseline parsepipe parseexec parseblock redirs gettoken peek args_loop
    args_token token split_word skip_white is_word_char whitespace symbols wrap backs line_rest
    pipe_rest block_rest
missing_end = refl
