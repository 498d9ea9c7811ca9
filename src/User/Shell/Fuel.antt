-- ===== src/User/Shell/Fuel.antt =====
-- The rounds of the parser of user/sh.c.
use xv6_riscv_cs.Base.{
  ==_iff, Bool-cases, List, [], arith, false, false≢true, inl, inr, leb, length, not, refl, suc,
  sym, true, zero, ℕ, ◌*◌, ◌++◌, ◌+◌, ◌<◌, ◌==◌, ◌||◌, ◌∙◌, ◌∷◌, ◌≡◌, ◌≢◌, ◌≤◌,
}
use xv6_riscv_cs.User.Shell.{
  parseline, parsepipe, parseblock, parseexec, ◌>>=◌, Parsed, Parser, syntax_error, no_fuel, parsed,
  bind, Redirection, gettoken, peek, redirs, Cmd, args_loop, back, backs, maxargs, redirection,
  args_token, block_rest, finish, line_rest, list, parsecmd, pipe, pipe_rest, wrap, yields,
}
use xv6_riscv_cs.User.Shell.Steps.{Fits, Fits-le, bind-Fits, gettoken_lem, peek_lem}

redirs-Fits :
    (n : ℕ) (found : List (List ℕ × Redirection)) (s : List ℕ)
    → length s < n
    → Fits (length s) (redirs n found s)
unfolding redirs
redirs-Fits zero found s h = absurd (omega arith)
redirs-Fits (suc n) found s h = elim (peek_lem (b'<' ∷ b'>' ∷ []) s) [
  | inl (t, e, le) ↦ rw e le
  | inr (t, e, le, pos) ↦
      let (tok, u, e1, le1, less1, kind1) = gettoken_lem t in
      let (file, v, e2, le2, less2, kind2) = gettoken_lem u in
      let rest = redirs n ((file.1, redirection tok.0) ∷ found) in
      rw (e, e1, e2)
        (elim (file.0 == b'a')
          as (λ b. Fits (length s) (
            elim b as (λ c. Parser (List (List ℕ × Redirection))) [
              | false ↦ (λ s. syntax_error)
              | true ↦ rest
            ]
              v)) [
                | true ↦ Fits-le (length v) (length s) (rest v) (omega (arith, less1 pos)) (
                    redirs-Fits n ((file.1, redirection tok.0) ∷ found) v
                      (omega (arith, less1 pos)))
                | false ↦ tt
              ])
]

backs-Fits : (n : ℕ) (cmd : Cmd) (s : List ℕ) → length s < n → Fits (length s) (backs n cmd s)
unfolding backs
backs-Fits zero cmd s h = absurd (omega arith)
backs-Fits (suc n) cmd s h = elim (peek_lem (b'&' ∷ []) s) [
  | inl (t, e, le) ↦ rw e le
  | inr (t, e, le, pos) ↦
      let (tok, u, e1, le1, less1, kind1) = gettoken_lem t in
      rw (e, e1)
        (Fits-le (length u) (length s) (backs n (back cmd) u) (omega (arith, less1 pos))
          (backs-Fits n (back cmd) u (omega (arith, less1 pos))))
]

args_token-Fits :
    (n argc : ℕ) (argv : List (List ℕ)) (found : List (List ℕ × Redirection))
    (next : List (List ℕ × Redirection) → Parser Cmd) (tok : ℕ × List ℕ) (u : List ℕ) (m : ℕ)
    → length u ≤ m
    → (tok.0 ≢ 0 → length u < n)
    → ((more : List (List ℕ × Redirection)) (v : List ℕ)
        → tok.0 ≢ 0
        → length v ≤ length u
        → Fits m (next more v))
    → Fits m (args_token n argc argv found next tok u)
unfolding args_token
args_token-Fits n argc argv found next tok u m le enough k = elim (Bool-cases (tok.0 == 0)) [
  | inl last ↦ rw last le
  | inr more ↦
      let ne : tok.0 ≢ 0 = λ z. false≢true (sym more ∙ (==_iff _ 0).1 z) in
      elim (Bool-cases (not (tok.0 == b'a') || leb maxargs (argc + 1))) [
        | inl bad ↦ rw (more, bad) tt
        | inr good ↦
            rw (more, good)
              (bind-Fits (length u) m (redirs n found u) next (redirs-Fits n found u (enough ne))
                (λ a v le'. k a v ne le'))
      ]
]

args_loop-Fits :
    (n argc : ℕ) (argv : List (List ℕ)) (found : List (List ℕ × Redirection)) (s : List ℕ)
    → length s < n
    → Fits (length s) (args_loop n argc argv found s)
unfolding args_loop
args_loop-Fits zero argc argv found s h = absurd (omega arith)
args_loop-Fits (suc n) argc argv found s h = elim (peek_lem (b'|' ∷ b')' ∷ b'&' ∷ b';' ∷ []) s) [
  | inr (t, e, le, pos) ↦ rw e le
  | inl (t, e, le) ↦
      let (tok, u, e1, le1, less1, kind1) = gettoken_lem t in
      rw (e, e1)
        (args_token-Fits n argc argv found (λ m. args_loop n (argc + 1) (argv ++ (tok.1 ∷ [])) m)
          tok u (length s) (omega (arith, le1, le)) (λ ne. omega (arith, kind1 ne, le))
          (λ m v ne less.
            Fits-le (length v) (length s) (args_loop n (argc + 1) (argv ++ (tok.1 ∷ [])) m v)
              (omega (arith, kind1 ne, le, less))
              (args_loop-Fits n (argc + 1) (argv ++ (tok.1 ∷ [])) m v
                (omega (arith, kind1 ne, le, less)))))
]

rest-Fits :
    (toks : List ℕ) (make : Cmd → Cmd) (next : Parser Cmd) (s : List ℕ) (m : ℕ)
    → 0 < length s
    → ((v : List ℕ) → length v < length s → Fits m (next v))
    → Fits m (bind (gettoken s) (λ tok. next >>= λ rest. yields (make rest)))
rest-Fits toks make next s m pos k =
    let (tok, u, e1, le1, less1, kind1) = gettoken_lem s in
    rw e1 (bind-Fits m m (next u) (λ rest. yields (make rest)) (k u (less1 pos)) (λ rest v le. le))

line_rest-Fits :
    (next : Parser Cmd) (cmd : Cmd) (s : List ℕ) (m : ℕ)
    → length s ≤ m
    → ((v : List ℕ) → length v < length s → Fits m (next v))
    → Fits m (line_rest next cmd s)
unfolding line_rest
line_rest-Fits next cmd s m le k = elim (peek_lem (b';' ∷ []) s) [
  | inl (t, e, le1) ↦ rw e (omega (arith, le1, le))
  | inr (t, e, le1, pos) ↦
      rw e (rest-Fits (b';' ∷ []) (list cmd) next t m pos (λ v lt. k v (omega (arith, lt, le1))))
]

pipe_rest-Fits :
    (next : Parser Cmd) (cmd : Cmd) (s : List ℕ) (m : ℕ)
    → length s ≤ m
    → ((v : List ℕ) → length v < length s → Fits m (next v))
    → Fits m (pipe_rest next cmd s)
unfolding pipe_rest
pipe_rest-Fits next cmd s m le k = elim (peek_lem (b'|' ∷ []) s) [
  | inl (t, e, le1) ↦ rw e (omega (arith, le1, le))
  | inr (t, e, le1, pos) ↦
      rw e (rest-Fits (b'|' ∷ []) (pipe cmd) next t m pos (λ v lt. k v (omega (arith, lt, le1))))
]

block_rest-Fits :
    (n : ℕ) (cmd : Cmd) (s : List ℕ) (m : ℕ)
    → length s ≤ m
    → length s < n
    → Fits m (block_rest n cmd s)
unfolding block_rest
block_rest-Fits n cmd s m le enough = elim (peek_lem (b')' ∷ []) s) [
  | inl (t, e, le1) ↦ rw e tt
  | inr (t, e, le1, pos) ↦
      let (tok, u, e1, le2, less2, kind2) = gettoken_lem t in
      rw (e, e1)
        (bind-Fits (length u) m (redirs n [] u) (λ found. yields (wrap cmd found))
          (redirs-Fits n [] u (omega (arith, less2 pos, le1)))
          (λ found v le3. omega (arith, le3, le2, le1, le)))
]

mutual
  unfolding parseline parsepipe parseblock parseexec

  parseline-Fits : (n : ℕ) (s : List ℕ) → 4 * length s + 4 ≤ n → Fits (length s) (parseline n s)
  parseline-Fits zero s h = absurd (omega arith)
  parseline-Fits (suc n) s h =
      bind-Fits (length s) (length s) (parsepipe n s)
        (λ first. backs n first >>= line_rest (parseline n)) (parsepipe-Fits n s (omega arith))
        (λ first t le.
          bind-Fits (length t) (length s) (backs n first t) (line_rest (parseline n))
            (backs-Fits n first t (omega (arith, le, h)))
            (λ cmd u le1.
              line_rest-Fits (parseline n) cmd u (length s) (omega (arith, le, le1)) (λ v lt.
                Fits-le (length v) (length s) (parseline n v) (omega (arith, lt, le1, le))
                  (parseline-Fits n v (omega (arith, lt, le1, le, h))))))

  parsepipe-Fits : (n : ℕ) (s : List ℕ) → 4 * length s + 3 ≤ n → Fits (length s) (parsepipe n s)
  parsepipe-Fits zero s h = absurd (omega arith)
  parsepipe-Fits (suc n) s h =
      bind-Fits (length s) (length s) (parseexec n s) (pipe_rest (parsepipe n))
        (parseexec-Fits n s (omega arith))
        (λ cmd u le1. pipe_rest-Fits (parsepipe n) cmd u (length s) le1 (λ v lt.
          Fits-le (length v) (length s) (parsepipe n v) (omega (arith, lt, le1))
            (parsepipe-Fits n v (omega (arith, lt, le1, h)))))

  parseblock-Fits : (n : ℕ) (s : List ℕ) → 4 * length s + 1 ≤ n → Fits (length s) (parseblock n s)
  parseblock-Fits zero s h = absurd (omega arith)
  parseblock-Fits (suc n) s h = elim (peek_lem (b'(' ∷ []) s) [
    | inl (t, e, le) ↦ rw e tt
    | inr (t, e, le, pos) ↦
        let (tok, u, e1, le1, less1, kind1) = gettoken_lem t in
        rw (e, e1)
          (bind-Fits (length u) (length s) (parseline n u) (block_rest n)
            (parseline-Fits n u (omega (arith, less1 pos, le, h)))
            (λ cmd v le2.
              block_rest-Fits n cmd v (length s) (omega (arith, le2, le1, le))
                (omega (arith, le2, le1, le, h))))
  ]

  parseexec-Fits : (n : ℕ) (s : List ℕ) → 4 * length s + 2 ≤ n → Fits (length s) (parseexec n s)
  parseexec-Fits zero s h = absurd (omega arith)
  parseexec-Fits (suc n) s h = elim (peek_lem (b'(' ∷ []) s) [
    | inr (t, e, le, pos) ↦ rw e (
        Fits-le (length t) (length s) (parseblock n t) le
          (parseblock-Fits n t (omega (arith, le, h))))
    | inl (t, e, le) ↦ rw e (
        bind-Fits (length t) (length s) (redirs n [] t) (args_loop n 0 [])
          (redirs-Fits n [] t (omega (arith, le, h)))
          (λ found v le2.
            Fits-le (length v) (length s) (args_loop n 0 [] found v) (omega (arith, le, le2))
              (args_loop-Fits n 0 [] found v (omega (arith, le, le2, h)))))
  ]

abbrev pub IsFinished : Parsed Cmd → Type 0
IsFinished no_fuel = ⊥
IsFinished syntax_error = Unit {0}
IsFinished (parsed cmd s) = s ≡ []

finish-IsFinished : (n : ℕ) (r : Parsed Cmd) → Fits n r → IsFinished (finish r)
finish-IsFinished n syntax_error h = tt
finish-IsFinished n no_fuel h = h
finish-IsFinished n (parsed cmd []) h = refl
finish-IsFinished n (parsed cmd (c ∷ s)) h = tt

-- `parsecmd` ends for every text: with a command, and then with no text left, or with an error.
pub parsecmd-IsFinished : (s : List ℕ) → IsFinished (parsecmd s)
unfolding parsecmd
parsecmd-IsFinished s =
    finish-IsFinished (length s)
      (bind (parseline (4 * length s + 5) s) (λ cmd. peek [] >>= λ b. yields cmd))
      (bind-Fits (length s) (length s) (parseline (4 * length s + 5) s)
        (λ cmd. peek [] >>= λ b. yields cmd) (parseline-Fits (4 * length s + 5) s (omega arith))
        (λ cmd t le. elim (peek_lem [] t) [
          | inl (u, e, le1) ↦ rw e (omega (arith, le, le1))
          | inr (u, e, le1, pos) ↦ rw e (omega (arith, le, le1))
        ]))
