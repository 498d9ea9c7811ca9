-- ===== src/User/Shell/Steps.antt =====
-- What the lexer of user/sh.c leaves of a text.
use xv6_riscv_cs.Base.{
  Bool-cases, List, [], ap, ap₂, arith, false, inl, inr, length, not, refl, true, ℕ, ◌&&◌, ◌<◌,
  ◌==◌, ◌∷◌, ◌≡◌, ◌≢◌, ◌≤◌, ◌⊎◌,
}
use xv6_riscv_cs.User.Shell.{
  Parsed, Parser, syntax_error, no_fuel, parsed, bind, token, skip_white, split_word, is_in,
  is_word_char, whitespace, gettoken, peek, symbols,
}
use xv6_riscv_cs.Strings.{behind, front}

-- The fuel was enough, and at most `n` characters are left.
abbrev pub Fits : {A : Type 0} → ℕ → Parsed A → Type 0
Fits n syntax_error = Unit {0}
Fits n no_fuel = ⊥
Fits n (parsed a s) = length s ≤ n

pub bind-Fits :
    {A B : Type 0} (n n' : ℕ) (m : Parsed A) (f : A → Parser B)
    → Fits n m
    → ((a : A) (s : List ℕ) → length s ≤ n → Fits n' (f a s))
    → Fits n' (bind m f)
bind-Fits n n' syntax_error f h k = tt
bind-Fits n n' no_fuel f h k = h
bind-Fits n n' (parsed a s) f h k = k a s h

pub length-skip_white : (s : List ℕ) → length (skip_white s) ≤ length s
unfolding skip_white
length-skip_white [] = omega arith
length-skip_white (c ∷ s) = elim (Bool-cases (is_in whitespace c)) [
  | inl white ↦ rw white (omega (arith, length-skip_white s))
  | inr other ↦ rw other (omega arith)
]

pub skip_white_front :
    (s : List ℕ)
    → (skip_white s ≡ [])
      ⊎ ((c : ℕ) × (t : List ℕ) × (skip_white s ≡ c ∷ t) × (is_in whitespace c ≡ false))
unfolding skip_white
skip_white_front [] = inl refl
skip_white_front (c ∷ s) = elim (Bool-cases (is_in whitespace c)) [
  | inl white ↦ rw white (skip_white_front s)
  | inr other ↦ rw other (inr (c, s, refl, other))
]

pub length-split_word : (s : List ℕ) → length (split_word s).1 ≤ length s
unfolding split_word
length-split_word [] = omega arith
length-split_word (c ∷ s) = elim (Bool-cases (is_word_char c)) [
  | inl inside ↦ rw inside (omega (arith, length-split_word s))
  | inr outside ↦ rw outside (omega arith)
]

pub length-behind : (s : List ℕ) → length (behind s) ≤ length s
length-behind [] = omega arith
length-behind (c ∷ s) = omega arith

pub is_word_char-true :
    (c : ℕ) → is_in whitespace c ≡ false → is_in symbols c ≡ false → is_word_char c ≡ true
unfolding is_word_char
is_word_char-true c h letter = ap₂ (λ x y. not x && not y) h letter

-- A token of a text that does not start with white space has a character at least.
pub length-token :
    (c : ℕ) (s : List ℕ) → is_in whitespace c ≡ false → length (token (c ∷ s)).2 ≤ length s
unfolding token split_word
length-token c s h = elim (Bool-cases (c == b'>')) [
  | inl arrow ↦ elim (Bool-cases (front s == b'>')) [
    | inl twice ↦ rw (arrow, twice) (length-behind s)
    | inr once ↦ rw (arrow, once) (omega arith)
  ]
  | inr other ↦ elim (Bool-cases (is_in symbols c)) [
    | inl symbol ↦ rw (other, symbol) (omega arith)
    | inr letter ↦
        let in_word = is_word_char-true c h letter in
        rw (other, letter, in_word) (length-split_word s)
  ]
]

pub token_lem :
    (s : List ℕ)
    → (((token (skip_white s)).0 ≡ 0) × ((token (skip_white s)).2 ≡ []))
      ⊎ (length (token (skip_white s)).2 < length s)
unfolding token
token_lem s = elim (skip_white_front s) [
  | inl none_left ↦ rw none_left (inl (refl, refl))
  | inr (c, t, e, h) ↦
      let shorter = length-skip_white s in
      inr (
        omega (
          arith,
          length-token c t h,
          ap (λ (u : List ℕ). length (token u).2) e,
          ap (length {A = ℕ}) e,
          shorter,
        ))
]

-- What `gettoken` gives: less text, unless that was at its end.
pub gettoken_lem :
    (s : List ℕ)
    → (a : ℕ × List ℕ) × (t : List ℕ) × (gettoken s ≡ parsed a t)
      × (length t ≤ length s)
      × (0 < length s → length t < length s)
      × (a.0 ≢ 0 → length t < length s)
unfolding gettoken
gettoken_lem s =
    let white = length-skip_white (token (skip_white s)).2 in
    elim (token_lem s) [
      | inl (kind, e) ↦ (
        _,
        _,
        refl,
        omega (arith, white, ap (length {A = ℕ}) e),
        λ pos. omega (arith, white, ap (length {A = ℕ}) e),
        λ ne. absurd (ne kind),
      )
      | inr shorter ↦ (
        _,
        _,
        refl,
        omega (arith, white, shorter),
        λ pos. omega (arith, white, shorter),
        λ ne. omega (arith, white, shorter),
      )
    ]

pub peek_lem :
    (toks s : List ℕ)
    → ((t : List ℕ) × (peek toks s ≡ parsed false t) × (length t ≤ length s))
      ⊎ ((t : List ℕ) × (peek toks s ≡ parsed true t) × (length t ≤ length s) × (0 < length t))
unfolding peek
peek_lem toks s = elim (skip_white_front s) [
  | inl none_left ↦ rw none_left (inl ([], refl, omega arith))
  | inr (c, t, e, h) ↦
      let le : length (c ∷ t) ≤ length s =
        omega (arith, ap (length {A = ℕ}) e, length-skip_white s) in
      rw e (elim (Bool-cases (is_in toks c)) [
        | inl found ↦ rw found (inr (c ∷ t, refl, le, omega arith))
        | inr other ↦ rw other (inl (c ∷ t, refl, le))
      ])
]

pub Fits-le : {A : Type 0} (n n' : ℕ) (m : Parsed A) → n ≤ n' → Fits n m → Fits n' m
Fits-le n n' syntax_error le h = tt
Fits-le n n' no_fuel le h = h
Fits-le n n' (parsed a s) le h = omega arith
