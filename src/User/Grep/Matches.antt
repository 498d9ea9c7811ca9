-- ===== src/User/Grep/Matches.antt =====
-- The matcher of user/grep.c decides which texts an expression matches.
use xv6_riscv_cs.Base.{
  Bool, Bool-cases, List, [], ap, arith, false, if◌then◌else◌, inl, inr, refl, sym, true, ℕ, ◌&&◌,
  ◌++◌, ◌==◌, ◌↔◌, ◌∙◌, ◌∷◌, ◌≡◌,
}
use xv6_riscv_cs.User.Grep.{accepts, search_from, at_end, char_then, match, matchhere, matchstar}

-- The characters of a list are all accepted by `c`.
abbrev pub AllAccepted : ℕ → List ℕ → Type 0
AllAccepted c [] = Unit {0}
AllAccepted c (a ∷ skipped) = (accepts c a ≡ true) × AllAccepted c skipped

-- The expression matches a first part of the text.
abbrev pub Matches : List ℕ → List ℕ → Type 0
Matches [] text = Unit {0}
Matches (c ∷ []) text =
    if c == b'$'
    then text ≡ []
    else ((a : ℕ) × (rest : List ℕ) × (text ≡ a ∷ rest) × (accepts c a ≡ true))
Matches (c ∷ d ∷ re) text =
    if d == b'*'
    then ((skipped rest : List ℕ) × (text ≡ skipped ++ rest)
        × AllAccepted c skipped
        × Matches re rest)
    else ((a : ℕ) × (rest : List ℕ) × (text ≡ a ∷ rest)
        × (accepts c a ≡ true)
        × Matches (d ∷ re) rest)

-- The expression matches somewhere in the text, or at its start after `^`.
abbrev pub MatchesIn : List ℕ → List ℕ → Type 0
MatchesIn [] text = Unit {0}
MatchesIn (c ∷ re) text =
    if c == b'^'
    then Matches re text
    else ((before rest : List ℕ) × (text ≡ before ++ rest) × Matches (c ∷ re) rest)

nil_split : (before rest : List ℕ) → [] ≡ before ++ rest → rest ≡ []
nil_split [] rest e = sym e
nil_split (b ∷ before) rest e = cc

-- What a search loop finds: the first part that it passes and the rest that `here` accepts.
abbrev Splits : (List ℕ → Type 0) → (List ℕ → Bool) → List ℕ → Type 0
Splits P here text =
    (before rest : List ℕ) × (text ≡ before ++ rest) × P before × (here rest ≡ true)

and_left : (a b : Bool) → (a && b) ≡ true → a ≡ true
and_left true b e = refl
and_left false b e = cc

and_right : (a b : Bool) → (a && b) ≡ true → b ≡ true
and_right true b e = e
and_right false b e = cc

at_end_nil : (text : List ℕ) → at_end text ≡ true → text ≡ []
at_end_nil [] e = refl
at_end_nil (a ∷ text) e = cc

search_from_sound :
    (here : List ℕ → Bool) (text : List ℕ)
    → search_from here text ≡ true
    → Splits (λ _. Unit {0}) here text
unfolding search_from
search_from_sound here [] e = ([], [], refl, tt, e)
search_from_sound here (a ∷ text) e = elim (Bool-cases (here (a ∷ text))) [
  | inl found ↦ ([], a ∷ text, refl, tt, found)
  | inr later ↦
      let (before, rest, split, p, found) = search_from_sound here text (rw later at e) in
      (a ∷ before, rest, ap (◌∷◌ a) split, tt, found)
]

search_from_complete :
    (here : List ℕ → Bool) (text before rest : List ℕ)
    → text ≡ before ++ rest
    → here rest ≡ true
    → search_from here text ≡ true
unfolding search_from
search_from_complete here [] before rest e found = ap here (sym (nil_split before rest e)) ∙ found
search_from_complete here (a ∷ text) [] rest e found =
    let now : here (a ∷ text) ≡ true = ap here e ∙ found in rw now refl
search_from_complete here (a ∷ text) (b ∷ before) rest e found =
    let later = search_from_complete here text before rest (cc) found in ground (arith, later)

matchstar_sound :
    (here : List ℕ → Bool) (c : ℕ) (text : List ℕ)
    → matchstar here c text ≡ true
    → Splits (AllAccepted c) here text
unfolding matchstar
matchstar_sound here c [] e = ([], [], refl, tt, e)
matchstar_sound here c (a ∷ text) e = elim (Bool-cases (here (a ∷ text))) [
  | inl found ↦ ([], a ∷ text, refl, tt, found)
  | inr later ↦
      let both : (accepts c a && matchstar here c text) ≡ true = rw later at e in
      let (before, rest, split, p, found) =
        matchstar_sound here c text (and_right (accepts c a) _ both) in
      (a ∷ before, rest, ap (◌∷◌ a) split, (and_left (accepts c a) _ both, p), found)
]

matchstar_complete :
    (here : List ℕ → Bool) (c : ℕ) (text before rest : List ℕ)
    → text ≡ before ++ rest
    → AllAccepted c before
    → here rest ≡ true
    → matchstar here c text ≡ true
unfolding matchstar
matchstar_complete here c [] before rest e p found = ap here (sym (nil_split before rest e)) ∙ found
matchstar_complete here c (a ∷ text) [] rest e p found =
    let now : here (a ∷ text) ≡ true = ap here e ∙ found in rw now refl
matchstar_complete here c (a ∷ text) (b ∷ before) rest e (ok, p) found =
    let later = matchstar_complete here c text before rest (cc) p found in
    let same : b ≡ a = cc in
    let accepted : accepts c a ≡ true = ap (accepts c) (sym same) ∙ ok in
    elim (Bool-cases (here (a ∷ text))) [
      | inl now ↦ rw now refl
      | inr no_match ↦ rw (no_match, accepted) later
    ]

char_then_sound :
    (c : ℕ) (next : List ℕ → Bool) (text : List ℕ)
    → char_then c next text ≡ true
    → (a : ℕ) × (rest : List ℕ) × (text ≡ a ∷ rest) × (accepts c a ≡ true) × (next rest ≡ true)
char_then_sound c next [] e = cc
char_then_sound c next (a ∷ text) e =
    (a, text, refl, and_left (accepts c a) (next text) e, and_right (accepts c a) (next text) e)

char_then_complete :
    (c a : ℕ) (next : List ℕ → Bool) (text rest : List ℕ)
    → text ≡ a ∷ rest
    → accepts c a ≡ true
    → next rest ≡ true
    → char_then c next text ≡ true
char_then_complete c a next text rest e ok found = rw (e, ok) found

matchhere_sound : (re text : List ℕ) → matchhere re text ≡ true → Matches re text
unfolding matchhere
matchhere_sound [] text e = tt
matchhere_sound (c ∷ []) text e = elim (Bool-cases (c == b'$')) [
  | inl dollar ↦ rw dollar (at_end_nil text (rw dollar at e))
  | inr plain ↦
      let (a, rest, split, ok, found) = char_then_sound c (λ _. true) text (rw plain at e) in
      rw plain (a, rest, split, ok)
]
matchhere_sound (c ∷ d ∷ re) text e = elim (Bool-cases (d == b'*')) [
  | inl star ↦
      let (before, rest, split, p, found) = matchstar_sound (matchhere re) c text (rw star at e) in
      rw star (before, rest, split, p, matchhere_sound re rest found)
  | inr plain ↦
      let (a, rest, split, ok, found) =
        char_then_sound c (matchhere (d ∷ re)) text (rw plain at e) in
      rw plain (a, rest, split, ok, matchhere_sound (d ∷ re) rest found)
]

matchhere_complete : (re text : List ℕ) → Matches re text → matchhere re text ≡ true
unfolding matchhere
matchhere_complete [] text h = refl
matchhere_complete (c ∷ []) text h = elim (Bool-cases (c == b'$')) [
  | inl dollar ↦ let e : text ≡ [] = rw dollar at h in rw (dollar, e) refl
  | inr plain ↦
      let (a, rest, split, ok) = rw plain at h in
      rw plain (char_then_complete c a (λ _. true) text rest split ok refl)
]
matchhere_complete (c ∷ d ∷ re) text h = elim (Bool-cases (d == b'*')) [
  | inl star ↦
      let (before, rest, split, p, found) = rw star at h in
      rw star (
        matchstar_complete (matchhere re) c text before rest split p
          (matchhere_complete re rest found))
  | inr plain ↦
      let (a, rest, split, ok, found) = rw plain at h in
      rw plain (
        char_then_complete c a (matchhere (d ∷ re)) text rest split ok
          (matchhere_complete (d ∷ re) rest found))
]

-- `match` accepts a text exactly when the expression matches a part of it, or its start after `^`.
pub match_iff : (re text : List ℕ) → (match re text ≡ true) ↔ MatchesIn re text
unfolding match
match_iff [] text = (
  λ e. tt,
  λ h. search_from_complete (matchhere []) text [] text refl (matchhere_complete [] text tt),
)
match_iff (c ∷ re) text = elim (Bool-cases (c == b'^')) [
  | inl start ↦ rw start (matchhere_sound re text, matchhere_complete re text)
  | inr anywhere ↦ rw anywhere (
    λ e.
        let (before, rest, split, p, found) = search_from_sound (matchhere (c ∷ re)) text e in
        (before, rest, split, matchhere_sound (c ∷ re) rest found),
    λ (before, rest, split, found).
        search_from_complete (matchhere (c ∷ re)) text before rest split
          (matchhere_complete (c ∷ re) rest found),
  )
]
