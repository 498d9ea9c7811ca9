-- ===== src/User/Grep.antt =====
-- The matcher of user/grep.c. A C string is the list of its characters before the null character.
pub mod Matches
use xv6_riscv_cs.Base.{Bool, List, [], false, if◌then◌else◌, true, ℕ, ◌&&◌, ◌==◌, ◌||◌, ◌∷◌}

-- `re[0] == '.' || re[0] == *text`
abbrev pub accepts : ℕ → ℕ → Bool
accepts c a = (c == b'.') || (c == a)

-- `matchstar`, for a matcher of what follows the star.
unfoldable pub matchstar : (List ℕ → Bool) → ℕ → List ℕ → Bool
matchstar here c [] = here []
matchstar here c (a ∷ text) =
    let rest = matchstar here c text in if here (a ∷ text) then true else accepts c a && rest

-- `*text == '\\0'`
abbrev pub at_end : List ℕ → Bool
at_end [] = true
at_end (_ ∷ _) = false

-- The last test of `matchhere`, for a matcher of what follows the character.
abbrev pub char_then : ℕ → (List ℕ → Bool) → List ℕ → Bool
char_then c next [] = false
char_then c next (a ∷ text) = accepts c a && next text

-- `matchhere`
unfoldable pub matchhere : List ℕ → List ℕ → Bool
unfolding matchstar
matchhere [] text = true
matchhere (c ∷ []) text = if c == b'$' then at_end text else char_then c (λ _. true) text
matchhere (c ∷ d ∷ re) text =
    let here = matchhere re in
    let next = matchhere (d ∷ re) in
    if d == b'*' then matchstar here c text else char_then c next text

-- `match`
unfoldable pub search_from : (List ℕ → Bool) → List ℕ → Bool
search_from here [] = here []
search_from here (a ∷ text) =
    let rest = search_from here text in if here (a ∷ text) then true else rest

unfoldable pub match : List ℕ → List ℕ → Bool
unfolding matchhere search_from
match [] text = search_from (matchhere []) text
match (c ∷ re) text = if c == b'^' then matchhere re text else search_from (matchhere (c ∷ re)) text
