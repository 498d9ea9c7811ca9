-- ===== src/Fs/Path/Elements.antt =====
-- The path elements that `skipelem` of kernel/fs.c takes off, and the end of the loop of `namex`.
use xv6_riscv_cs.Base.{
  Bool, Bool-cases, List, Option, [], ap, arith, false, if◌then◌else◌, inl, inr, leb, length, none,
  refl, some, subst, suc, sym, take, true, zero, ℕ, ◌++◌, ◌<◌, ◌==◌, ◌∙◌, ◌∷◌, ◌≡◌, ◌≤◌, ◌⊎◌,
}
use xv6_riscv_cs.Strings.{front}
use xv6_riscv_cs.Fs.Path.{name_of, skip_first, skip_slashes, skipelem, split_element}
use xv6_riscv_cs.Fs.{dirsiz}

-- One more element, if it is not empty.
abbrev pub add_element : List ℕ → List (List ℕ) → List (List ℕ)
add_element [] es = es
add_element (c ∷ s) es = (c ∷ s) ∷ es

-- A path read from its end: the characters before its first slash, and the elements behind it.
abbrev pub pieces : List ℕ → List ℕ × List (List ℕ)
pieces [] = ([], [])
pieces (c ∷ path) =
    let rest = pieces path in
    if c == b'/' then ([], add_element rest.0 rest.1) else (c ∷ rest.0, rest.1)

-- The elements of a path: the longest parts with no slash in them.
abbrev pub elements : List ℕ → List (List ℕ)
elements path = add_element (pieces path).0 (pieces path).1

skip_slashes-slash :
    (c : ℕ) → (path : List ℕ) → (c == b'/') ≡ true → skip_slashes (c ∷ path) ≡ skip_slashes path
unfolding skip_slashes
skip_slashes-slash c path e = ap (λ (b : Bool). if b then skip_slashes path else c ∷ path) e

skip_slashes-other :
    (c : ℕ) → (path : List ℕ) → (c == b'/') ≡ false → skip_slashes (c ∷ path) ≡ (c ∷ path)
unfolding skip_slashes
skip_slashes-other c path e = ap (λ (b : Bool). if b then skip_slashes path else c ∷ path) e

pieces-test :
    (c : ℕ)
    → (path : List ℕ) → (b : Bool) → (c == b'/') ≡ b
    → pieces (c ∷ path)
      ≡ (if b then ([], elements path) else (c ∷ (pieces path).0, (pieces path).1))
pieces-test c path b e =
    ap (λ (b : Bool). if b then ([], elements path) else (c ∷ (pieces path).0, (pieces path).1)) e

split_element-test :
    (c : ℕ)
    → (path : List ℕ) → (b : Bool) → (c == b'/') ≡ b
    → split_element (c ∷ path)
      ≡ (if b then ([], c ∷ path) else (c ∷ (split_element path).0, (split_element path).1))
unfolding split_element
split_element-test c path b e =
    ap
      (λ (b : Bool).
        if b then ([], c ∷ path) else (c ∷ (split_element path).0, (split_element path).1))
      e

-- A slash at the front does not change the elements.
elements-slash :
    (c : ℕ) → (path : List ℕ) → (c == b'/') ≡ true → elements (c ∷ path) ≡ elements path
elements-slash c path e =
    ap (λ (p : List ℕ × List (List ℕ)). add_element p.0 p.1) (pieces-test c path true e)

elements-skip_slashes : (path : List ℕ) → elements (skip_slashes path) ≡ elements path
unfolding skip_slashes
elements-skip_slashes [] = refl
elements-skip_slashes (c ∷ path) = elim (Bool-cases (c == b'/')) [
  | inl slash ↦
      ap elements (skip_slashes-slash c path slash)
      ∙ elements-skip_slashes path
      ∙ sym (elements-slash c path slash)
  | inr other ↦ ap elements (skip_slashes-other c path other)
]

-- The first element is what stands before the first slash.
split_element-pieces :
    (path : List ℕ)
    → ((split_element path).0 ≡ (pieces path).0)
      × (elements (split_element path).1 ≡ (pieces path).1)
unfolding split_element
split_element-pieces [] = (refl, refl)
split_element-pieces (c ∷ path) = elim (Bool-cases (c == b'/')) [
  | inl slash ↦
      let s = split_element-test c path true slash in
      let p = pieces-test c path true slash in
      (
        ap (λ x. x.0) s ∙ sym (ap (λ x. x.0) p),
        ap (λ (x : List ℕ × List ℕ). elements x.1) s
            ∙ elements-slash c path slash
            ∙ sym (ap (λ x. x.1) p),
      )
  | inr other ↦
      let (e, e') = split_element-pieces path in
      let s = split_element-test c path false other in
      let p = pieces-test c path false other in
      (
        ap (λ x. x.0) s ∙ ap (◌∷◌ c) e ∙ sym (ap (λ x. x.0) p),
        ap (λ (x : List ℕ × List ℕ). elements x.1) s ∙ e' ∙ sym (ap (λ x. x.1) p),
      )
]

-- Slashes are skipped, so what is left starts with another character.
skipped_front :
    (path : List ℕ) → (skip_slashes path ≡ []) ⊎ ((front (skip_slashes path) == b'/') ≡ false)
unfolding skip_slashes
skipped_front [] = inl refl
skipped_front (c ∷ path) = elim (Bool-cases (c == b'/')) [
  | inl slash ↦ rw slash (skipped_front path)
  | inr other ↦ rw other (inr other)
]

length-skip_slashes : (path : List ℕ) → length (skip_slashes path) ≤ length path
unfolding skip_slashes
length-skip_slashes [] = omega arith
length-skip_slashes (c ∷ path) = elim (Bool-cases (c == b'/')) [
  | inl slash ↦ rw slash (omega (arith, length-skip_slashes path))
  | inr other ↦ rw other (omega arith)
]

length-split_element : (path : List ℕ) → length (split_element path).1 ≤ length path
unfolding split_element
length-split_element [] = omega arith
length-split_element (c ∷ path) = elim (Bool-cases (c == b'/')) [
  | inl slash ↦ rw slash (omega arith)
  | inr other ↦ rw other (omega (arith, length-split_element path))
]

-- The 14 bytes of a directory entry's name for an element: all of it with a null behind it, or, if
-- it is too long, its first 14 characters.
abbrev pub IsName : List ℕ → List ℕ → Type 0
IsName e name =
    ((length e < 14) × (name ≡ e ++ (0 ∷ [])))
    ⊎ ((14 ≤ length e) × (length name ≡ 14) × (cut : List ℕ) × (e ≡ name ++ cut))

take-cut :
    (n : ℕ) (e : List ℕ)
    → n ≤ length e
    → (length (take n e) ≡ n) × (cut : List ℕ) × (e ≡ take n e ++ cut)
take-cut zero e h = (refl, e, refl)
take-cut (suc n) [] h = absurd (omega arith)
take-cut (suc n) (c ∷ e) h =
    let (len, cut, split) = take-cut n e (omega arith) in (ap suc len, cut, ap (◌∷◌ c) split)

name_of-IsName : (e : List ℕ) → IsName e (name_of e)
name_of-IsName e = elim (Bool-cases (leb dirsiz (length e))) [
  | inl long ↦
      let le : 14 ≤ length e = ground (arith, long) in
      let (len, cut, split) = take-cut 14 e le in rw long (inr (le, len, cut, split))
  | inr short ↦ rw short (inl (ground (arith, short), refl))
]

-- What `skipelem` says of the elements of a path.
abbrev pub Skips : List ℕ → List (List ℕ) → Option (List ℕ × List ℕ) → Type 0
Skips path [] r = r ≡ none
Skips path (e ∷ es) r =
    (name : List ℕ) × (rest : List ℕ) × (r ≡ some (name, rest))
    × IsName e name
    × (elements rest ≡ es)
    × (length rest < length path)

skip_first-Skips :
    (path : List ℕ)
    → (path ≡ []) ⊎ ((front path == b'/') ≡ false)
    → Skips path (elements path) (skip_first path)
unfolding skip_first split_element
skip_first-Skips [] h = refl
skip_first-Skips (c ∷ path) (inl e) = cc
skip_first-Skips (c ∷ path) (inr other) =
    let (e, e') = split_element-pieces path in
    rw other (
      name_of (c ∷ (pieces path).0),
      skip_slashes (split_element path).1,
      ap (λ (s : List ℕ). some (name_of (c ∷ s), skip_slashes (split_element path).1)) e,
      name_of-IsName (c ∷ (pieces path).0),
      elements-skip_slashes (split_element path).1 ∙ e',
      omega (arith, length-skip_slashes (split_element path).1, length-split_element path),
    )

Skips-mono :
    (p q : List ℕ)
    → length p ≤ length q
    → (es : List (List ℕ)) → (r : Option (List ℕ × List ℕ)) → Skips p es r
    → Skips q es r
Skips-mono p q le [] r h = h
Skips-mono p q le (e ∷ es) r (name, rest, result, cut, tail, lt) =
    (name, rest, result, cut, tail, omega arith)

-- `skipelem` returns 0 for a path without elements. Otherwise it writes the name of the first element,
-- its first 14 characters if it has as many and else all of them with a null behind them, and
-- returns a shorter path with the other elements.
pub skipelem-Skips : (path : List ℕ) → Skips path (elements path) (skipelem path)
unfolding skipelem
skipelem-Skips path =
    Skips-mono (skip_slashes path) path (length-skip_slashes path) (elements path)
      (skip_first (skip_slashes path))
      (subst (λ es. Skips (skip_slashes path) es (skip_first (skip_slashes path)))
        (elements-skip_slashes path) (skip_first-Skips (skip_slashes path) (skipped_front path)))
