-- ===== src/Cache/Search.antt =====
-- The two loops of `bget` of kernel/bio.c as searches of the list of buffers.
use xv6_riscv_cs.Base.{
  Bool, Bool-cases, List, [], ap, ap₂, arith, false, if◌then◌else◌, inl, inr, length, refl, subst,
  suc, sym, true, zero, ℕ, ◌&&◌, ◌++◌, ◌+◌, ◌<◌, ◌==◌, ◌∙◌, ◌∷◌, ◌≡◌, ◌≢◌, ◌⊎◌,
}
use xv6_riscv_cs.Cache.{Cache, find_cached, find_unused_buf}
use xv6_riscv_cs.Cache.Ring.{NotIn, Linked}

abbrev pub IsIn : ℕ → List ℕ → Type 0
IsIn a [] = ⊥
IsIn a (x ∷ xs) = (a ≡ x) ⊎ IsIn a xs

abbrev pub or_else : ℕ → ℕ → ℕ
or_else a b = if a == 0 then b else a

pub or_else_assoc : (a b c : ℕ) → or_else (or_else a b) c ≡ or_else a (or_else b c)
or_else_assoc a b c = ground arith

-- The first and the last number with a property, or 0.
abbrev pub first_with : (ℕ → Bool) → List ℕ → ℕ
first_with p [] = 0
first_with p (x ∷ xs) = let rest = first_with p xs in if p x then x else rest

abbrev pub last_with : (ℕ → Bool) → List ℕ → ℕ
last_with p [] = 0
last_with p (x ∷ xs) = or_else (last_with p xs) (if p x then x else 0)

abbrev pub holds : Cache → ℕ → ℕ → ℕ → Bool
holds c dev blockno b = ((c.buf b).dev == dev) && ((c.buf b).blockno == blockno)

abbrev pub is_idle : Cache → ℕ → Bool
is_idle c b = (c.buf b).refcnt == 0

pub find_cached-first :
    (n a : ℕ) (xs : List ℕ) (dev blockno : ℕ) (c : Cache)
    → Linked c.next c.prev a xs 0
    → NotIn 0 xs
    → length xs < n
    → find_cached n (c.next a) dev blockno c ≡ first_with (holds c dev blockno) xs
unfolding find_cached
find_cached-first zero a xs dev blockno c l h lt = absurd (omega arith)
find_cached-first (suc n) a [] dev blockno c l h lt = rw l.0 refl
find_cached-first (suc n) a (x ∷ xs) dev blockno c (e, e', l) (ne, h) lt =
    let some_buf : (x == 0) ≡ false = ground arith in
    let rest = find_cached-first n x xs dev blockno c l h (omega arith) in
    rw (e, some_buf, rest) refl

-- Behind the buffers of `xs` the loop goes on at `a`.
pub find_unused_buf-last :
    (m a : ℕ) (xs : List ℕ) (z : ℕ) (c : Cache)
    → Linked c.next c.prev a xs z
    → NotIn 0 xs
    → find_unused_buf (length xs + m) (c.prev z) c
      ≡ or_else (last_with (is_idle c) xs) (find_unused_buf m a c)
unfolding find_unused_buf
find_unused_buf-last m a [] z c l h = ap₂ (λ n b. find_unused_buf n b c) (omega arith) l.1
find_unused_buf-last m a (x ∷ xs) z c (e, e', l) (ne, h) =
    let rounds : length (x ∷ xs) + m ≡ length xs + suc m = omega arith in
    let some_buf : (x == 0) ≡ false = ground arith in
    let here : find_unused_buf (suc m) x c
        ≡ or_else (if is_idle c x then x else 0) (find_unused_buf m a c) =
      rw (some_buf, e') (ground arith) in
    ap (λ n. find_unused_buf n (c.prev z) c) rounds
    ∙ find_unused_buf-last (suc m) x xs z c l h
    ∙ ap (or_else (last_with (is_idle c) xs)) here
    ∙ sym (
        or_else_assoc (last_with (is_idle c) xs) (if is_idle c x then x else 0)
          (find_unused_buf m a c))

-- What the searches of a list give.
abbrev pub IsMatch : (ℕ → Bool) → List ℕ → ℕ → Type 0
IsMatch p xs r =
    ((r ≡ 0) × ((x : ℕ) → IsIn x xs → p x ≡ false)) ⊎ ((r ≢ 0) × IsIn r xs × (p r ≡ true))

pub first_with-IsMatch : (p : ℕ → Bool) (xs : List ℕ) → NotIn 0 xs → IsMatch p xs (first_with p xs)
first_with-IsMatch p [] h = inl (refl, λ x m. absurd m)
first_with-IsMatch p (x ∷ xs) (ne, h) = elim (Bool-cases (p x)) [
  | inl here ↦
      subst (IsMatch p (x ∷ xs)) (sym (ap (λ (b : Bool). if b then x else first_with p xs) here))
        (inr (λ z. ne (sym z), inl refl, here))
  | inr other ↦
      subst (IsMatch p (x ∷ xs)) (sym (ap (λ (b : Bool). if b then x else first_with p xs) other))
        (elim (first_with-IsMatch p xs h) [
          | inl (zero_rest, none_rest) ↦
              inl (zero_rest, λ y m. elim m [ inl e ↦ ap p e ∙ other | inr m' ↦ none_rest y m' ])
          | inr (some_rest, m, e) ↦ inr (some_rest, inr m, e)
        ])
]

pub last_with_lem :
    (p : ℕ → Bool) (xs : List ℕ)
    → NotIn 0 xs
    → ((last_with p xs ≡ 0) × ((x : ℕ) → IsIn x xs → p x ≡ false))
      ⊎ ((last_with p xs ≢ 0)
          × (p (last_with p xs) ≡ true)
          × ((us : List ℕ) × (vs : List ℕ) × (xs ≡ us ++ (last_with p xs ∷ vs))
              × ((y : ℕ) → IsIn y vs → p y ≡ false)))
last_with_lem p [] h = inl (refl, λ x m. absurd m)
last_with_lem p (x ∷ xs) (ne, h) = elim (last_with_lem p xs h) [
  | inr (some_rest, e, (us, vs, split, rest)) ↦
      let found : (last_with p xs == 0) ≡ false = ground arith in
      rw found (inr (some_rest, e, (x ∷ us, vs, ap (◌∷◌ x) split, rest)))
  | inl (zero_rest, none_rest) ↦ elim (Bool-cases (p x)) [
    | inl here ↦ rw (zero_rest, here) (inr (λ z. ne (sym z), here, ([], xs, refl, none_rest)))
    | inr other ↦
        rw (zero_rest, other)
          (inl (refl, λ y m. elim m [ inl e ↦ ap p e ∙ other | inr m' ↦ none_rest y m' ]))
  ]
]
