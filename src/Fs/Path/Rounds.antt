-- ===== src/Fs/Path/Rounds.antt =====
-- The rounds of the loop of `namex` of kernel/fs.c.
use xv6_riscv_cs.Base.{
  Bool, Bool-cases, List, Option, Option-cases, [], ap, arith, inl, inr, leb, length, none, refl,
  some, subst, suc, sym, zero, ℕ, ◌<◌, ◌∙◌, ◌∷◌, ◌≡◌, ◌≤◌,
}
use xv6_riscv_cs.Fs.{◌>>=◌, Disk, Op, fail}
use xv6_riscv_cs.Fs.Path.{namex_loop, skipelem, namex_round, namex_step, namex_next}
use xv6_riscv_cs.Fs.Path.Elements.{Skips, elements, skipelem-Skips}

Skips-shorter :
    (path : List ℕ) (es : List (List ℕ)) (element : List ℕ × List ℕ)
    → Skips path es (some element)
    → length element.1 < length path
Skips-shorter path [] element h = cc
Skips-shorter path (e ∷ es) element (name, rest, same, cut, tail, lt) =
    let e' : element.1 ≡ rest = ap (λ o. elim o [ none ↦ rest | some r ↦ r.1 ]) same in rw e' lt

skipelem-shorter :
    (path : List ℕ) (element : List ℕ × List ℕ)
    → skipelem path ≡ some element
    → length element.1 < length path
skipelem-shorter path element e =
    Skips-shorter path (elements path) element
      (subst (λ r. Skips path (elements path) r) e (skipelem-Skips path))

bind_congr :
    {A B : Type 0} (o : Option (A × Disk)) (f g : A → Op B)
    → ((a : A) (d : Disk) → f a d ≡ g a d)
    → ((λ d. o) >>= f) ≡ ((λ d. o) >>= g)
bind_congr none f g h = refl
bind_congr (some (a, d)) f g h = λ i d'. h a d i

namex_next-congr :
    (loop loop' : ℕ → List ℕ → Op (ℕ × List ℕ)) (name : List ℕ) (r : Option ℕ × ℕ) (d : Disk)
    → ((i : ℕ) (s : List ℕ) (d : Disk) → loop i s d ≡ loop' i s d)
    → namex_next loop name r d ≡ namex_next loop' name r d
namex_next-congr loop loop' name (some result, next) d h = refl
namex_next-congr loop loop' name (none, next) d h = h next name d

-- A round depends on the rounds that follow only at the rest of the path.
namex_round-congr :
    (parent : Bool) (element : List ℕ × List ℕ) (loop loop' : List ℕ → ℕ → List ℕ → Op (ℕ × List ℕ))
    (ip : ℕ) (name : List ℕ) (d : Disk)
    → ((i : ℕ) (s : List ℕ) (d' : Disk) → loop element.1 i s d' ≡ loop' element.1 i s d')
    → namex_round parent (some element) loop ip name d
      ≡ namex_round parent (some element) loop' ip name d
unfolding namex_round
namex_round-congr parent element loop loop' ip name d h =
    ap (λ (f : Op (ℕ × List ℕ)). f d)
      (bind_congr (namex_step parent ip element.0 element.1 d)
        (namex_next (loop element.1) element.0) (namex_next (loop' element.1) element.0)
        (λ r d'. namex_next-congr (loop element.1) (loop' element.1) element.0 r d' h))

abbrev IsSameRound : ℕ → Bool → List ℕ → ℕ → List ℕ → Disk → Option (List ℕ × List ℕ) → Type 0
IsSameRound rounds parent path ip name d o =
    namex_round parent o (namex_loop (suc rounds) parent) ip name d
    ≡ namex_round parent o (namex_loop rounds parent) ip name d

-- One more round makes no difference.
namex_loop-enough :
    (rounds : ℕ) (parent : Bool) (path : List ℕ) (ip : ℕ) (name : List ℕ) (d : Disk)
    → length path ≤ rounds
    → namex_loop (suc rounds) parent path ip name d ≡ namex_loop rounds parent path ip name d
unfolding namex_loop
namex_loop-enough zero parent path ip name d h = elim (Option-cases (skipelem path)) [
  | inl none_left ↦
      subst
        (λ o.
          namex_round parent o (namex_loop zero parent) ip name d
          ≡ namex_round parent o (λ rest ip name. fail) ip name d)
        (sym none_left) refl
  | inr (element, e) ↦ absurd (omega (arith, skipelem-shorter path element e, h))
]
namex_loop-enough (suc rounds) parent path ip name d h = elim (Option-cases (skipelem path)) [
  | inl none_left ↦ subst (IsSameRound rounds parent path ip name d) (sym none_left) refl
  | inr (element, e) ↦ subst (IsSameRound rounds parent path ip name d) (sym e) (
      namex_round-congr parent element (namex_loop (suc rounds) parent) (namex_loop rounds parent)
        ip name d
        (λ i s d'.
          namex_loop-enough rounds parent element.1 i s d'
            (omega (arith, skipelem-shorter path element e, h))))
]

-- As many rounds as the path is long are enough for the loop of `namex`: with more rounds it
-- gives the same result in the same state.
pub namex_loop-rounds :
    (rounds : ℕ) (parent : Bool) (path : List ℕ) (ip : ℕ) (name : List ℕ) (d : Disk)
    → length path ≤ rounds
    → namex_loop rounds parent path ip name d ≡ namex_loop (length path) parent path ip name d
namex_loop-rounds zero parent path ip name d h =
    let e : zero ≡ length path = omega arith in ap (λ n. namex_loop n parent path ip name d) e
namex_loop-rounds (suc rounds) parent path ip name d h =
    elim (Bool-cases (leb (length path) rounds)) [
      | inl fewer ↦
          namex_loop-enough rounds parent path ip name d (ground arith)
          ∙ namex_loop-rounds rounds parent path ip name d (ground arith)
      | inr exact ↦
          let e : suc rounds ≡ length path = ground arith in
          ap (λ n. namex_loop n parent path ip name d) e
    ]
