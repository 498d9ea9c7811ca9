-- ===== src/Strings/Copies.antt =====
-- Copies of strings and their comparison, kernel/string.c.
use xv6_riscv_cs.Base.{
  ==_iff, Bool-cases, List, [], ap, ap₂, arith, false, if◌then◌else◌, inl, inr, length, refl, suc,
  sym, true, zero, ℕ, ◌<◌, ◌==◌, ◌↔◌, ◌∙◌, ◌∷◌, ◌≡◌, ◌≢◌,
}
use xv6_riscv_cs.Strings.{behind, front, strncmp, strncpy, zeros, byte_diff, safe_loop, safestrcpy}

-- The characters before the null character, at most `n`.
abbrev pub chars : ℕ → List ℕ → List ℕ
chars zero t = []
chars (suc n) t = if front t == 0 then [] else front t ∷ chars n (behind t)

abbrev pub AreBytes : List ℕ → Type 0
AreBytes [] = Unit {0}
AreBytes (c ∷ cs) = (c < 256) × AreBytes cs

front-lt : (t : List ℕ) → AreBytes t → front t < 256
front-lt [] h = omega arith
front-lt (c ∷ cs) h = h.0

behind-AreBytes : (t : List ℕ) → AreBytes t → AreBytes (behind t)
behind-AreBytes [] h = tt
behind-AreBytes (c ∷ cs) h = h.1

tail_eq : (a b : ℕ) (as' bs : List ℕ) → a ∷ as' ≡ b ∷ bs → as' ≡ bs
tail_eq a b as' bs e = cc

front_eq : (a b : ℕ) (as' bs : List ℕ) → a ∷ as' ≡ (if b == 0 then [] else b ∷ bs) → a ≡ b
front_eq a b as' bs e = elim (Bool-cases (b == 0)) [
  | inl null ↦ cc (rw null at e)
  | inr some_char ↦ cc (rw some_char at e)
]

length-zeros : (n : ℕ) → length (zeros n) ≡ n
unfolding zeros
length-zeros zero = refl
length-zeros (suc n) = ap suc (length-zeros n)

chars-safe_loop : (n k : ℕ) (t : List ℕ) → n < k → chars k (safe_loop t n) ≡ chars n t
unfolding safe_loop
chars-safe_loop n zero t h = absurd (omega arith)
chars-safe_loop zero (suc k) t h = refl
chars-safe_loop (suc n) (suc k) t h = elim (Bool-cases (front t == 0)) [
  | inl none_left ↦ rw none_left refl
  | inr more ↦ rw (more, more) (ap (◌∷◌ (front t)) (chars-safe_loop n k (behind t) (omega arith)))
]

byte_diff_iff : (a b : ℕ) → a < 256 → b < 256 → (byte_diff a b ≡ 0) ↔ (a ≡ b)
byte_diff_iff a b h k = (λ e. omega (arith, e), λ e. omega (arith, e))

-- `strncmp` is 0 exactly for strings with the same characters, of the first `n`.
pub strncmp_iff :
    (n : ℕ) (p q : List ℕ) → AreBytes p → AreBytes q → (strncmp n p q ≡ 0) ↔ (chars n p ≡ chars n q)
unfolding strncmp
strncmp_iff zero p q h k = (λ e. refl, λ e. refl)
strncmp_iff (suc n) p q h k =
    let diff = byte_diff_iff (front p) (front q) (front-lt p h) (front-lt q k) in
    let rest = strncmp_iff n (behind p) (behind q) (behind-AreBytes p h) (behind-AreBytes q k) in
    elim (Bool-cases (front p == 0)) [
      | inl ended ↦
          let e : front p ≡ 0 = (==_iff _ _).0 ended in
          elim (Bool-cases (front q == 0)) [
            | inl both ↦
                let e' : front q ≡ 0 = (==_iff _ _).0 both in
                rw (ended, both) (λ same. refl, λ same. diff.1 (e ∙ sym e'))
            | inr longer ↦
                let ne : front q ≢ 0 = ground arith in
                rw (ended, longer) (λ same. absurd (ne (sym (diff.0 same) ∙ e)), λ same. cc)
          ]
      | inr more ↦ elim (Bool-cases (front p == front q)) [
        | inl same_front ↦
            let e : front p ≡ front q = (==_iff _ _).0 same_front in
            let more' : (front q == 0) ≡ false = rw (← e) more in
            rw (more, same_front, more')
              (
                λ same. ap₂ ◌∷◌ e (rest.0 same),
                λ same. rest.1 (tail_eq (front p) (front q) _ _ same),
              )
        | inr other ↦
            let ne : front p ≢ front q = ground arith in
            rw (more, other)
              (
                λ same. absurd (ne (diff.0 same)),
                λ same. absurd (ne (front_eq (front p) (front q) _ (chars n (behind q)) same)),
              )
      ]
    ]

-- The name that `strncpy` writes compares equal to the string.
pub strncmp-strncpy : (n : ℕ) (t : List ℕ) → strncmp n t (strncpy t n) ≡ 0
unfolding strncmp strncpy
strncmp-strncpy zero t = refl
strncmp-strncpy (suc n) t = elim (Bool-cases (front t == 0)) [
  | inl none_left ↦ let e : front t ≡ 0 = (==_iff _ _).0 none_left in rw e refl
  | inr more ↦
      let same : (front t == front t) ≡ true = ground arith in
      rw (more, same) (strncmp-strncpy n (behind t))
]

-- `strncpy` writes all `n` bytes.
pub length-strncpy : (n : ℕ) (t : List ℕ) → length (strncpy t n) ≡ n
unfolding strncpy
length-strncpy zero t = refl
length-strncpy (suc n) t = elim (Bool-cases (front t == 0)) [
  | inl none_left ↦ rw none_left (ap suc (length-zeros n))
  | inr more ↦ rw more (ap suc (length-strncpy n (behind t)))
]

-- What `safestrcpy` writes into `n + 1` bytes is a string of the first `n` characters.
pub chars-safestrcpy : (n k : ℕ) (t : List ℕ) → n < k → chars k (safestrcpy t (suc n)) ≡ chars n t
unfolding safestrcpy
chars-safestrcpy n k t h = chars-safe_loop n k t h
