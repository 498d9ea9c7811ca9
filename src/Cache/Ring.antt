-- ===== src/Cache/Ring.antt =====
-- The list of the buffer cache, as a list of numbers of buffers.
use xv6_riscv_cs.Base.{
  List, [], ap, subst, sym, update, update_ne, update_self, ℕ, ◌++◌, ◌∙◌, ◌∷◌, ◌≡◌, ◌≢◌,
}
use xv6_riscv_cs.Cache.{Cache, link_front, unlink}

abbrev pub NotIn : ℕ → List ℕ → Type 0
NotIn a [] = Unit {0}
NotIn a (x ∷ xs) = (a ≢ x) × NotIn a xs

abbrev pub IsDistinct : List ℕ → Type 0
IsDistinct [] = Unit {0}
IsDistinct (x ∷ xs) = NotIn x xs × IsDistinct xs

-- The links lead from `a` through `xs` to `z`, and back.
abbrev pub Linked : (ℕ → ℕ) → (ℕ → ℕ) → ℕ → List ℕ → ℕ → Type 0
Linked next prev a [] z = (next a ≡ z) × (prev z ≡ a)
Linked next prev a (x ∷ xs) z = (next a ≡ x) × (prev x ≡ a) × Linked next prev x xs z

-- The buffers in the list, the most recently used one first.
abbrev pub IsRing : Cache → List ℕ → Type 0
IsRing c xs = Linked c.next c.prev 0 xs 0 × IsDistinct (0 ∷ xs)

NotIn-append : (a : ℕ) (xs ys : List ℕ) → NotIn a (xs ++ ys) → NotIn a xs × NotIn a ys
NotIn-append a [] ys h = (tt, h)
NotIn-append a (x ∷ xs) ys (ne, h) = let (l, r) = NotIn-append a xs ys h in ((ne, l), r)

append-NotIn : (a : ℕ) (xs ys : List ℕ) → NotIn a xs → NotIn a ys → NotIn a (xs ++ ys)
append-NotIn a [] ys l r = r
append-NotIn a (x ∷ xs) ys (ne, l) r = (ne, append-NotIn a xs ys l r)

Linked-next :
    (next prev : ℕ → ℕ) (a : ℕ) (xs : List ℕ) (z p n : ℕ)
    → NotIn p (a ∷ xs)
    → Linked next prev a xs z
    → Linked (update next p n) prev a xs z
Linked-next next prev a [] z p n (ne, h) (e, e') = (update_ne next p a n ne ∙ e, e')
Linked-next next prev a (x ∷ xs) z p n (ne, h) (e, e', l) =
    (update_ne next p a n ne ∙ e, e', Linked-next next prev x xs z p n h l)

Linked-prev :
    (next prev : ℕ → ℕ) (a : ℕ) (xs : List ℕ) (z q m : ℕ)
    → NotIn q xs
    → q ≢ z
    → Linked next prev a xs z
    → Linked next (update prev q m) a xs z
Linked-prev next prev a [] z q m h off (e, e') = (e, update_ne prev q z m off ∙ e')
Linked-prev next prev a (x ∷ xs) z q m (ne, h) off (e, e', l) =
    (e, update_ne prev q x m ne ∙ e', Linked-prev next prev x xs z q m h off l)

-- What follows `a`, and what stands before `b`.
next-ne :
    (next prev : ℕ → ℕ) (a : ℕ) (xs : List ℕ) (z y : ℕ)
    → Linked next prev a xs z
    → NotIn y xs
    → y ≢ z
    → next a ≢ y
next-ne next prev a [] z y (e, e') h off = λ same. off (sym same ∙ e)
next-ne next prev a (x ∷ xs) z y (e, e', l) (ne, h) off = λ same. ne (sym same ∙ e)

prev-ne :
    (next prev : ℕ → ℕ) (a : ℕ) (us : List ℕ) (b : ℕ) (vs : List ℕ) (z y : ℕ)
    → Linked next prev a (us ++ (b ∷ vs)) z
    → NotIn y (a ∷ us)
    → prev b ≢ y
prev-ne next prev a [] b vs z y (e, e', l) (ne, h) = λ same. ne (sym same ∙ e')
prev-ne next prev a (u ∷ us) b vs z y (e, e', l) (ne, h) = prev-ne next prev u us b vs z y l h

Linked-tail :
    (next prev : ℕ → ℕ) (a : ℕ) (us : List ℕ) (b : ℕ) (vs : List ℕ) (z : ℕ)
    → Linked next prev a (us ++ (b ∷ vs)) z
    → Linked next prev b vs z
Linked-tail next prev a [] b vs z (e, e', l) = l
Linked-tail next prev a (u ∷ us) b vs z (e, e', l) = Linked-tail next prev u us b vs z l

-- Without the first element `b` behind `a`.
Linked-cut_first :
    (next prev : ℕ → ℕ) (a b : ℕ) (vs : List ℕ) (z : ℕ)
    → Linked next prev a (b ∷ vs) z
    → NotIn a vs
    → IsDistinct vs
    → NotIn z vs
    → Linked (update next a (next b)) (update prev (next b) a) a vs z
Linked-cut_first next prev a b [] z (e, e', (e2, e3)) h d off = (
  update_self next a (next b) ∙ e2,
  ap (update prev (next b) a) (sym e2) ∙ update_self prev (next b) a,
)
Linked-cut_first next prev a b (v ∷ vs) z (e, e', (e2, e3, l)) (ne, h) (fresh, d) (nz, off) = (
  update_self next a (next b) ∙ e2,
  ap (update prev (next b) a) (sym e2) ∙ update_self prev (next b) a,
  Linked-prev (update next a (next b)) prev v vs z (next b) a (rw e2 fresh)
      (λ same. nz (sym same ∙ e2)) (Linked-next next prev v vs z a (next b) (ne, h) l),
)

-- `unlink` takes `b` out, wherever it stands.
Linked-cut :
    (next prev : ℕ → ℕ) (a : ℕ) (us : List ℕ) (b : ℕ) (vs : List ℕ) (z : ℕ)
    → Linked next prev a (us ++ (b ∷ vs)) z
    → IsDistinct (a ∷ (us ++ (b ∷ vs)))
    → NotIn z (us ++ (b ∷ vs))
    → Linked (update next (prev b) (next b)) (update prev (next b) (prev b)) a (us ++ vs) z
Linked-cut next prev a [] b vs z (e, e', l) ((ne, fresh), (off_b, d)) (nz, off) =
    subst (λ p. Linked (update next p (next b)) (update prev (next b) p) a vs z) (sym e')
      (Linked-cut_first next prev a b vs z (e, e', l) fresh d off)
Linked-cut next prev a (u ∷ us) b vs z (e, e', l) ((ne, fresh), (off_u, d)) (nz, off) =
    let far = prev-ne next prev u us b vs z a l (ne, (NotIn-append a us (b ∷ vs) fresh).0) in
    let behind = (NotIn-append u us (b ∷ vs) off_u).1 in
    let near =
      next-ne next prev b vs z u (Linked-tail next prev u us b vs z l) behind.1
        (λ same. nz (sym same)) in
    (
      update_ne next (prev b) a (next b) far ∙ e,
      update_ne prev (next b) u (prev b) near ∙ e',
      Linked-cut next prev u us b vs z l (off_u, d) off,
    )

IsDistinct-cut :
    (us : List ℕ) (b : ℕ) (vs : List ℕ)
    → IsDistinct (us ++ (b ∷ vs))
    → NotIn b (us ++ vs) × IsDistinct (us ++ vs)
IsDistinct-cut [] b vs d = d
IsDistinct-cut (u ∷ us) b vs (fresh, d) =
    let (out, rest) = IsDistinct-cut us b vs d in
    let (l, r) = NotIn-append u us (b ∷ vs) fresh in
    ((λ same. r.0 (sym same), out), (append-NotIn u us vs l r.1, rest))

NotIn-cut :
    (a : ℕ) (us : List ℕ) (b : ℕ) (vs : List ℕ) → NotIn a (us ++ (b ∷ vs)) → NotIn a (us ++ vs)
NotIn-cut a us b vs h = let (l, r) = NotIn-append a us (b ∷ vs) h in append-NotIn a us vs l r.1

-- `unlink` takes a buffer out of the list, wherever it stands.
pub unlink-IsRing :
    (c : Cache) (us : List ℕ) (b : ℕ) (vs : List ℕ)
    → IsRing c (us ++ (b ∷ vs))
    → IsRing (unlink b c) (us ++ vs) × NotIn b (0 ∷ (us ++ vs))
unfolding unlink
unlink-IsRing c us b vs (l, (fresh, d)) =
    let (out, rest) = IsDistinct-cut us b vs d in
    let b_0 : b ≢ 0 = λ e. (NotIn-append 0 us (b ∷ vs) fresh).1.0 (sym e) in
    let l_b = Linked-tail c.next c.prev 0 us b vs 0 l in
    let apart = next-ne c.next c.prev b vs 0 b l_b (NotIn-append b us vs out).1 b_0 in
    (
      (
        subst
            (λ p.
              Linked (update c.next p (c.next b)) (update c.prev (c.next b) (c.prev b)) 0 (us ++ vs)
                0)
            (sym (update_ne c.prev (c.next b) b (c.prev b) apart))
            (Linked-cut c.next c.prev 0 us b vs 0 l (fresh, d) fresh),
        (NotIn-cut 0 us b vs fresh, rest),
      ),
      (b_0, out),
    )

-- The links behind the four assignments of `link_front`; `w` is the old front.
abbrev front_next : (ℕ → ℕ) → ℕ → ℕ → ℕ
front_next next b = update (update next b (next 0)) 0 b

abbrev front_prev : (ℕ → ℕ) → ℕ → ℕ → ℕ → ℕ
front_prev prev b w = update (update prev b 0) w b

Linked-front_rest :
    (next prev : ℕ → ℕ) (b : ℕ) (xs : List ℕ)
    → Linked next prev 0 xs 0
    → NotIn b (0 ∷ xs)
    → IsDistinct (0 ∷ xs)
    → Linked (front_next next b) (front_prev prev b (next 0)) b xs 0
Linked-front_rest next prev b [] (e, e') (ne, out) d = (
  update_ne (update next b (next 0)) 0 b b (λ z. ne (sym z)) ∙ update_self next b (next 0) ∙ e,
  ap (front_prev prev b (next 0)) (sym e) ∙ update_self (update prev b 0) (next 0) b,
)
Linked-front_rest next prev b (x ∷ xs) (e, e', l) (ne, (ne', out)) ((n0, fresh), (off_x, d)) = (
  update_ne (update next b (next 0)) 0 b b (λ z. ne (sym z)) ∙ update_self next b (next 0) ∙ e,
  ap (front_prev prev b (next 0)) (sym e) ∙ update_self (update prev b 0) (next 0) b,
  Linked-prev (front_next next b) (update prev b 0) x xs 0 (next 0) b
      (subst (λ w. NotIn w xs) (sym e) off_x) (λ z. n0 (sym z ∙ e))
      (Linked-prev (front_next next b) prev x xs 0 b 0 out ne (
        Linked-next (update next b (next 0)) prev x xs 0 0 b (n0, fresh)
          (Linked-next next prev x xs 0 b (next 0) (ne', out) l))),
)

-- `link_front` puts a buffer that is not in the list at its front.
pub link_front-IsRing :
    (c : Cache) (b : ℕ) (xs : List ℕ)
    → IsRing c xs
    → NotIn b (0 ∷ xs)
    → IsRing (link_front b c) (b ∷ xs)
unfolding link_front
link_front-IsRing c b xs (l, (fresh, d)) (ne, out) =
    let w_b = next-ne c.next c.prev 0 xs 0 b l out ne in
    let old_front = update_ne c.next b 0 (c.next 0) ne in
    (
      subst (λ w. Linked (front_next c.next b) (front_prev c.prev b w) 0 (b ∷ xs) 0) (sym old_front)
          (
            update_self (update c.next b (c.next 0)) 0 b,
            update_ne (update c.prev b 0) (c.next 0) b b w_b ∙ update_self c.prev b 0,
            Linked-front_rest c.next c.prev b xs l (ne, out) (fresh, d),
          ),
      ((λ z. ne (sym z), fresh), (out, d)),
    )
