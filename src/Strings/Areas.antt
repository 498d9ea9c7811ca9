-- ===== src/Strings/Areas.antt =====
-- `memmove` and `memset` of kernel/string.c on areas of the memory.
use xv6_riscv_cs.Base.{
  ==_iff, Bool-cases, ap, arith, if◌then◌else◌, inl, inr, leb, ltb, refl, suc, update, update_ne,
  update_self, zero, ℕ, ◌%◌, ◌&&◌, ◌+◌, ◌-◌, ◌<◌, ◌==◌, ◌∙◌, ◌≡◌, ◌≤◌, ◌⊎◌,
}
use xv6_riscv_cs.Strings.{copy_down, copy_up, memmove, set_loop, memset}

pub record IsMoved (dst src n : ℕ) (mem mem' : ℕ → ℕ) : Type 0 where
  pub inside : (k : ℕ) → k < n → mem' (dst + k) ≡ mem (src + k)
  pub outside : (a : ℕ) → (a < dst) ⊎ (dst + n ≤ a) → mem' a ≡ mem a

pub up_outside :
    (n d s : ℕ) (mem : ℕ → ℕ) (a : ℕ) → (a < d) ⊎ (d + n ≤ a) → copy_up n d s mem a ≡ mem a
unfolding copy_up
up_outside zero d s mem a h = refl
up_outside (suc n) d s mem a h =
    up_outside n (d + 1) (s + 1) (update mem d (mem s)) a
      (elim h [ inl low ↦ inl (omega arith) | inr high ↦ inr (omega arith) ])
    ∙ update_ne mem d a (mem s) (elim h [ inl low ↦ omega arith | inr high ↦ omega arith ])

pub up_inside :
    (n d s : ℕ) (mem : ℕ → ℕ) (k : ℕ)
    → (d ≤ s) ⊎ (s + n ≤ d)
    → k < n
    → copy_up n d s mem (d + k) ≡ mem (s + k)
unfolding copy_up
up_inside zero d s mem k h lt = absurd (omega arith)
up_inside (suc n) d s mem zero h lt =
    let mem' : ℕ → ℕ = update mem d (mem s) in
    up_outside n (d + 1) (s + 1) mem' (d + 0) (inl (omega arith))
    ∙ ap mem' {x = d + 0} {y = d} (omega arith)
    ∙ update_self mem d (mem s)
    ∙ ap mem (omega arith)
up_inside (suc n) d s mem (suc k) h lt =
    let mem' : ℕ → ℕ = update mem d (mem s) in
    ap (copy_up n (d + 1) (s + 1) mem') {x = d + suc k} {y = d + 1 + k} (omega arith)
    ∙ up_inside n (d + 1) (s + 1) mem' k
        (elim h [ inl low ↦ inl (omega arith) | inr high ↦ inr (omega arith) ]) (omega arith)
    ∙ update_ne mem d (s + 1 + k) (mem s)
        (elim h [ inl low ↦ omega arith | inr high ↦ omega arith ])
    ∙ ap mem (omega arith)

-- The backward loop, with its pointers counted from the start of the areas.
down_step :
    (n d s : ℕ) (mem : ℕ → ℕ)
    → copy_down (suc n) (d + suc n) (s + suc n) mem
      ≡ copy_down n (d + n) (s + n) (update mem (d + n) (mem (s + n)))
unfolding copy_down
down_step n d s mem =
    let left : d + suc n - 1 ≡ d + n = omega arith in
    let right : s + suc n - 1 ≡ s + n = omega arith in rw (left, right) refl

down_none : (d s : ℕ) (mem : ℕ → ℕ) → copy_down 0 d s mem ≡ mem
unfolding copy_down
down_none d s mem = refl

pub down_outside :
    (n d s : ℕ) (mem : ℕ → ℕ) (a : ℕ)
    → (a < d) ⊎ (d + n ≤ a)
    → copy_down n (d + n) (s + n) mem a ≡ mem a
down_outside zero d s mem a h = ap (λ m. m a) (down_none (d + 0) (s + 0) mem)
down_outside (suc n) d s mem a h = rw (down_step n d s mem) (
    down_outside n d s (update mem (d + n) (mem (s + n))) a
      (elim h [ inl low ↦ inl low | inr high ↦ inr (omega arith) ])
    ∙ update_ne mem (d + n) a (mem (s + n))
        (elim h [ inl low ↦ omega arith | inr high ↦ omega arith ]))

pub down_inside :
    (n d s : ℕ) (mem : ℕ → ℕ) (k : ℕ)
    → s ≤ d
    → k < n
    → copy_down n (d + n) (s + n) mem (d + k) ≡ mem (s + k)
down_inside zero d s mem k h lt = absurd (omega arith)
down_inside (suc n) d s mem k h lt =
    let mem' : ℕ → ℕ = update mem (d + n) (mem (s + n)) in
    rw (down_step n d s mem) (elim (Bool-cases (k == n)) [
      | inl last ↦
          let e : k ≡ n = (==_iff k n).0 last in
          down_outside n d s mem' (d + k) (inr (omega (arith, e)))
          ∙ ap mem' {x = d + k} {y = d + n} (omega (arith, e))
          ∙ update_self mem (d + n) (mem (s + n))
          ∙ ap mem (omega (arith, e))
      | inr other ↦
          let low : k < n = ground arith in
          down_inside n d s mem' k h low ∙ update_ne mem (d + n) (s + k) (mem (s + n)) (omega arith)
    ])

-- `memmove` copies the source as it was before the call, also when the areas overlap, and changes
-- no byte outside the target.
pub memmove-IsMoved : (dst src n : ℕ) (mem : ℕ → ℕ) → IsMoved dst src n mem (memmove dst src n mem)
unfolding memmove
memmove-IsMoved dst src n mem = elim (Bool-cases (n == 0)) [
  | inl nothing ↦ rw nothing (record {
    inside = λ k lt. absurd (omega (arith, (==_iff n 0).0 nothing));
    outside = λ a far. refl;
  })
  | inr some_bytes ↦ elim (Bool-cases (ltb src dst && ltb dst (src + n))) [
    | inl behind ↦
        let low : src ≤ dst = ground arith in
        rw (some_bytes, behind)
          (record {
            inside = λ k lt. down_inside n dst src mem k low lt;
            outside = λ a far. down_outside n dst src mem a far;
          })
    | inr ahead ↦
        let apart : (dst ≤ src) ⊎ (src + n ≤ dst) = elim (Bool-cases (leb dst src)) [
          | inl low ↦ inl (ground arith)
          | inr high ↦ inr (ground arith)
        ] in
        rw (some_bytes, ahead)
          (record {
            inside = λ k lt. up_inside n dst src mem k apart lt;
            outside = λ a far. up_outside n dst src mem a far;
          })
  ]
]

set_outside :
    (dst c n i : ℕ) (mem : ℕ → ℕ) (a : ℕ)
    → (a < dst + i) ⊎ (dst + i + n ≤ a)
    → set_loop dst c n i mem a ≡ mem a
unfolding set_loop
set_outside dst c zero i mem a h = refl
set_outside dst c (suc n) i mem a h =
    set_outside dst c n (i + 1) (update mem (dst + i) (c % 256)) a
      (elim h [ inl low ↦ inl (omega arith) | inr high ↦ inr (omega arith) ])
    ∙ update_ne mem (dst + i) a (c % 256)
        (elim h [ inl low ↦ omega arith | inr high ↦ omega arith ])

set_inside :
    (dst c n i : ℕ) (mem : ℕ → ℕ) (k : ℕ) → k < n → set_loop dst c n i mem (dst + i + k) ≡ c % 256
unfolding set_loop
set_inside dst c zero i mem k lt = absurd (omega arith)
set_inside dst c (suc n) i mem zero lt =
    let mem' : ℕ → ℕ = update mem (dst + i) (c % 256) in
    set_outside dst c n (i + 1) mem' (dst + i + 0) (inl (omega arith))
    ∙ ap mem' {x = dst + i + 0} {y = dst + i} (omega arith)
    ∙ update_self mem (dst + i) (c % 256)
set_inside dst c (suc n) i mem (suc k) lt =
    let mem' : ℕ → ℕ = update mem (dst + i) (c % 256) in
    ap (set_loop dst c n (i + 1) mem') {x = dst + i + suc k} {y = dst + (i + 1) + k} (omega arith)
    ∙ set_inside dst c n (i + 1) mem' k (omega arith)

-- `memset` stores the low byte of `c` in each byte of the area and changes no other byte.
pub memset_lem :
    (dst c n : ℕ) (mem : ℕ → ℕ) (a : ℕ)
    → memset dst c n mem a ≡ (if leb dst a && ltb a (dst + n) then c % 256 else mem a)
unfolding memset
memset_lem dst c n mem a = elim (Bool-cases (leb dst a && ltb a (dst + n))) [
  | inl within ↦
      let low : dst ≤ a = ground arith in
      let high : a < dst + n = ground arith in
      rw within (
        ap (set_loop dst c n 0 mem) {x = a} {y = dst + 0 + (a - dst)} (omega arith)
        ∙ set_inside dst c n 0 mem (a - dst) (omega arith))
  | inr off ↦
      let apart : (a < dst + 0) ⊎ (dst + 0 + n ≤ a) = elim (Bool-cases (leb dst a)) [
        | inl low ↦ inr (ground arith)
        | inr high ↦ inl (ground arith)
      ] in
      rw off (set_outside dst c n 0 mem a apart)
]
