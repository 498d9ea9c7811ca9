-- ===== src/Cache/Release.antt =====
-- `binit` and `brelse` of kernel/bio.c on the list of buffers.
use xv6_riscv_cs.Base.{
  ==_iff, Bool-cases, List, Option, [], ap, arith, false≢true, inl, inr, refl, some, subst, suc,
  sym, true, update, update_self, update_twice, zero, ℕ, ◌++◌, ◌+◌, ◌-◌, ◌<◌, ◌==◌, ◌^◌, ◌∙◌, ◌∷◌,
  ◌≡◌, ◌≢◌, ◌≤◌, ◌⊎◌,
}
use xv6_riscv_cs.Locks.{releasesleep, holdingsleep, initsleeplock}
use xv6_riscv_cs.Cache.{
  Cache, Buf, brelse, drop_buf, link_front, move_free, set_buf, unlink, dec, binit, init_loop, nbuf,
  set_next, set_prev,
}
use xv6_riscv_cs.Cache.Ring.{IsRing, link_front-IsRing, unlink-IsRing, NotIn}

-- What a call of `brelse` for `b` gives, if the list is `us`, `b`, `vs`.
abbrev pub IsReleased : Cache → List ℕ → ℕ → List ℕ → Option Cache → Type 0
IsReleased c us b vs r =
    (c' : Cache) × (r ≡ some c')
    × (c'.buf
        ≡ update c.buf b (record (c.buf b) {
          lock = releasesleep (c.buf b).lock;
          refcnt = (c.buf b).refcnt - 1;
        }))
    × (c'.disk ≡ c.disk)
    × ((((c.buf b).refcnt ≡ 1) × IsRing c' (b ∷ (us ++ vs)))
        ⊎ ((1 < (c.buf b).refcnt) × IsRing c' (us ++ (b ∷ vs))))

dec_pos : (n : ℕ) → 0 < n → n < 2 ^ 32 → dec n ≡ n - 1
dec_pos n h lt = omega arith

abbrev released_buf : Buf → Buf
released_buf v = record v { lock = releasesleep v.lock; refcnt = v.refcnt - 1 }

move_free-IsReleased :
    (c : Cache) (us : List ℕ) (b : ℕ) (vs : List ℕ)
    → IsRing c (us ++ (b ∷ vs))
    → 0 < (c.buf b).refcnt
    → IsReleased c us b vs (some (move_free b (set_buf b (released_buf (c.buf b)) c)))
unfolding move_free
move_free-IsReleased c us b vs ring pos =
    let d = set_buf b (released_buf (c.buf b)) c in
    let count : (d.buf b).refcnt ≡ (c.buf b).refcnt - 1 =
      ap (λ (v : Buf). v.refcnt) (update_self c.buf b (released_buf (c.buf b))) in
    elim (Bool-cases ((d.buf b).refcnt == 0)) [
      | inl free ↦
          let (cut, out) = unlink-IsRing d us b vs ring in
          rw free (
            link_front b (unlink b d),
            refl,
            unfold link_front unlink in refl,
            unfold link_front unlink in refl,
            inl (
              omega (arith, count, (==_iff _ _).0 free),
              link_front-IsRing (unlink b d) b (us ++ vs) cut out,
            ),
          )
      | inr waited ↦
          let ne : (d.buf b).refcnt ≢ 0 = λ z. false≢true (sym waited ∙ (==_iff _ 0).1 z) in
          rw waited (d, refl, refl, refl, inr (omega (arith, count, ne), ring))
    ]

-- `brelse` of a buffer in the list by the holder of its lock does not panic. It gives the lock and
-- one reference back, and moves the buffer to the front of the list if that was the last one; the
-- order of the other buffers stays, and so do all links back.
pub brelse-IsReleased :
    (pid : ℕ) (c : Cache) (us : List ℕ) (b : ℕ) (vs : List ℕ)
    → holdingsleep pid (c.buf b).lock ≡ true
    → IsRing c (us ++ (b ∷ vs))
    → 0 < (c.buf b).refcnt
    → (c.buf b).refcnt < 2 ^ 32
    → IsReleased c us b vs (brelse pid b c)
unfolding brelse drop_buf
brelse-IsReleased pid c us b vs held ring pos lt =
    let v1 : Buf = record (c.buf b) { lock = releasesleep (c.buf b).lock } in
    let self = update_self c.buf b v1 in
    let state : set_buf b
          (record (update c.buf b v1 b) { refcnt = dec (update c.buf b v1 b).refcnt })
          (set_buf b v1 c)
        ≡ set_buf b (released_buf (c.buf b)) c =
      ap (λ (v : Buf). set_buf b (record v { refcnt = dec v.refcnt }) (set_buf b v1 c)) self
      ∙ ap (λ (t : ℕ → Buf). record c { buf = t })
          (update_twice c.buf b v1 (record v1 { refcnt = dec v1.refcnt })
            ∙ ap (λ n. update c.buf b (record v1 { refcnt = n })) (dec_pos v1.refcnt pos lt)) in
    rw held (
      subst (λ d. IsReleased c us b vs (some (move_free b d))) (sym state)
        (move_free-IsReleased c us b vs ring pos))

-- `n` buffers from `b` on, each put in front.
abbrev pub added : ℕ → ℕ → List ℕ → List ℕ
added zero b xs = xs
added (suc n) b xs = added n (b + 1) (b ∷ xs)

init_loop-IsRing :
    (n b : ℕ) (c : Cache) (xs : List ℕ)
    → IsRing c xs
    → 0 < b
    → ((j : ℕ) → b ≤ j → NotIn j xs)
    → IsRing (init_loop n b c) (added n b xs)
unfolding init_loop
init_loop-IsRing zero b c xs ring pos out = ring
init_loop-IsRing (suc n) b c xs ring pos out =
    let c1 = set_buf b (record (c.buf b) { lock = initsleeplock }) c in
    init_loop-IsRing n (b + 1) (link_front b c1) (b ∷ xs)
      (link_front-IsRing c1 b xs ring ((λ z. omega (arith, z)), out b (omega arith))) (omega arith)
      (λ j le. ((λ z. omega (arith, z)), out j (omega arith)))

-- After `binit` the list has all buffers, the last one of the array first.
pub binit-IsRing : (c : Cache) → IsRing (binit c) (added nbuf 1 [])
unfolding binit
binit-IsRing c =
    init_loop-IsRing nbuf 1 (set_next 0 0 (set_prev 0 0 c)) []
      ((update_self c.next 0 0, update_self c.prev 0 0), (tt, tt)) (omega arith) (λ j le. tt)
