-- ===== src/Cache/Lookup.antt =====
-- `bget` of kernel/bio.c: one buffer for a block, and the least recently used one for a new block.
use xv6_riscv_cs.Base.{
  Bool, Bool-cases, List, Option, [], ap, ap₂, arith, false, if◌then◌else◌, inl, inr, length, none,
  refl, some, subst, sym, true, update, update_self, update_twice, ℕ, ◌++◌, ◌+◌, ◌==◌, ◌∙◌, ◌∷◌,
  ◌≡◌, ◌≢◌, ◌⊎◌,
}
use xv6_riscv_cs.Cache.{
  got, Cache, find_unused_buf, Buf, Got, inc, lock_buf, set_buf, sleeps, bget, nbuf, bget_entry,
  no_buffers, with_lock,
}
use xv6_riscv_cs.Cache.Ring.{IsRing}
use xv6_riscv_cs.Locks.{Sleeplock, acquiresleep}
use xv6_riscv_cs.Cache.Search.{
  IsIn, IsMatch, find_cached-first, find_unused_buf-last, first_with, first_with-IsMatch, holds,
  last_with, last_with_lem, or_else, is_idle,
}

-- No block of a device other than 0 has two buffers. Buffers that were never used have device 0.
abbrev pub IsSingle : (ℕ → Buf) → List ℕ → Type 0
IsSingle buf xs =
    (i j : ℕ)
    → IsIn i xs
    → IsIn j xs
    → (buf i).dev ≢ 0
    → (buf j).dev ≡ (buf i).dev
    → (buf j).blockno ≡ (buf i).blockno
    → i ≡ j

-- A new value of one buffer keeps this if no other buffer holds its block.
IsSingle-update :
    (buf : ℕ → Buf) (xs : List ℕ) (b : ℕ) (v : Buf)
    → IsSingle buf xs
    → ((j : ℕ)
        → IsIn j xs
        → b ≢ j
        → (buf j).dev ≡ v.dev
        → (buf j).blockno ≡ v.blockno
        → v.dev ≢ 0
        → ⊥)
    → IsSingle (update buf b v) xs
IsSingle-update buf xs b v single alone i j mi mj pos same_dev same_block =
    elim (Bool-cases (b == i)) [
      | inl at_i ↦ elim (Bool-cases (b == j)) [
        | inl at_j ↦ ground arith
        | inr off_j ↦
            let pos' : v.dev ≢ 0 = rw at_i at pos in
            let d : (buf j).dev ≡ v.dev = rw (at_i, off_j) at same_dev in
            let n : (buf j).blockno ≡ v.blockno = rw (at_i, off_j) at same_block in
            absurd (alone j mj (ground arith) d n pos')
      ]
      | inr off_i ↦ elim (Bool-cases (b == j)) [
        | inl at_j ↦
            let pos' : (buf i).dev ≢ 0 = rw off_i at pos in
            let d : v.dev ≡ (buf i).dev = rw (at_j, off_i) at same_dev in
            let n : v.blockno ≡ (buf i).blockno = rw (at_j, off_i) at same_block in
            absurd (alone i mi (ground arith) (sym d) (sym n) (λ z. pos' (sym d ∙ z)))
        | inr off_j ↦
            let pos' : (buf i).dev ≢ 0 = rw off_i at pos in
            let d : (buf j).dev ≡ (buf i).dev = rw (off_i, off_j) at same_dev in
            let n : (buf j).blockno ≡ (buf i).blockno = rw (off_i, off_j) at same_block in
            single i j mi mj pos' d n
      ]
    ]

-- What `bget` makes of the buffer `b`: one reference more for a buffer of the block, or else, if
-- there is none, a new use of the last buffer of the list that is free.
abbrev pub IsUse : Cache → List ℕ → ℕ → ℕ → ℕ → Buf → Type 0
IsUse c xs dev blockno b v =
    (v.dev ≡ dev)
    × (v.blockno ≡ blockno)
    × (((holds c dev blockno b ≡ true)
          × (v.refcnt ≡ inc (c.buf b).refcnt)
          × (v.valid ≡ (c.buf b).valid)
          × (v.contents ≡ (c.buf b).contents))
        ⊎ (((x : ℕ) → IsIn x xs → holds c dev blockno x ≡ false)
            × (v.refcnt ≡ 1)
            × (v.valid ≡ 0)
            × (is_idle c b ≡ true)
            × ((us : List ℕ) × (vs : List ℕ) × (xs ≡ us ++ (b ∷ vs))
                × ((y : ℕ) → IsIn y vs → is_idle c y ≡ false))))

abbrev pub IsBufferOf : Cache → List ℕ → ℕ → ℕ → ℕ → Cache → Type 0
IsBufferOf c xs dev blockno b c' =
    IsIn b xs
    × IsSingle c'.buf xs
    × (c' ≡ set_buf b (c'.buf b) c)
    × IsUse c xs dev blockno b (c'.buf b)

abbrev pub IsBuffered : Cache → List ℕ → ℕ → ℕ → ℕ → Got → Type 0
IsBuffered c xs pid dev blockno no_buffers =
    (x : ℕ) → IsIn x xs → (holds c dev blockno x ≡ false) × (is_idle c x ≡ false)
IsBuffered c xs pid dev blockno (sleeps b c') = IsBufferOf c xs dev blockno b c'
IsBuffered c xs pid dev blockno (got b c') =
    IsBufferOf c xs dev blockno b c' × ((c'.buf b).lock ≡ record { locked = 1; pid = pid })

set_buf-IsBufferOf :
    (c : Cache) (xs : List ℕ) (dev blockno b : ℕ) (v : Buf)
    → IsIn b xs
    → IsSingle (update c.buf b v) xs
    → IsUse c xs dev blockno b v
    → IsBufferOf c xs dev blockno b (set_buf b v c)
set_buf-IsBufferOf c xs dev blockno b v m single u =
    let self = update_self c.buf b v in
    (m, single, ap (λ w. set_buf b w c) (sym self), subst (IsUse c xs dev blockno b) (sym self) u)

got-IsBuffered :
    (c : Cache) (xs : List ℕ) (pid dev blockno b : ℕ) (v : Buf)
    → IsIn b xs
    → ((l : Sleeplock) → IsSingle (update c.buf b (record v { lock = l })) xs)
    → IsUse c xs dev blockno b v
    → IsBuffered c xs pid dev blockno (
        got b (
          set_buf b
            (record (update c.buf b v b) { lock = record { locked = 1; pid = pid } })
            (set_buf b v c)))
got-IsBuffered c xs pid dev blockno b v m single u =
    let l : Sleeplock = record { locked = 1; pid = pid } in
    let state : set_buf b (record (update c.buf b v b) { lock = l }) (set_buf b v c)
        ≡ set_buf b (record v { lock = l }) c =
      ap (λ (w : Buf). set_buf b (record w { lock = l }) (set_buf b v c)) (update_self c.buf b v)
      ∙ ap (λ (t : ℕ → Buf). record c { buf = t })
          (update_twice c.buf b v (record v { lock = l })) in
    subst (λ c'. IsBuffered c xs pid dev blockno (got b c')) (sym state)
      (
        set_buf-IsBufferOf c xs dev blockno b (record v { lock = l }) m (single l) u,
        ap (λ (w : Buf). w.lock) (update_self c.buf b (record v { lock = l })),
      )

lock_buf-IsBuffered :
    (c : Cache) (xs : List ℕ) (pid dev blockno b : ℕ) (v : Buf)
    → IsIn b xs
    → ((l : Sleeplock) → IsSingle (update c.buf b (record v { lock = l })) xs)
    → IsUse c xs dev blockno b v
    → IsBuffered c xs pid dev blockno (lock_buf pid b (set_buf b v c))
unfolding lock_buf acquiresleep
lock_buf-IsBuffered c xs pid dev blockno b v m single u =
    let c1 = set_buf b v c in
    let old = (c1.buf b).lock in
    let l : Sleeplock = record { locked = 1; pid = pid } in
    let result = λ (o : Option Sleeplock). IsBuffered c xs pid dev blockno (with_lock b c1 o) in
    elim (Bool-cases (old.locked == 0)) [
      | inl free ↦
          subst result (sym (ap (λ (t : Bool). if t then some l else none) free))
            (got-IsBuffered c xs pid dev blockno b v m single u)
      | inr taken ↦
          subst result (sym (ap (λ (t : Bool). if t then some l else none) taken))
            (set_buf-IsBufferOf c xs dev blockno b v m (single v.lock) u)
    ]

holds-true :
    (c : Cache) (dev blockno b : ℕ)
    → holds c dev blockno b ≡ true
    → ((c.buf b).dev ≡ dev) × ((c.buf b).blockno ≡ blockno)
holds-true c dev blockno b h = (ground arith, ground arith)

holds-false :
    (c : Cache) (dev blockno b : ℕ)
    → holds c dev blockno b ≡ false
    → (c.buf b).dev ≡ dev
    → (c.buf b).blockno ≡ blockno
    → ⊥
holds-false c dev blockno b h e e' = ground arith

append-IsIn : (us : List ℕ) (b : ℕ) (vs : List ℕ) → IsIn b (us ++ (b ∷ vs))
append-IsIn [] b vs = inl refl
append-IsIn (u ∷ us) b vs = inr (append-IsIn us b vs)

abbrev IsLast : (ℕ → Bool) → List ℕ → ℕ → Type 0
IsLast p xs r =
    ((r ≡ 0) × ((x : ℕ) → IsIn x xs → p x ≡ false))
    ⊎ ((r ≢ 0)
        × (p r ≡ true)
        × ((us : List ℕ) × (vs : List ℕ) × (xs ≡ us ++ (r ∷ vs))
            × ((y : ℕ) → IsIn y vs → p y ≡ false)))

module _ (c : Cache) (xs : List ℕ) (pid dev blockno : ℕ) where
  bget_entry-cached :
      (b free : ℕ)
      → IsSingle c.buf xs
      → dev ≢ 0
      → b ≢ 0
      → IsIn b xs
      → holds c dev blockno b ≡ true
      → IsBuffered c xs pid dev blockno (bget_entry b free pid dev blockno c)
  unfolding bget_entry
  bget_entry-cached b free single pos ne m h =
      let found : (b == 0) ≡ false = ground arith in
      let (e, e') = holds-true c dev blockno b h in
      let v : Buf = record (c.buf b) { refcnt = inc (c.buf b).refcnt } in
      rw found (
        lock_buf-IsBuffered c xs pid dev blockno b v m
          (λ l.
            IsSingle-update c.buf xs b (record v { lock = l }) single
              (λ j mj off d n some_dev. off (single b j m mj some_dev d n)))
          (e, e', inl (h, refl, refl, refl)))

  bget_entry-new :
      (b : ℕ)
      → IsSingle c.buf xs
      → ((x : ℕ) → IsIn x xs → holds c dev blockno x ≡ false)
      → IsLast (is_idle c) xs b
      → IsBuffered c xs pid dev blockno (bget_entry 0 b pid dev blockno c)
  unfolding bget_entry
  bget_entry-new b single missing (inl (e, busy)) = rw e (λ x m. (missing x m, busy x m))
  bget_entry-new b single missing (inr (ne, free, (us, vs, split, busy))) =
      let found : (b == 0) ≡ false = ground arith in
      let v : Buf = record (c.buf b) { dev = dev; blockno = blockno; valid = 0; refcnt = 1 } in
      rw found (
        lock_buf-IsBuffered c xs pid dev blockno b v
          (subst (IsIn b) (sym split) (append-IsIn us b vs))
          (λ l.
            IsSingle-update c.buf xs b (record v { lock = l }) single
              (λ j mj off d n some_dev. holds-false c dev blockno j (missing j mj) d n))
          (refl, refl, inr (missing, refl, refl, free, (us, vs, split, busy))))

  bget_entry-IsBuffered :
      (b free : ℕ)
      → IsSingle c.buf xs
      → dev ≢ 0
      → IsMatch (holds c dev blockno) xs b
      → IsLast (is_idle c) xs free
      → IsBuffered c xs pid dev blockno (bget_entry b free pid dev blockno c)
  bget_entry-IsBuffered b free single pos (inr (ne, m, h)) last =
      bget_entry-cached b free single pos ne m h
  bget_entry-IsBuffered b free single pos (inl (e, missing)) last =
      subst (λ r. IsBuffered c xs pid dev blockno (bget_entry r free pid dev blockno c)) (sym e)
        (bget_entry-new free single missing last)

no_more : (a : ℕ) (c : Cache) → or_else a (find_unused_buf 1 0 c) ≡ a
unfolding find_unused_buf
no_more a c = ground arith

ap_entry :
    (c : Cache) (xs : List ℕ) (pid dev blockno : ℕ) {b b' free free' : ℕ}
    → b ≡ b'
    → free ≡ free'
    → IsBuffered c xs pid dev blockno (bget_entry b' free' pid dev blockno c)
    → IsBuffered c xs pid dev blockno (bget_entry b free pid dev blockno c)
ap_entry c xs pid dev blockno e e' h =
    subst (λ r. r)
      (ap₂ (λ x y. IsBuffered c xs pid dev blockno (bget_entry x y pid dev blockno c)) (sym e)
        (sym e'))
      h

-- If no block has two buffers, `bget` returns a buffer of the list with the block asked for, locked
-- by the caller unless it first sleeps on this lock, and still no block has two. The buffer that
-- held the block gets one reference more and keeps its contents. If there was none, it is the
-- least recently used one of the buffers without references, and is not valid. The links and the
-- other buffers stay. The call panics only when no buffer holds the block and all are in use.
pub bget-IsBuffered :
    (pid dev blockno : ℕ) (c : Cache) (xs : List ℕ)
    → IsRing c xs
    → length xs ≡ nbuf
    → IsSingle c.buf xs
    → dev ≢ 0
    → IsBuffered c xs pid dev blockno (bget pid dev blockno c)
unfolding bget
bget-IsBuffered pid dev blockno c xs (l, (fresh, d)) size single pos =
    let cached = find_cached-first (nbuf + 1) 0 xs dev blockno c l fresh (omega (arith, size)) in
    let rounds : nbuf + 1 ≡ length xs + 1 = omega (arith, size) in
    let recycled : find_unused_buf (nbuf + 1) (c.prev 0) c ≡ last_with (is_idle c) xs =
      ap (λ n. find_unused_buf n (c.prev 0) c) rounds
      ∙ find_unused_buf-last 1 0 xs 0 c l fresh
      ∙ no_more (last_with (is_idle c) xs) c in
    ap_entry c xs pid dev blockno cached recycled (
      bget_entry-IsBuffered c xs pid dev blockno (first_with (holds c dev blockno) xs)
        (last_with (is_idle c) xs) single pos (first_with-IsMatch (holds c dev blockno) xs fresh)
        (last_with_lem (is_idle c) xs fresh))
