-- ===== src/Fs/Blocks/Bitmap.antt =====
-- `balloc` of kernel/fs.c takes the first free block.
use xv6_riscv_cs.Base.{
  ==_iff, Bool-cases, Option, ap, ap₂, arith, bit, bit-bit_or_ne, bit-bit_or_self, bit-le, bit_and,
  bit_and-pow, bit_or, false, false≢true, inl, inr, ltb, none, refl, some, subst, suc, sym, update,
  update_self, zero, ℕ, ◌%◌, ◌*◌, ◌+◌, ◌-◌, ◌/◌, ◌<◌, ◌==◌, ◌∙◌, ◌∷◌, ◌≡◌, ◌≢◌, ◌≤◌, ◌⊎◌,
}
use xv6_riscv_cs.Fs.{Disk, bpb}
use xv6_riscv_cs.Fs.Blocks.{
  bit_mask, clear_bit, set_bit, balloc_loop, bits_from, bzero, take_bit, balloc,
}

-- Bit `bi` of a map block.
abbrev pub mark : (ℕ → ℕ) → ℕ → ℕ
mark bytes bi = bit (bi % 8) (bytes (bi / 8))

-- The map block of a block, and its mark there: 1 is in use.
abbrev pub map_of : Disk → ℕ → ℕ
map_of d b = b / bpb + d.sb.bmapstart

abbrev pub in_use : Disk → ℕ → ℕ
in_use d b = mark (d.block (map_of d b)) (b % bpb)

mark-set :
    (bytes : ℕ → ℕ) (bi : ℕ)
    → (bit_and (bytes (bi / 8)) (bit_mask bi) == 0) ≡ false
    → mark bytes bi ≡ 1
mark-set bytes bi e =
    let clear = bit_and-pow (bi % 8) (bytes (bi / 8)) in
    elim (Bool-cases (mark bytes bi == 0)) [
      | inl zero_bit ↦
          absurd (false≢true (sym e ∙ (==_iff _ 0).1 (clear.1 ((==_iff _ 0).0 zero_bit))))
      | inr one_bit ↦
          let ne : mark bytes bi ≢ 0 = λ z. false≢true (sym one_bit ∙ (==_iff _ 0).1 z) in
          omega (arith, bit-le (bi % 8) (bytes (bi / 8)), ne)
    ]

from_next :
    (bytes : ℕ → ℕ) (bi m : ℕ)
    → mark bytes bi ≡ 1
    → ((j : ℕ) → bi + 1 ≤ j → j < m → mark bytes j ≡ 1)
    → (j : ℕ) → bi ≤ j
    → j < m
    → mark bytes j ≡ 1
from_next bytes bi m here rest j a b = elim (Bool-cases (bi == j)) [
  | inl same ↦ let e : j ≡ bi = sym ((==_iff bi j).0 same) in ap (mark bytes) e ∙ here
  | inr later ↦ rest j (ground arith) b
]

-- The inner loop gives the first clear bit, or none if all are set.
clear_bit_lem :
    (n bi : ℕ) (bytes : ℕ → ℕ)
    → ((clear_bit n bi bytes ≡ none) × ((j : ℕ) → bi ≤ j → j < bi + n → mark bytes j ≡ 1))
      ⊎ ((r : ℕ) × (clear_bit n bi bytes ≡ some r)
          × (bi ≤ r)
          × (r < bi + n)
          × (mark bytes r ≡ 0)
          × ((j : ℕ) → bi ≤ j → j < r → mark bytes j ≡ 1))
unfolding clear_bit
clear_bit_lem zero bi bytes = inl (refl, λ j a b. absurd (omega arith))
clear_bit_lem (suc n) bi bytes = elim (Bool-cases (bit_and (bytes (bi / 8)) (bit_mask bi) == 0)) [
  | inl clear ↦ rw clear (
      inr (
        bi,
        refl,
        omega arith,
        omega arith,
        (bit_and-pow (bi % 8) (bytes (bi / 8))).0 ((==_iff _ 0).0 clear),
        λ j a b. absurd (omega arith),
      ))
  | inr taken ↦
      let here = mark-set bytes bi taken in
      rw taken (elim (clear_bit_lem n (bi + 1) bytes) [
        | inl all ↦
            inl (all.0, λ j a b. from_next bytes bi (bi + 1 + n) here all.1 j a (omega arith))
        | inr (r, e, lo, hi, clear, before) ↦
            inr (r, e, omega arith, omega arith, clear, from_next bytes bi r here before)
      ])
]

mark-set_bit : (bytes : ℕ → ℕ) (bi : ℕ) → mark (set_bit bytes bi) bi ≡ 1
mark-set_bit bytes bi =
    ap (bit (bi % 8)) (update_self bytes (bi / 8) (bit_or (bytes (bi / 8)) (bit_mask bi)))
    ∙ bit-bit_or_self (bi % 8) (bytes (bi / 8))

mark-set_bit_ne : (bytes : ℕ → ℕ) (bi j : ℕ) → j ≢ bi → mark (set_bit bytes bi) j ≡ mark bytes j
mark-set_bit_ne bytes bi j ne = elim (Bool-cases (bi / 8 == j / 8)) [
  | inl same ↦
      let e : bi / 8 ≡ j / 8 = (==_iff _ _).0 same in
      rw same (
        bit-bit_or_ne (j % 8) (bi % 8) (bytes (bi / 8)) (λ z. ne (omega (arith, z, e)))
        ∙ ap (λ x. bit (j % 8) (bytes x)) e)
  | inr other ↦ rw other refl
]

-- The state when block `b` is taken, which bit `bi` of block `m` stands for.
abbrev pub taken : Disk → ℕ → ℕ → ℕ → Disk
taken d b m bi = record d {
  block = update (update d.block m (set_bit (d.block m) bi)) b (λ i. 0);
  logged = b ∷ m ∷ d.logged;
}

abbrev pub IsFull : Disk → Type 0
IsFull d = (j : ℕ) → j < d.sb.size → in_use d j ≡ 1

-- What `balloc` gives for a disk that is not full.
abbrev pub IsTaken : Disk → ℕ → Disk → Type 0
IsTaken d b d' =
    (b < d.sb.size)
    × (in_use d b ≡ 0)
    × ((j : ℕ) → j < b → in_use d j ≡ 1)
    × (d' ≡ taken d b (map_of d b) (b % bpb))
    × (mark (set_bit (d.block (map_of d b)) (b % bpb)) (b % bpb) ≡ 1)
    × ((j : ℕ)
        → j ≢ b % bpb
        → mark (set_bit (d.block (map_of d b)) (b % bpb)) j ≡ mark (d.block (map_of d b)) j)

abbrev pub IsAllocated : Disk → Option (ℕ × Disk) → Type 0
IsAllocated d r =
    (b : ℕ) × (d' : Disk) × (r ≡ some (b, d')) × ((IsFull d × (b ≡ 0) × (d' ≡ d)) ⊎ IsTaken d b d')

-- The marks of the blocks of one map block.
in_use_at :
    (d : Disk) (q j : ℕ)
    → q * bpb ≤ j
    → j < q * bpb + bpb
    → in_use d j ≡ mark (d.block (map_of d (q * bpb))) (j - q * bpb)
in_use_at d q j lo hi =
    let e : j / bpb ≡ q * bpb / bpb = omega arith in
    let e' : j % bpb ≡ j - q * bpb = omega arith in
    ap₂ (λ x y. mark (d.block (x + d.sb.bmapstart)) y) e e'

found-IsTaken :
    (d : Disk) (q r : ℕ)
    → ((j : ℕ) → j < q * bpb → in_use d j ≡ 1)
    → q * bpb + r < d.sb.size
    → r < bpb
    → mark (d.block (map_of d (q * bpb))) r ≡ 0
    → ((j : ℕ) → 0 ≤ j → j < r → mark (d.block (map_of d (q * bpb))) j ≡ 1)
    → IsTaken d (q * bpb + r) (taken d (q * bpb + r) (map_of d (q * bpb)) r)
found-IsTaken d q r below inside small clear before =
    let b = q * bpb + r in
    let at = in_use_at d q b (omega arith) (omega arith) in
    let place : b - q * bpb ≡ r = omega arith in
    let quotient : q * bpb / bpb ≡ b / bpb = omega arith in
    let rest : r ≡ b % bpb = omega arith in
    (
      inside,
      at ∙ ap (mark (d.block (map_of d (q * bpb)))) place ∙ clear,
      λ j lt. elim (Bool-cases (ltb j (q * bpb))) [
        | inl earlier ↦ below j (ground arith)
        | inr here ↦
            in_use_at d q j (ground arith) (omega arith)
            ∙ before (j - q * bpb) (omega arith) (ground arith)
      ],
      ap₂ (λ x y. taken d b (x + d.sb.bmapstart) y) quotient rest,
      mark-set_bit (d.block (map_of d b)) (b % bpb),
      λ j ne. mark-set_bit_ne (d.block (map_of d b)) (b % bpb) j ne,
    )

bits_from-inside : (size b r : ℕ) → r < bits_from size b → b + r < size
bits_from-inside size b r h = ground arith

bits_from-small : (size b r : ℕ) → r < bits_from size b → r < bpb
bits_from-small size b r h = ground arith

bits_from-covers : (size b j : ℕ) → j < bpb → b + j < size → j < bits_from size b
bits_from-covers size b j lt h = ground arith

-- After a map block without a clear bit.
used_next :
    (d : Disk) (q : ℕ)
    → ((j : ℕ) → j < q * bpb → j < d.sb.size → in_use d j ≡ 1)
    → ((j : ℕ)
        → 0 ≤ j
        → j < 0 + bits_from d.sb.size (q * bpb)
        → mark (d.block (map_of d (q * bpb))) j ≡ 1)
    → (j : ℕ) → j < (q + 1) * bpb
    → j < d.sb.size
    → in_use d j ≡ 1
used_next d q below all j lt inside = elim (Bool-cases (ltb j (q * bpb))) [
  | inl earlier ↦ below j (ground arith) inside
  | inr here ↦
      let lo : q * bpb ≤ j = ground arith in
      let covered =
        bits_from-covers d.sb.size (q * bpb) (j - q * bpb) (omega arith) (omega arith) in
      in_use_at d q j lo (omega arith) ∙ all (j - q * bpb) (omega arith) (omega (arith, covered))
]

-- The outer loop from the map block of block `q * bpb` on.
balloc_loop_lem :
    (n q : ℕ) (d : Disk)
    → ((j : ℕ) → j < q * bpb → j < d.sb.size → in_use d j ≡ 1)
    → d.sb.size ≤ (q + n) * bpb
    → IsAllocated d (balloc_loop n (q * bpb) d)
unfolding balloc_loop take_bit bzero
balloc_loop_lem zero q d below bound =
    (0, d, refl, inl (λ j lt. below j (omega (arith, bound)) lt, refl, refl))
balloc_loop_lem (suc n) q d below bound =
    let m = map_of d (q * bpb) in
    let next_block : (q + 1) * bpb ≡ q * bpb + bpb = omega arith in
    let next = balloc_loop n (q * bpb + bpb) in
    let round = λ (o : Option ℕ). IsAllocated d (take_bit (q * bpb) m o next d) in
    let inside = λ (r : ℕ) (hi : r < 0 + bits_from d.sb.size (q * bpb)).
      bits_from-inside d.sb.size (q * bpb) r (omega (arith, hi)) in
    elim (clear_bit_lem (bits_from d.sb.size (q * bpb)) 0 (d.block m)) [
      | inr (r, e, lo, hi, clear, before) ↦ subst round (sym e) (
        q * bpb + r,
        taken d (q * bpb + r) m r,
        refl,
        inr (
            found-IsTaken d q r (λ j lt. below j lt (omega (arith, inside r hi))) (inside r hi)
              (bits_from-small d.sb.size (q * bpb) r (omega (arith, hi))) clear before),
      )
      | inl all ↦ subst round (sym all.0) (
          subst (λ b. IsAllocated d (balloc_loop n b d)) next_block
            (balloc_loop_lem n (q + 1) d (used_next d q below all.1) (omega (arith, bound))))
    ]

-- `balloc` always returns. On a disk with all blocks in use it returns 0 and changes nothing.
-- Otherwise it returns the first block that is not in use, sets its bit in the map and no other
-- one, fills it with zeros after that, and logs the map block before it.
pub balloc-IsAllocated : (d : Disk) → IsAllocated d (balloc d)
unfolding balloc
balloc-IsAllocated d =
    balloc_loop_lem ((d.sb.size + bpb - 1) / bpb) 0 d (λ j lt. absurd (omega arith)) (omega arith)
