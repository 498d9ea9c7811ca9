-- ===== src/Vm/Table/Map.antt =====
-- `mappages` of kernel/vm.c against the address spaces, on a free list that has enough pages.
use xv6_riscv_cs.Base.{
  ==_iff, Bool-cases, ap, arith, bit_or, false, false≢true, if◌then◌else◌, inl, inr, leb, ltb, refl,
  some, suc, sym, true, zero, ℕ, ◌%◌, ◌&&◌, ◌*◌, ◌+◌, ◌-◌, ◌/◌, ◌<◌, ◌==◌, ◌∙◌, ◌≡◌, ◌≢◌, ◌≤◌,
}
use xv6_riscv_cs.Vm.Frames.Freelist.{FreePages}
use xv6_riscv_cs.Vm.Table.Shape.{IsForest, IsRoot, Layout, space}
use xv6_riscv_cs.Vm.Machine.{Machine, bind_lem, give}
use xv6_riscv_cs.Vm.Table.{maxva, walk, has_flag, map_loop, pa2pte, pte_v, mappages}
use xv6_riscv_cs.Vm.Frames.{kalloc}
use xv6_riscv_cs.Vm.Table.Store.{IsRemapped, only_page, stored, walk_store}

-- What `mappages` makes of an entry: pages from `va` on, `n` of them, map to pages from `pa` on.
abbrev pub mapped_entry : ℕ → ℕ → ℕ
mapped_entry pa perm = bit_or (bit_or (pa2pte pa) perm) pte_v

abbrev pub mapped_range : ℕ → ℕ → ℕ → ℕ → ℕ → ℕ → ℕ
mapped_range n a pa perm va old =
    if leb a va && ltb va (a + n * 4096)
    then mapped_entry (pa + (va / 4096 * 4096 - a)) perm
    else old

-- One page and the pages behind it make up the range.
range_step :
    (n a pa perm va old : ℕ)
    → a % 4096 ≡ 0
    → mapped_range n (a + 4096) (pa + 4096) perm va (only_page a (mapped_entry pa perm) va old)
      ≡ mapped_range (suc n) a pa perm va old
range_step n a pa perm va old h =
    elim (Bool-cases (leb (a + 4096) va && ltb va (a + 4096 + n * 4096))) [
      | inl later ↦
          let within : (leb a va && ltb va (a + suc n * 4096)) ≡ true = ground arith in
          let from_a : a + 4096 ≤ va = ground arith in
          let place : pa + 4096 + (va / 4096 * 4096 - (a + 4096)) ≡ pa + (va / 4096 * 4096 - a) =
            omega arith in
          rw (later, within, place) refl
      | inr not_later ↦ elim (Bool-cases (a / 4096 == va / 4096)) [
        | inl first ↦
            let page : a / 4096 ≡ va / 4096 = (==_iff _ _).0 first in
            let low : a ≤ va = omega arith in
            let high : va < a + suc n * 4096 = omega arith in
            let within : (leb a va && ltb va (a + suc n * 4096)) ≡ true = ground arith in
            let place : pa + (va / 4096 * 4096 - a) ≡ pa = omega arith in
            rw (not_later, first, within, place) refl
        | inr no_page_of_it ↦
            let other : a / 4096 ≢ va / 4096 =
              λ e. false≢true (sym no_page_of_it ∙ (==_iff (a / 4096) (va / 4096)).1 e) in
            let outside : (leb a va && ltb va (a + suc n * 4096)) ≡ false = ground arith in
            rw (not_later, no_page_of_it, outside) refl
      ]
    ]

-- A range of one page.
no_more :
    (a pa perm va old : ℕ)
    → a % 4096 ≡ 0
    → only_page a (mapped_entry pa perm) va old ≡ mapped_range 1 a pa perm va old
no_more a pa perm va old h =
    let none_behind : (leb (a + 4096) va && ltb va (a + 4096 + 0 * 4096)) ≡ false = ground arith in
    sym (rw none_behind refl) ∙ range_step 0 a pa perm va old h

-- One round of the loop.
map_loop_step :
    (k root a last pa perm at_entry : ℕ) (m m' : Machine)
    → walk kalloc root a m ≡ some (at_entry, m')
    → at_entry ≢ 0
    → has_flag pte_v (m'.word at_entry) ≡ false
    → map_loop kalloc (suc k) root a last pa perm m
      ≡ (if a == last then give true else map_loop kalloc k root (a + 4096) last (pa + 4096) perm)
          (stored m' at_entry (mapped_entry pa perm))
unfolding map_loop
map_loop_step k root a last pa perm at_entry m m' run ne free =
    let there : (at_entry == 0) ≡ false = ground arith in
    bind_lem (walk kalloc root a) _ m run ∙ rw (there, free) refl

two_more : (n k : ℕ) → n + 2 * suc k ≡ n + 2 * k + 2
two_more n k = omega arith

-- The first page of a range.
map_first :
    (k n root a pa perm : ℕ) (m : Machine) (l : Layout)
    → IsForest m.word l
    → IsRoot l root
    → a < maxva
    → FreePages (n + 2 * suc k) m.word m.freelist l.is_table
    → has_flag pte_v (space m.word root a) ≡ false
    → (m' : Machine) × (l' : Layout) × ((last : ℕ)
        → map_loop kalloc (suc k) root a last pa perm m
          ≡ (if a == last
                then give true
                else map_loop kalloc k root (a + 4096) last (pa + 4096) perm)
              m')
      × IsRemapped (n + 2 * k) root (only_page a (mapped_entry pa perm)) m l m' l'
map_first k n root a pa perm m l f r low free unmapped =
    let (at_entry, m1, l1, run, ne, value, g) =
      walk_store (n + 2 * k) root a (mapped_entry pa perm) m l f r low
        (rw (two_more n k) at free) in
    (
      stored m1 at_entry (mapped_entry pa perm),
      l1,
      λ last.
          map_loop_step k root a last pa perm at_entry m m1 run ne
            (ap (has_flag pte_v) value ∙ unmapped),
      g,
    )

-- Two changes of one address space after one another.
IsRemapped-then :
    (n n' root : ℕ) (c c' c'' : ℕ → ℕ → ℕ) (m m' m'' : Machine) (l l' l'' : Layout)
    → IsRoot l root
    → ((va old : ℕ) → c' va (c va old) ≡ c'' va old)
    → IsRemapped n root c m l m' l'
    → IsRemapped n' root c' m' l' m'' l''
    → IsRemapped n' root c'' m l m'' l''
IsRemapped-then n n' root c c' c'' m m' m'' l l' l'' r both g h = record {
  forest = h.forest;
  roots = λ q e. h.roots q (g.roots q e);
  spaces = λ q va e small. h.spaces q va (g.roots q e) small ∙ elim (Bool-cases (root == q)) [
    | inl same ↦
        rw same (ap (c' va) (g.spaces q va e small ∙ rw same refl) ∙ both va (space m.word q va))
    | inr other ↦ rw other (g.spaces q va e small ∙ rw other refl)
  ];
  free = h.free;
}

map_loop-IsRemapped :
    (k n root a pa perm : ℕ) (m : Machine) (l : Layout)
    → IsForest m.word l
    → IsRoot l root
    → a % 4096 ≡ 0
    → a + suc k * 4096 ≤ maxva
    → FreePages (n + 2 * suc k) m.word m.freelist l.is_table
    → ((va : ℕ) → a ≤ va → va < a + suc k * 4096 → has_flag pte_v (space m.word root va) ≡ false)
    → (m' : Machine) × (l' : Layout) × (map_loop kalloc (suc k) root a (a + k * 4096) pa perm m
        ≡ some (true, m'))
      × IsRemapped n root (mapped_range (suc k) a pa perm) m l m' l'
map_loop-IsRemapped zero n root a pa perm m l f r aligned low free unmapped =
    let (m', l', run, g) =
      map_first 0 n root a pa perm m l f r (omega arith) free
        (unmapped a (omega arith) (omega arith)) in
    let last : (a == a + 0 * 4096) ≡ true = ground arith in
    (
      m',
      l',
      run (a + 0 * 4096) ∙ rw last refl,
      record {
        forest = g.forest;
        roots = g.roots;
        spaces = λ q va e small.
            g.spaces q va e small
            ∙ ap (λ (v : ℕ). if root == q then v else space m.word q va)
                (no_more a pa perm va (space m.word q va) aligned);
        free = rw (plus_zero n) at g.free;
      },
    )
  where
    plus_zero : (n : ℕ) → n + 2 * 0 ≡ n
    plus_zero n = omega arith
map_loop-IsRemapped (suc k) n root a pa perm m l f r aligned low free unmapped =
    let (m', l', run, g) =
      map_first (suc k) n root a pa perm m l f r (omega arith) free
        (unmapped a (omega arith) (omega arith)) in
    let (m'', l'', run', h) =
      map_loop-IsRemapped k n root (a + 4096) (pa + 4096) perm m' l' g.forest (g.roots root r)
        (omega arith) (omega arith) g.free
        (λ va from_a to_end.
          let other : (a / 4096 == va / 4096) ≡ false = ground arith in
          let same : (root == root) ≡ true = ground arith in
          ap (has_flag pte_v) (g.spaces root va r (omega arith) ∙ rw (same, other) refl)
          ∙ unmapped va (omega arith) (omega arith)) in
    let more : (a == a + suc k * 4096) ≡ false = ground arith in
    let last : a + 4096 + k * 4096 ≡ a + suc k * 4096 = omega arith in
    (
      m'',
      l'',
      run (a + suc k * 4096) ∙ rw (more, ← last) run',
      IsRemapped-then (n + 2 * suc k) n root (only_page a (mapped_entry pa perm))
          (mapped_range (suc k) (a + 4096) (pa + 4096) perm) (mapped_range (suc (suc k)) a pa perm)
          m m' m'' l l' l'' r (λ va old. range_step (suc k) a pa perm va old aligned) g h,
    )

mappages-loop :
    (k root va pa perm : ℕ) (m : Machine)
    → va % 4096 ≡ 0
    → mappages kalloc root va (suc k * 4096) pa perm m
      ≡ map_loop kalloc (suc k) root va (va + k * 4096) pa perm m
unfolding mappages
mappages-loop k root va pa perm m aligned =
    let va_ok : (va % 4096 == 0) ≡ true = ground arith in
    let size_ok : (suc k * 4096 % 4096 == 0) ≡ true = ground arith in
    let some_pages : (suc k * 4096 == 0) ≡ false = ground arith in
    let pages : suc k * 4096 / 4096 ≡ suc k = omega arith in
    let last : va + suc k * 4096 - 4096 ≡ va + k * 4096 = omega arith in
    rw (va_ok, size_ok, some_pages, pages, last) refl

-- `mappages` of `k + 1` pages that are not mapped yet, below MAXVA, succeeds where the free list has
-- two pages for each of them. The address space then maps the range to the pages from `pa` on,
-- with these permissions; the rest of it and all other address spaces are as before, and the
-- tables form a forest again.
pub mappages-IsRemapped :
    (k n root va pa perm : ℕ) (m : Machine) (l : Layout)
    → IsForest m.word l
    → IsRoot l root
    → va % 4096 ≡ 0
    → va + suc k * 4096 ≤ maxva
    → FreePages (n + 2 * suc k) m.word m.freelist l.is_table
    → ((a : ℕ) → va ≤ a → a < va + suc k * 4096 → has_flag pte_v (space m.word root a) ≡ false)
    → (m' : Machine) × (l' : Layout) × (mappages kalloc root va (suc k * 4096) pa perm m
        ≡ some (true, m'))
      × IsRemapped n root (mapped_range (suc k) va pa perm) m l m' l'
mappages-IsRemapped k n root va pa perm m l f r aligned low free unmapped =
    let (m', l', run, g) =
      map_loop-IsRemapped k n root va pa perm m l f r aligned low free unmapped in
    (m', l', mappages-loop k root va pa perm m aligned ∙ run, g)
