-- ===== src/Vm/Table/Grow.antt =====
-- `walk` of kernel/vm.c with allocation, on a free list that has enough pages.
use xv6_riscv_cs.Base.{
  Bool-cases, ap, arith, false, fun_ext, inl, inr, refl, some, suc, true, zero, ℕ, ◌*◌, ◌+◌, ◌<◌,
  ◌==◌, ◌∙◌, ◌≡◌, ◌≢◌,
}
use xv6_riscv_cs.Vm.Frames.Freelist.{FreePages, FreePages-fewer, FreePages-congr, kalloc-freelist}
use xv6_riscv_cs.Vm.Table.Shape.{
  IsForest, IsOnWay, IsRoot, Layout, find_entry_below, space, next-IsOnWay, px-lt,
}
use xv6_riscv_cs.Vm.Machine.{Machine, filled, bind_lem}
use xv6_riscv_cs.Vm.Table.{entry, has_flag, maxva, pte_v, walk_down, pte2pa, px}
use xv6_riscv_cs.Vm.Frames.{kalloc}
use xv6_riscv_cs.Vm.Table.Extend.{
  IsFresh, extended, extended-IsForest, installed, keeps, kept-installed, new-IsOnWay,
  others-installed, IsRoot-extended, space-installed, way-installed,
}

-- What the loop of `walk` from table `t` on achieves, with `at_entry` its result.
pub record IsGrown (n level t va : ℕ) (m : Machine) (l : Layout) (m' : Machine) (l' : Layout)
    (at_entry : ℕ) : Type 0 where
  pub forest : IsForest m'.word l'
  pub roots : (r : ℕ) → IsRoot l r → IsRoot l' r
  pub spaces : (r va' : ℕ) → IsRoot l r → va' < maxva → space m'.word r va' ≡ space m.word r va'
  pub tables : (q : ℕ) → l.is_table q ≡ true → l'.is_table q ≡ true
  pub kept :
      (q i : ℕ)
      → l.is_table q ≡ true
      → i < 512
      → has_flag pte_v (m.word (q + 8 * i)) ≡ true
      → m'.word (q + 8 * i) ≡ m.word (q + 8 * i)
  pub found : find_entry_below m'.word level t va ≡ at_entry
  pub not_null : at_entry ≢ 0
  pub free : FreePages n m'.word m'.freelist l'.is_table
  pub rest : m' ≡ record m { word = m'.word; freelist = m'.freelist }

filled_twice : (word : ℕ → ℕ) (p v v' : ℕ) → filled (filled word p v) p v' ≡ filled word p v'
filled_twice word p v v' = fun_ext (λ a. ground arith)

plus_none : (n : ℕ) → n + 0 ≡ n
plus_none n = omega arith

plus_suc : (n k : ℕ) → n + suc k ≡ suc (n + k)
plus_suc n k = omega arith

-- A table that was there leads on to the rest of the way.
IsGrown-valid :
    (n level t va : ℕ) (m : Machine) (l : Layout) (m' : Machine) (l' : Layout) (a : ℕ)
    → l.is_table t ≡ true
    → has_flag pte_v (m.word (entry t (suc level) va)) ≡ true
    → IsGrown n level (pte2pa (m.word (entry t (suc level) va))) va m l m' l' a
    → IsGrown n (suc level) t va m l m' l' a
unfolding find_entry_below
IsGrown-valid n level t va m l m' l' a table valid g = record {
  forest = g.forest;
  roots = g.roots;
  spaces = g.spaces;
  tables = g.tables;
  kept = g.kept;
  found = rw (g.kept t (px (suc level) va) table (px-lt (suc level) va) valid, valid) g.found;
  not_null = g.not_null;
  free = g.free;
  rest = g.rest;
}

-- A missing table is made of the first free page.
module _ (n root level t va : ℕ) (m : Machine) (l : Layout) (f : IsForest m.word l)
    (w : IsOnWay l root (suc level) t va) (free : FreePages (suc n) m.word m.freelist l.is_table)
    (missing : has_flag pte_v (m.word (entry t (suc level) va)) ≡ false) where
  fresh : IsFresh l m.freelist
  fresh = record { not_null = free.0; aligned = free.1; physical = free.2; no_table = free.3 }

  abbrev with_table : Machine
  with_table = record m {
    word = installed m.word l root level t va m.freelist f w fresh missing;
    freelist = m.word m.freelist;
  }

  abbrev new_layout : Layout
  new_layout = extended m.word l root level t va m.freelist f w fresh missing

  walk_down-with_table :
      walk_down kalloc (suc level) t va m ≡ walk_down kalloc level m.freelist va with_table
  unfolding walk_down
  walk_down-with_table =
      let some_page : (m.freelist == 0) ≡ false = ground (arith, free.0) in
      rw missing (
        bind_lem kalloc _ m (kalloc-freelist n m l.is_table free)
        ∙ rw (some_page, filled_twice m.word m.freelist 0x0505_0505_0505_0505 0) refl)

  free_left : FreePages n with_table.word with_table.freelist new_layout.is_table
  free_left =
      FreePages-congr n m.word with_table.word (m.word m.freelist) new_layout.is_table
        (others-installed m.word l root level t va m.freelist f w fresh missing) free.4

  IsGrown-with_table :
      (k : ℕ) (m' : Machine) (l' : Layout) (a : ℕ)
      → IsGrown k level m.freelist va with_table new_layout m' l' a
      → IsGrown k (suc level) t va m l m' l' a
  unfolding find_entry_below
  IsGrown-with_table k m' l' a g =
      let p : ℕ = m.freelist in
      let into = IsRoot-extended m.word l root level t va p f w fresh missing in
      let kept = kept-installed m.word l root level t va p f w fresh missing in
      let old = keeps m.word l root level t va p f w fresh missing in
      let (valid, to_p) = way-installed m.word l root level t va p f w fresh missing in
      record {
        forest = g.forest;
        roots = λ r h. g.roots r (into r h);
        spaces = λ r va' h small.
            g.spaces r va' (into r h) small
            ∙ space-installed m.word l root level t va p f w fresh missing r va' h small;
        tables = λ q h. g.tables q (old l.is_table true q h ∙ h);
        kept = λ q i table lt there.
            let same = kept q i table lt there in
            g.kept q i (old l.is_table true q table ∙ table) lt (ap (has_flag pte_v) same ∙ there)
            ∙ same;
        found =
            let same =
              g.kept t (px (suc level) va) (old l.is_table true t w.is_table ∙ w.is_table)
                (px-lt (suc level) va) valid in
            rw (same, valid, to_p) g.found;
        not_null = g.not_null;
        free = g.free;
        rest = g.rest;
      }

pub walk_down-IsGrown :
    (level n root t va : ℕ) (m : Machine) (l : Layout)
    → IsForest m.word l
    → IsOnWay l root level t va
    → FreePages (n + level) m.word m.freelist l.is_table
    → (at_entry : ℕ) × (m' : Machine) × (l' : Layout) × (walk_down kalloc level t va m
        ≡ some (at_entry, m'))
      × IsGrown n level t va m l m' l' at_entry
unfolding walk_down find_entry_below
walk_down-IsGrown zero n root t va m l f w free = (
  entry t 0 va,
  m,
  l,
  refl,
  record {
    forest = f;
    roots = λ r h. h;
    spaces = λ r va' h small. refl;
    tables = λ q h. h;
    kept = λ q i table lt valid. refl;
    found = refl;
    not_null = λ e. f.not_null t w.is_table (omega arith);
    free = rw (plus_none n) at free;
    rest = refl;
  },
)
walk_down-IsGrown (suc level) n root t va m l f w free =
    let more : FreePages (suc (n + level)) m.word m.freelist l.is_table =
      rw (plus_suc n level) at free in
    elim (Bool-cases (has_flag pte_v (m.word (entry t (suc level) va)))) [
      | inl valid ↦
          let (a, m', l', run, g) =
            walk_down-IsGrown level n root (pte2pa (m.word (entry t (suc level) va))) va m l f
              (next-IsOnWay m.word l root level t va f w valid)
              (FreePages-fewer (n + level) m.word m.freelist l.is_table more) in
          (a, m', l', rw valid run, IsGrown-valid n level t va m l m' l' a w.is_table valid g)
      | inr missing ↦
          let (a, m', l', run, g) =
            walk_down-IsGrown level n root m.freelist va
              (with_table (n + level) root level t va m l f w more missing)
              (new_layout (n + level) root level t va m l f w more missing)
              (extended-IsForest m.word l root level t va m.freelist f w
                (fresh (n + level) root level t va m l f w more missing) missing)
              (new-IsOnWay m.word l root level t va m.freelist f w
                (fresh (n + level) root level t va m l f w more missing) missing)
              (free_left (n + level) root level t va m l f w more missing) in
          (
            a,
            m',
            l',
            walk_down-with_table (n + level) root level t va m l f w more missing ∙ run,
            IsGrown-with_table (n + level) root level t va m l f w more missing n m' l' a g,
          )
    ]
