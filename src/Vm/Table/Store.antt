-- ===== src/Vm/Table/Store.antt =====
-- Storing an entry of a page table of kernel/vm.c in a table that is there.
use xv6_riscv_cs.Base.{
  Bool, ap, arith, false, false≢true, if◌then◌else◌, leb, refl, some, sym, true, update, update_ne,
  ℕ, ◌&&◌, ◌+◌, ◌/◌, ◌<◌, ◌==◌, ◌∙◌, ◌≡◌, ◌≢◌,
}
use xv6_riscv_cs.Vm.Frames.Freelist.{FreePages, FreePages-congr}
use xv6_riscv_cs.Vm.Table.Shape.{
  IsForest, IsOnWay, IsRoot, Layout, find-IsOnWay, find_entry_below, px-lt, root-IsOnWay, space,
}
use xv6_riscv_cs.Vm.Machine.{Machine}
use xv6_riscv_cs.Vm.Table.{entry, maxva, walk}
use xv6_riscv_cs.Vm.Frames.{kalloc}
use xv6_riscv_cs.Vm.Table.Walk.{leaf-find, store-IsForest, store_space}
use xv6_riscv_cs.Vm.Table.Grow.{walk_down-IsGrown}

-- The memory after a step that changes the entries of some pages of one address space: `change`
-- tells the new entry of an address from its old one.
pub record IsRemapped (n root : ℕ) (change : ℕ → ℕ → ℕ) (m : Machine) (l : Layout) (m' : Machine)
    (l' : Layout) : Type 0 where
  pub forest : IsForest m'.word l'
  pub roots : (r : ℕ) → IsRoot l r → IsRoot l' r
  pub spaces :
      (r va : ℕ)
      → IsRoot l r
      → va < maxva
      → space m'.word r va
        ≡ (if root == r then change va (space m.word r va) else space m.word r va)
  pub free : FreePages n m'.word m'.freelist l'.is_table

-- A store to an entry of a table leaves the free list as it is.
pub store-FreePages :
    (n : ℕ) (m : Machine) (l : Layout) (root k t va v : ℕ)
    → IsForest m.word l
    → IsOnWay l root k t va
    → FreePages n m.word m.freelist l.is_table
    → FreePages n (update m.word (entry t k va) v) m.freelist l.is_table
store-FreePages n m l root k t va v f w free =
    FreePages-congr n m.word _ m.freelist l.is_table
      (λ q aligned no_table. update_ne m.word (entry t k va) q v (λ e.
        let same : t ≡ q = omega (arith, e, f.aligned t w.is_table, px-lt k va) in
        false≢true (sym no_table ∙ ap l.is_table (sym same) ∙ w.is_table)))
      free

-- One entry is stored where `walk` found it.
abbrev pub stored : Machine → ℕ → ℕ → Machine
stored m at_entry v = record m { word = update m.word at_entry v }

abbrev pub only_page : ℕ → ℕ → ℕ → ℕ → ℕ
only_page va v va' old = if va / 4096 == va' / 4096 then v else old

pub split_and :
    (b c : Bool) (x y : ℕ) → (if b && c then x else y) ≡ (if b then (if c then x else y) else y)
split_and true c x y = refl
split_and false c x y = refl

-- `walk` finds or makes the entry of an address. A store there changes the entry of this page.
pub walk_store :
    (n root va v : ℕ) (m : Machine) (l : Layout)
    → IsForest m.word l
    → IsRoot l root
    → va < maxva
    → FreePages (n + 2) m.word m.freelist l.is_table
    → (a : ℕ) × (m' : Machine) × (l' : Layout) × (walk kalloc root va m ≡ some (a, m'))
      × (a ≢ 0)
      × (m'.word a ≡ space m.word root va)
      × IsRemapped n root (only_page va v) m l (stored m' a v) l'
unfolding walk
walk_store n root va v m l f r small free =
    let (a, m', l', run, g) =
      walk_down-IsGrown 2 n root root va m l f (root-IsOnWay l root va small r) free in
    let r' = g.roots root r in
    let w' = root-IsOnWay l' root va small r' in
    let found : (find_entry_below m'.word 2 root va == 0) ≡ false =
      ground (arith, g.found, g.not_null) in
    let at_leaf = leaf-find m'.word l' root 2 root va g.forest w' in
    let (t, wt, at_t) =
      find-IsOnWay m'.word l' root 2 root va g.forest w' (λ e. g.not_null (sym g.found ∙ e)) in
    let to_t : a ≡ entry t 0 va = sym g.found ∙ at_t in
    let below : leb maxva va ≡ false = ground arith in
    (
      a,
      m',
      l',
      rw below run,
      g.not_null,
      ap m'.word (sym g.found) ∙ sym (at_leaf ∙ rw found refl) ∙ g.spaces root va r small,
      record {
        forest = rw to_t (store-IsForest m'.word l' root t va v g.forest wt);
        roots = g.roots;
        spaces = λ q va' h small'.
            let e =
              store_space m'.word l' root va v q va' g.forest r' (g.roots q h) small small'
                (λ e. g.not_null (sym g.found ∙ e)) in
            rw (g.found, g.spaces q va' h small') at e
            ∙ split_and (root == q) (va / 4096 == va' / 4096) v (space m.word q va');
        free = rw to_t (store-FreePages n m' l' root 0 t va v g.forest wt g.free);
      },
    )
