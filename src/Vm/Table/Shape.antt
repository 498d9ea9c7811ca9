-- ===== src/Vm/Table/Shape.antt =====
-- When the tables below a root form a tree, and what an address space then maps.
use xv6_riscv_cs.Base.{
  Bool, Bool-cases, ap, arith, if◌then◌else◌, inl, inr, refl, suc, sym, true, zero, ℕ, ◌%◌, ◌*◌,
  ◌+◌, ◌/◌, ◌<◌, ◌∙◌, ◌≡◌, ◌≢◌,
}
use xv6_riscv_cs.Vm.Table.{entry, has_flag, prefix, pte2pa, pte_v, maxva, px}

-- Which pages are tables, at which level, and for which addresses: those with this prefix above
-- the table's own level, in the address space of this root.
pub record Layout : Type 0 where
  pub is_table : ℕ → Bool
  pub level : ℕ → ℕ
  pub range : ℕ → ℕ
  pub owner : ℕ → ℕ

-- The tables form a forest: a valid entry of a table above level 0 leads to a table of the next
-- level for the right addresses. As each table has one level and one prefix, no two entries lead
-- to the same table.
pub record IsForest (word : ℕ → ℕ) (l : Layout) : Type 0 where
  pub aligned : (t : ℕ) → l.is_table t ≡ true → t % 4096 ≡ 0
  pub not_null : (t : ℕ) → l.is_table t ≡ true → t ≢ 0
  pub low : (t : ℕ) → l.is_table t ≡ true → l.level t < 3
  pub next_level :
      (t i : ℕ)
      → l.is_table t ≡ true
      → i < 512
      → 0 < l.level t
      → has_flag pte_v (word (t + 8 * i)) ≡ true
      → (l.is_table (pte2pa (word (t + 8 * i))) ≡ true)
        × (l.level (pte2pa (word (t + 8 * i))) + 1 ≡ l.level t)
        × (l.range (pte2pa (word (t + 8 * i))) ≡ l.range t * 512 + i)
        × (l.owner (pte2pa (word (t + 8 * i))) ≡ l.owner t)

-- A root of the forest is a table of level 2 for all addresses below 2 ^ 39.
pub record IsRoot (l : Layout) (root : ℕ) : Type 0 where
  pub is_table : l.is_table root ≡ true
  pub level : l.level root ≡ 2
  pub range : l.range root ≡ 0
  pub owner : l.owner root ≡ root

-- The address of the leaf entry for `va`, or 0 where a table is missing.
unfoldable pub find_entry_below : (ℕ → ℕ) → ℕ → ℕ → ℕ → ℕ
find_entry_below word zero t va = entry t 0 va
find_entry_below word (suc level) t va =
    if has_flag pte_v (word (entry t (suc level) va))
    then find_entry_below word level (pte2pa (word (entry t (suc level) va))) va
    else 0

-- The leaf entry for `va`, and 0 where a table is missing.
unfoldable pub leaf : (ℕ → ℕ) → ℕ → ℕ → ℕ → ℕ
leaf word zero t va = word (entry t 0 va)
leaf word (suc level) t va =
    if has_flag pte_v (word (entry t (suc level) va))
    then leaf word level (pte2pa (word (entry t (suc level) va))) va
    else 0

-- The address space of a root: the entry of each page.
abbrev pub space : (ℕ → ℕ) → ℕ → ℕ → ℕ
space word root va = leaf word 2 root va

pub px-lt : (level va : ℕ) → px level va < 512
unfolding px
px-lt level va = omega arith

-- One more level of the tables adds an index to the prefix.
pub prefix-px :
    (level va : ℕ) → level < 3 → prefix level va ≡ prefix (level + 1) va * 512 + px level va
unfolding px
prefix-px zero va h = omega arith
prefix-px (suc zero) va h = omega arith
prefix-px (suc (suc zero)) va h = omega arith
prefix-px (suc (suc (suc l))) va h = absurd (omega arith)

-- `t` is the table of level `level` on the way from `root` to `va`.
pub record IsOnWay (l : Layout) (root level t va : ℕ) : Type 0 where
  pub is_table : l.is_table t ≡ true
  pub level_of : l.level t ≡ level
  pub range_of : l.range t ≡ prefix (level + 1) va
  pub owner_of : l.owner t ≡ root

pub root-IsOnWay :
    (l : Layout) (root va : ℕ) → va < maxva → IsRoot l root → IsOnWay l root 2 root va
unfolding prefix
root-IsOnWay l root va small r = record {
  is_table = r.is_table;
  level_of = r.level;
  range_of = r.range ∙ omega arith;
  owner_of = r.owner;
}

pub next-IsOnWay :
    (word : ℕ → ℕ) (l : Layout) (root level t va : ℕ)
    → IsForest word l
    → IsOnWay l root (suc level) t va
    → has_flag pte_v (word (entry t (suc level) va)) ≡ true
    → IsOnWay l root level (pte2pa (word (entry t (suc level) va))) va
next-IsOnWay word l root level t va f w valid =
    let (table, one_less, range, owner) =
      f.next_level t (px (suc level) va) w.is_table (px-lt (suc level) va)
        (omega (arith, w.level_of)) valid in
    record {
      is_table = table;
      level_of = omega (arith, one_less, w.level_of);
      range_of =
          range
          ∙ ap (λ (r : ℕ). r * 512 + px (suc level) va) w.range_of
          ∙ sym (prefix-px (suc level) va (omega (arith, w.level_of, f.low t w.is_table)))
          ∙ ap (λ (k : ℕ). prefix k va) (omega arith);
      owner_of = owner ∙ w.owner_of;
    }

-- An entry belongs to one table only.
pub entry_unique :
    (t t' i i' : ℕ)
    → t % 4096 ≡ 0
    → t' % 4096 ≡ 0
    → i < 512
    → i' < 512
    → t + 8 * i ≡ t' + 8 * i'
    → (t ≡ t') × (i ≡ i')
entry_unique t t' i i' h h' low low' e = omega arith

-- Addresses in one page have the same way.
pub px_page : (level va va' : ℕ) → level < 3 → va / 4096 ≡ va' / 4096 → px level va ≡ px level va'
unfolding px
px_page zero va va' h e = omega arith
px_page (suc zero) va va' h e = omega arith
px_page (suc (suc zero)) va va' h e = omega arith
px_page (suc (suc (suc l))) va va' h e = absurd (omega arith)

-- At level 0 the prefix and the index make up the page.
pub page_prefix :
    (va va' : ℕ) → prefix 1 va ≡ prefix 1 va' → px 0 va ≡ px 0 va' → va / 4096 ≡ va' / 4096
unfolding px
page_prefix va va' e e' = omega arith

-- A table of level 0 on the way to an address is found.
pub find-IsOnWay :
    (word : ℕ → ℕ) (l : Layout) (root level t va : ℕ)
    → IsForest word l
    → IsOnWay l root level t va
    → find_entry_below word level t va ≢ 0
    → (t' : ℕ) × IsOnWay l root 0 t' va × (find_entry_below word level t va ≡ entry t' 0 va)
unfolding find_entry_below
find-IsOnWay word l root zero t va f w some_entry = (t, w, refl)
find-IsOnWay word l root (suc level) t va f w some_entry =
    elim (Bool-cases (has_flag pte_v (word (entry t (suc level) va)))) [
      | inl valid ↦
          let (t', w', e) =
            find-IsOnWay word l root level (pte2pa (word (entry t (suc level) va))) va f
              (next-IsOnWay word l root level t va f w valid)
              (λ none_below. some_entry (rw valid none_below)) in
          (t', w', rw valid e)
      | inr missing ↦ absurd (some_entry (rw missing refl))
    ]

-- A change of the memory off the way to an address leaves its entry.
pub leaf_same :
    (word word' : ℕ → ℕ) (l : Layout) (root level t va : ℕ)
    → IsForest word l
    → IsOnWay l root level t va
    → ((k q : ℕ) → IsOnWay l root k q va → word' (entry q k va) ≡ word (entry q k va))
    → leaf word' level t va ≡ leaf word level t va
unfolding leaf
leaf_same word word' l root zero t va f w same = same 0 t w
leaf_same word word' l root (suc level) t va f w same =
    elim (Bool-cases (has_flag pte_v (word (entry t (suc level) va)))) [
      | inl valid ↦
          rw (same (suc level) t w, valid)
            (leaf_same word word' l root level _ va f
              (next-IsOnWay word l root level t va f w valid) same)
      | inr missing ↦ rw (same (suc level) t w, missing) refl
    ]
