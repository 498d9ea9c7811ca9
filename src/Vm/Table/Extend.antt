-- ===== src/Vm/Table/Extend.antt =====
-- A new table in the forest, as the loop of `walk` of kernel/vm.c installs it.
use xv6_riscv_cs.Base.{
  ==_iff, Bool-cases, ap, ap₂, arith, bit_and-one, bit_or, bit_or-one_odd, false, false≢true,
  if◌then◌else◌, inl, inr, leb, ltb, refl, suc, sym, true, update, update_ne, update_self,
  upper-bit_or, zero, ℕ, ◌%◌, ◌&&◌, ◌*◌, ◌+◌, ◌/◌, ◌<◌, ◌==◌, ◌^◌, ◌∙◌, ◌≡◌, ◌≢◌, ◌⊎◌,
}
use xv6_riscv_cs.Vm.Table.Shape.{
  IsForest, IsOnWay, IsRoot, Layout, entry_unique, px-lt, leaf, next-IsOnWay, prefix-px,
  root-IsOnWay, space,
}
use xv6_riscv_cs.Vm.Table.{entry, has_flag, pa2pte, prefix, pte2pa, pte_v, px, maxva}
use xv6_riscv_cs.Vm.Machine.{filled}
use xv6_riscv_cs.Vm.Table.Walk.{null-has_flag, entry_same}

-- The layout with one more table.
abbrev pub extend : Layout → ℕ → ℕ → ℕ → ℕ → Layout
extend l p level range owner = record {
  is_table = update l.is_table p true;
  level = update l.level p level;
  range = update l.range p range;
  owner = update l.owner p owner;
}

-- Page `p` can become a table.
pub record IsFresh (l : Layout) (p : ℕ) : Type 0 where
  pub not_null : p ≢ 0
  pub aligned : p % 4096 ≡ 0
  pub physical : p < 2 ^ 56
  pub no_table : l.is_table p ≡ false

new_entry : ℕ → ℕ
new_entry p = bit_or (pa2pte p) pte_v

-- The new entry is valid and leads to the page.
new_entry_lem :
    (p : ℕ)
    → p % 4096 ≡ 0
    → p < 2 ^ 56
    → (has_flag pte_v (new_entry p) ≡ true) × (pte2pa (new_entry p) ≡ p)
unfolding new_entry has_flag pte2pa pa2pte
new_entry_lem p h low =
    let odd = bit_or-one_odd (p / 4096 * 1024) in
    let one = bit_and-one (bit_or (p / 4096 * 1024) 1) in
    let upper = upper-bit_or (p / 4096 * 1024) 1 (omega arith) in
    (ground (arith, odd, one), omega (arith, upper))

-- The page `p` becomes the table below the invalid entry of `t` for `va`.
module _ (word : ℕ → ℕ) (l : Layout) (root level t va p : ℕ) (f : IsForest word l)
    (w : IsOnWay l root (suc level) t va) (fresh : IsFresh l p)
    (missing : has_flag pte_v (word (entry t (suc level) va)) ≡ false) where
  abbrev pub installed : ℕ → ℕ
  installed = update (filled word p 0) (entry t (suc level) va) (bit_or (pa2pte p) pte_v)

  abbrev pub extended : Layout
  extended = extend l p level (prefix (level + 1) va) root

  p_is_no : (q : ℕ) → l.is_table q ≡ true → p ≢ q
  p_is_no q table e = false≢true (sym fresh.no_table ∙ ap l.is_table e ∙ table)

  -- The tables that were there keep all entries but the new one.
  old_entries :
      (q i : ℕ)
      → l.is_table q ≡ true
      → i < 512
      → installed (q + 8 * i)
        ≡ (if entry t (suc level) va == q + 8 * i then new_entry p else word (q + 8 * i))
  unfolding new_entry
  old_entries q i table lt =
      let apart = p_is_no q table in
      let off : (leb p (q + 8 * i) && ltb (q + 8 * i) (p + 4096)) ≡ false =
        ground (arith, f.aligned q table, fresh.aligned) in
      rw off refl

  new_entries : (i : ℕ) → i < 512 → installed (p + 8 * i) ≡ 0
  new_entries i lt =
      let apart = p_is_no t w.is_table in
      let other : entry t (suc level) va ≢ p + 8 * i = λ e. apart (
        sym
          (entry_unique t p (px (suc level) va) i (f.aligned t w.is_table) fresh.aligned
            (px-lt (suc level) va) lt e).0) in
      let within : (leb p (p + 8 * i) && ltb (p + 8 * i) (p + 4096)) ≡ true = ground arith in
      update_ne (filled word p 0) (entry t (suc level) va) (p + 8 * i) (bit_or (pa2pte p) pte_v)
        other
      ∙ rw within refl

  pub IsRoot-extended : (r : ℕ) → IsRoot l r → IsRoot extended r
  IsRoot-extended r h =
      let apart = p_is_no r h.is_table in
      record {
        is_table = update_ne l.is_table p r true apart ∙ h.is_table;
        level = update_ne l.level p r level apart ∙ h.level;
        range = update_ne l.range p r (prefix (level + 1) va) apart ∙ h.range;
        owner = update_ne l.owner p r root apart ∙ h.owner;
      }

  pub new-IsOnWay : IsOnWay extended root level p va
  new-IsOnWay = record {
    is_table = update_self l.is_table p true;
    level_of = update_self l.level p level;
    range_of = update_self l.range p (prefix (level + 1) va);
    owner_of = update_self l.owner p root;
  }

  pub keeps : {A : Type 0} (g : ℕ → A) (v : A) (q : ℕ) → l.is_table q ≡ true → update g p v q ≡ g q
  keeps g v q table = update_ne g p q v (p_is_no q table)

  -- The new entry leads to the new table, and the old entries where they led.
  old_next :
      (q i : ℕ)
      → l.is_table q ≡ true
      → i < 512
      → 0 < l.level q
      → has_flag pte_v (installed (q + 8 * i)) ≡ true
      → (extended.is_table (pte2pa (installed (q + 8 * i))) ≡ true)
        × (extended.level (pte2pa (installed (q + 8 * i))) + 1 ≡ l.level q)
        × (extended.range (pte2pa (installed (q + 8 * i))) ≡ l.range q * 512 + i)
        × (extended.owner (pte2pa (installed (q + 8 * i))) ≡ l.owner q)
  old_next q i table lt upper valid = elim (Bool-cases (entry t (suc level) va == q + 8 * i)) [
    | inl same ↦
        let e : installed (q + 8 * i) ≡ new_entry p = old_entries q i table lt ∙ rw same refl in
        let (q_is_t, i_is_px) =
          entry_unique t q (px (suc level) va) i (f.aligned t w.is_table) (f.aligned q table)
            (px-lt (suc level) va) lt ((==_iff _ _).0 same) in
        let to_p : pte2pa (installed (q + 8 * i)) ≡ p =
          ap pte2pa e ∙ (new_entry_lem p fresh.aligned fresh.physical).1 in
        rw to_p (
          update_self l.is_table p true,
          ap (λ (k : ℕ). k + 1) (update_self l.level p level)
              ∙ (omega (arith, w.level_of, ap l.level q_is_t)),
          update_self l.range p (prefix (level + 1) va)
              ∙ prefix-px (level + 1) va (omega (arith, w.level_of, f.low t w.is_table))
              ∙ ap₂ (λ (a b : ℕ). a * 512 + b)
                  (ap (λ (k : ℕ). prefix k va) (omega arith) ∙ sym w.range_of ∙ ap l.range q_is_t)
                  (ap (λ (k : ℕ). px k va) (omega arith) ∙ i_is_px),
          update_self l.owner p root ∙ sym w.owner_of ∙ ap l.owner q_is_t,
        )
    | inr other ↦
        let e : installed (q + 8 * i) ≡ word (q + 8 * i) =
          old_entries q i table lt ∙ rw other refl in
        let (next, one_less, range, owner) =
          f.next_level q i table lt upper (ap (has_flag pte_v) (sym e) ∙ valid) in
        rw e (
          keeps l.is_table true _ next ∙ next,
          ap (λ (k : ℕ). k + 1) (keeps l.level level _ next) ∙ one_less,
          keeps l.range (prefix (level + 1) va) _ next ∙ range,
          keeps l.owner root _ next ∙ owner,
        )
  ]

  table_cases : (q : ℕ) → extended.is_table q ≡ true → (p ≡ q) ⊎ (l.is_table q ≡ true)
  table_cases q table = elim (Bool-cases (p == q)) [
    | inl same ↦ inl ((==_iff p q).0 same)
    | inr other ↦ inr (rw other at table)
  ]

  new_next : (i : ℕ) → i < 512 → has_flag pte_v (installed (p + 8 * i)) ≡ true → ⊥
  new_next i lt valid =
      false≢true (sym null-has_flag ∙ ap (has_flag pte_v) (sym (new_entries i lt)) ∙ valid)

  pub extended-IsForest : IsForest installed extended
  extended-IsForest = record {
    aligned = λ q table. elim (table_cases q table) [
      | inl new ↦ ap (λ (a : ℕ). a % 4096) (sym new) ∙ fresh.aligned
      | inr old ↦ f.aligned q old
    ];
    not_null = λ q table. elim (table_cases q table) [
      | inl new ↦ λ e. fresh.not_null (new ∙ e)
      | inr old ↦ f.not_null q old
    ];
    low = λ q table. elim (table_cases q table) [
      | inl new ↦ omega (
        arith,
        ap extended.level (sym new),
        update_self l.level p level,
        w.level_of,
        f.low t w.is_table,
      )
      | inr old ↦ omega (arith, keeps l.level level q old, f.low q old)
    ];
    next_level = λ q i table lt upper valid. elim (table_cases q table) [
      | inl new ↦ absurd (new_next i lt (rw (← new) at valid))
      | inr old ↦
          let (next, one_less, range, owner) =
            old_next q i old lt (omega (arith, upper, keeps l.level level q old)) valid in
          (
            next,
            one_less ∙ sym (keeps l.level level q old),
            range ∙ ap (λ (r : ℕ). r * 512 + i) (sym (keeps l.range (prefix (level + 1) va) q old)),
            owner ∙ sym (keeps l.owner root q old),
          )
    ];
  }

  -- The new table is empty.
  empty_leaf : (k va' : ℕ) → leaf installed k p va' ≡ 0
  unfolding leaf
  empty_leaf zero va' = new_entries (px 0 va') (px-lt 0 va')
  empty_leaf (suc k) va' =
      let invalid : has_flag pte_v (installed (entry p (suc k) va')) ≡ false =
        ap (has_flag pte_v) (new_entries (px (suc k) va') (px-lt (suc k) va')) ∙ null-has_flag in
      rw invalid refl

  leaf-installed :
      (root' k q va' : ℕ) → IsOnWay l root' k q va' → leaf installed k q va' ≡ leaf word k q va'
  unfolding leaf
  leaf-installed root' zero q va' wq =
      let other : (entry t (suc level) va == entry q 0 va') ≡ false = elim (Bool-cases _) [
        | inl same ↦
            let e =
              entry_same word l root root' (suc level) 0 t q va va' f w wq ((==_iff _ _).0 same) in
            absurd (omega (arith, e.1))
        | inr differs ↦ differs
      ] in
      old_entries q (px 0 va') wq.is_table (px-lt 0 va') ∙ rw other refl
  leaf-installed root' (suc k) q va' wq =
      let e = old_entries q (px (suc k) va') wq.is_table (px-lt (suc k) va') in
      elim (Bool-cases (entry t (suc level) va == entry q (suc k) va')) [
        | inl same ↦
            let one_entry = (==_iff _ _).0 same in
            let new : installed (entry q (suc k) va') ≡ new_entry p = e ∙ rw same refl in
            let (valid, to_p) = new_entry_lem p fresh.aligned fresh.physical in
            let old : has_flag pte_v (word (entry q (suc k) va')) ≡ false =
              ap (λ (a : ℕ). has_flag pte_v (word a)) (sym one_entry) ∙ missing in
            rw (new, valid, to_p, old) (empty_leaf k va')
        | inr other ↦
            let kept : installed (entry q (suc k) va') ≡ word (entry q (suc k) va') =
              e ∙ rw other refl in
            elim (Bool-cases (has_flag pte_v (word (entry q (suc k) va')))) [
              | inl valid ↦
                  rw (kept, valid)
                    (leaf-installed root' k _ va' (next-IsOnWay word l root' k q va' f wq valid))
              | inr invalid ↦ rw (kept, invalid) refl
            ]
      ]

  -- No address space changes when a table is installed.
  pub space-installed :
      (root' va' : ℕ)
      → IsRoot l root'
      → va' < maxva
      → space installed root' va' ≡ space word root' va'
  space-installed root' va' r small =
      leaf-installed root' 2 root' va' (root-IsOnWay l root' va' small r)

  -- Valid entries stay, and the new entry leads to the new table.
  pub kept-installed :
      (q i : ℕ)
      → l.is_table q ≡ true
      → i < 512
      → has_flag pte_v (word (q + 8 * i)) ≡ true
      → installed (q + 8 * i) ≡ word (q + 8 * i)
  kept-installed q i table lt valid =
      let other : (entry t (suc level) va == q + 8 * i) ≡ false = elim (Bool-cases _) [
        | inl same ↦ absurd (
            false≢true
              (sym missing ∙ ap (λ (a : ℕ). has_flag pte_v (word a)) ((==_iff _ _).0 same) ∙ valid))
        | inr differs ↦ differs
      ] in
      old_entries q i table lt ∙ rw other refl

  pub way-installed :
      (has_flag pte_v (installed (entry t (suc level) va)) ≡ true)
      × (pte2pa (installed (entry t (suc level) va)) ≡ p)
  unfolding new_entry
  way-installed =
      rw (update_self (filled word p 0) (entry t (suc level) va) (bit_or (pa2pte p) pte_v))
        (new_entry_lem p fresh.aligned fresh.physical)

  -- The first words of other pages stay.
  pub others-installed : (q : ℕ) → q % 4096 ≡ 0 → extended.is_table q ≡ false → installed q ≡ word q
  others-installed q aligned free =
      let apart : p ≢ q =
        λ e. false≢true (sym free ∙ ap extended.is_table (sym e) ∙ update_self l.is_table p true) in
      let no_old : l.is_table q ≡ false = sym (update_ne l.is_table p q true apart) ∙ free in
      let other : entry t (suc level) va ≢ q = λ e.
        let same : t ≡ q = omega (arith, e, f.aligned t w.is_table, px-lt (suc level) va) in
        false≢true (sym no_old ∙ ap l.is_table (sym same) ∙ w.is_table) in
      let off : (leb p q && ltb q (p + 4096)) ≡ false = ground (arith, fresh.aligned) in
      update_ne (filled word p 0) (entry t (suc level) va) q (bit_or (pa2pte p) pte_v) other
      ∙ rw off refl
