-- ===== src/Vm/Table/Walk.antt =====
-- `walk` without allocation, `walkaddr`, and a store to the entry that `walk` finds.
use xv6_riscv_cs.Base.{
  Bool-cases, ap, arith, false, if◌then◌else◌, inl, inr, leb, not, refl, some, suc, sym, update,
  update_ne, update_self, zero, ℕ, ◌&&◌, ◌*◌, ◌+◌, ◌/◌, ◌<◌, ◌==◌, ◌∙◌, ◌≡◌, ◌≢◌,
}
use xv6_riscv_cs.Vm.Table.Shape.{
  IsForest, IsOnWay, IsRoot, Layout, entry_unique, find_entry_below, leaf, next-IsOnWay,
  root-IsOnWay, space, find-IsOnWay, leaf_same, page_prefix, px-lt, px_page,
}
use xv6_riscv_cs.Vm.Machine.{Machine, bind_lem, give}
use xv6_riscv_cs.Vm.Table.{
  entry, has_flag, maxva, no_page, pte2pa, pte_u, pte_v, px, walk, walk_down, walkaddr, prefix,
}

walk_down_lem :
    (level t va : ℕ) (m : Machine)
    → walk_down no_page level t va m ≡ some (find_entry_below m.word level t va, m)
unfolding walk_down find_entry_below
walk_down_lem zero t va m = refl
walk_down_lem (suc level) t va m =
    elim (Bool-cases (has_flag pte_v (m.word (entry t (suc level) va)))) [
      | inl valid ↦ rw valid (walk_down_lem level (pte2pa (m.word (entry t (suc level) va))) va m)
      | inr missing ↦ rw missing refl
    ]

-- `walk` without allocation finds the entry and changes nothing.
pub walk_lem :
    (root va : ℕ) (m : Machine)
    → va < maxva
    → walk no_page root va m ≡ some (find_entry_below m.word 2 root va, m)
unfolding walk
walk_lem root va m small =
    let below : leb maxva va ≡ false = ground arith in rw below (walk_down_lem 2 root va m)

-- The entry that is found holds the entry of the page.
pub leaf-find :
    (word : ℕ → ℕ) (l : Layout) (root level t va : ℕ)
    → IsForest word l
    → IsOnWay l root level t va
    → leaf word level t va ≡ (
        if find_entry_below word level t va == 0
        then 0
        else word (find_entry_below word level t va))
unfolding leaf find_entry_below
leaf-find word l root zero t va f w =
    let there : (entry t 0 va == 0) ≡ false = ground (arith, f.not_null t w.is_table) in
    rw there refl
leaf-find word l root (suc level) t va f w =
    elim (Bool-cases (has_flag pte_v (word (entry t (suc level) va)))) [
      | inl valid ↦
          rw valid
            (leaf-find word l root level _ va f (next-IsOnWay word l root level t va f w valid))
      | inr missing ↦ rw missing refl
    ]

pub null-has_flag : has_flag pte_v 0 ≡ false
unfolding has_flag
null-has_flag = refl

read_entry :
    (pte : ℕ) (m : Machine)
    → (if not (has_flag pte_v pte)
          then give 0
          else (if not (has_flag pte_u pte) then give 0 else give (pte2pa pte)))
        m
      ≡ some ((if has_flag pte_v pte && has_flag pte_u pte then pte2pa pte else 0), m)
read_entry pte m = elim (Bool-cases (has_flag pte_v pte)) [
  | inl valid ↦ elim (Bool-cases (has_flag pte_u pte)) [
    | inl user ↦ rw (valid, user) refl
    | inr kernel_only ↦ rw (valid, kernel_only) refl
  ]
  | inr invalid ↦ rw invalid refl
]

-- `walkaddr` gives the page that the address space maps for the user at this address, and 0 where
-- there is none.
pub walkaddr_lem :
    (l : Layout) (root va : ℕ) (m : Machine)
    → IsForest m.word l
    → IsRoot l root
    → va < maxva
    → walkaddr root va m
      ≡ some (
        (if has_flag pte_v (space m.word root va) && has_flag pte_u (space m.word root va)
            then pte2pa (space m.word root va)
            else 0),
        m,
      )
unfolding walkaddr
walkaddr_lem l root va m f r small =
    let below : leb maxva va ≡ false = ground arith in
    let e = leaf-find m.word l root 2 root va f (root-IsOnWay l root va small r) in
    elim (Bool-cases (find_entry_below m.word 2 root va == 0)) [
      | inl none_found ↦
          let e' : space m.word root va ≡ 0 = e ∙ rw none_found refl in
          rw below (
            bind_lem (walk no_page root va) _ m (walk_lem root va m small)
            ∙ rw (none_found, e', null-has_flag) refl)
      | inr found ↦
          let e' : space m.word root va ≡ m.word (find_entry_below m.word 2 root va) =
            e ∙ rw found refl in
          rw below (
            bind_lem (walk no_page root va) _ m (walk_lem root va m small)
            ∙ rw (found, e') (read_entry (m.word (find_entry_below m.word 2 root va)) m))
    ]

-- Entries of one table at most are equal.
pub entry_same :
    (word : ℕ → ℕ) (l : Layout) (root root' k k' t t' va va' : ℕ)
    → IsForest word l
    → IsOnWay l root k t va
    → IsOnWay l root' k' t' va'
    → entry t k va ≡ entry t' k' va'
    → (t ≡ t') × (k ≡ k') × (px k va ≡ px k' va')
entry_same word l root root' k k' t t' va va' f w w' e =
    let (same, i) =
      entry_unique t t' (px k va) (px k' va') (f.aligned t w.is_table) (f.aligned t' w'.is_table)
        (px-lt k va) (px-lt k' va') e in
    (same, sym w.level_of ∙ ap l.level same ∙ w'.level_of, i)

-- A store to a leaf entry leaves the forest of the tables as it is.
pub store-IsForest :
    (word : ℕ → ℕ) (l : Layout) (root t va v : ℕ)
    → IsForest word l
    → IsOnWay l root 0 t va
    → IsForest (update word (entry t 0 va) v) l
store-IsForest word l root t va v f w = record {
  aligned = f.aligned;
  not_null = f.not_null;
  low = f.low;
  next_level = λ t' i table lt upper.
      let other : entry t 0 va ≢ t' + 8 * i = λ e.
        let same =
          (entry_unique t t' (px 0 va) i (f.aligned t w.is_table) (f.aligned t' table) (px-lt 0 va)
            lt e).0 in
        absurd (omega (arith, upper, w.level_of, ap l.level same)) in
      rw (update_ne word (entry t 0 va) (t' + 8 * i) v other) (f.next_level t' i table lt upper);
}

-- The entry that `walk` finds depends on the page only, and no store below changes the way there.
leaf_page :
    (word : ℕ → ℕ) (level t va va' : ℕ)
    → level < 3
    → va / 4096 ≡ va' / 4096
    → leaf word level t va ≡ leaf word level t va'
unfolding leaf
leaf_page word zero t va va' h e = ap (λ (i : ℕ). word (t + 8 * i)) (px_page 0 va va' h e)
leaf_page word (suc level) t va va' h e =
    rw (px_page (suc level) va va' h e)
      (elim (Bool-cases (has_flag pte_v (word (entry t (suc level) va')))) [
        | inl valid ↦ rw valid (leaf_page word level _ va va' (omega arith) e)
        | inr missing ↦ rw missing refl
      ])

-- What a store to the leaf entry of one address does to the entry of the same address.
leaf_set :
    (word : ℕ → ℕ) (l : Layout) (root level t va v a : ℕ)
    → IsForest word l
    → IsOnWay l root level t va
    → find_entry_below word level t va ≡ a
    → a ≢ 0
    → leaf (update word a v) level t va ≡ v
unfolding leaf find_entry_below
leaf_set word l root zero t va v a f w e there = rw (← e) (update_self word (entry t 0 va) v)
leaf_set word l root (suc level) t va v a f w e there =
    elim (Bool-cases (has_flag pte_v (word (entry t (suc level) va)))) [
      | inl valid ↦
          let t' : ℕ = pte2pa (word (entry t (suc level) va)) in
          let w' = next-IsOnWay word l root level t va f w valid in
          let e' : find_entry_below word level t' va ≡ a = rw valid at e in
          let (leaf_table, wl, at_leaf) =
            find-IsOnWay word l root level t' va f w' (λ none_below. there (sym e' ∙ none_below)) in
          let other : a ≢ entry t (suc level) va = λ same_entry.
            let same =
              entry_same word l root root 0 (suc level) leaf_table t va va f wl w
                (sym at_leaf ∙ e' ∙ same_entry) in
            absurd (omega (arith, same.1)) in
          rw (update_ne word a (entry t (suc level) va) v other, valid)
            (leaf_set word l root level t' va v a f w' e' there)
      | inr missing ↦ absurd (there (sym e ∙ rw missing refl))
    ]

-- A store to the entry that `walk` finds changes the entry of this page in this address space, and
-- no other entry of any address space.
pub store_space :
    (word : ℕ → ℕ) (l : Layout) (root va v root' va' : ℕ)
    → IsForest word l
    → IsRoot l root
    → IsRoot l root'
    → va < maxva
    → va' < maxva
    → find_entry_below word 2 root va ≢ 0
    → space (update word (find_entry_below word 2 root va) v) root' va'
      ≡ (if (root == root') && (va / 4096 == va' / 4096) then v else space word root' va')
store_space word l root va v root' va' f r r' small small' there =
    let w = root-IsOnWay l root va small r in
    let w' = root-IsOnWay l root' va' small' r' in
    let a : ℕ = find_entry_below word 2 root va in
    let (t, wt, at) = find-IsOnWay word l root 2 root va f w there in
    elim (Bool-cases ((root == root') && (va / 4096 == va' / 4096))) [
      | inl same ↦
          let one_root : root ≡ root' = ground arith in
          let one_page : va' / 4096 ≡ va / 4096 = ground arith in
          rw same (
            leaf_page (update word a v) 2 root' va' va (omega arith) one_page
            ∙ ap (λ (r : ℕ). leaf (update word a v) 2 r va) (sym one_root)
            ∙ leaf_set word l root 2 root va v a f w refl there)
      | inr differs ↦ rw differs (
          leaf_same word (update word a v) l root' 2 root' va' f w' (λ k q wq.
            update_ne word a (entry q k va') v (λ e.
              let same = entry_same word l root root' 0 k t q va va' f wt wq (sym at ∙ e) in
              let one_root : root ≡ root' = sym wt.owner_of ∙ ap l.owner same.0 ∙ wq.owner_of in
              let i : px 0 va ≡ px 0 va' = same.2 ∙ ap (λ (j : ℕ). px j va') (sym same.1) in
              let one_prefix : prefix 1 va ≡ prefix 1 va' =
                sym wt.range_of
                ∙ ap l.range same.0
                ∙ wq.range_of
                ∙ ap (λ (j : ℕ). prefix (j + 1) va') (sym same.1) in
              let one_page = page_prefix va va' one_prefix i in
              ground (arith, one_root, one_page))))
    ]
