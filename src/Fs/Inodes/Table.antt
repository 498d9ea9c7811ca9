-- ===== src/Fs/Inodes/Table.antt =====
-- `iget` of kernel/fs.c keeps one entry of the inode table for an inode.
use xv6_riscv_cs.Base.{
  ==_iff, Bool-cases, Option, arith, false, inl, inr, ltb, none, refl, some, suc, sym, true, update,
  update_self, zero, ℕ, ◌&&◌, ◌+◌, ◌<◌, ◌==◌, ◌≡◌, ◌≢◌, ◌≤◌, ◌⊎◌,
}
use xv6_riscv_cs.Fs.{Inode, ninode, Disk}
use xv6_riscv_cs.Fs.Inodes.{iget_find, iget_empty, iget_entry, iget}
use xv6_riscv_cs.Fs.Blocks.Bitmap.{in_use}

-- An entry of the table.
abbrev pub IsEntry : ℕ → Type 0
IsEntry i = (0 < i) × (i ≤ ninode)

abbrev pub IsOpen : Inode → ℕ → ℕ → Type 0
IsOpen v dev inum = (0 < v.ref) × (v.dev ≡ dev) × (v.inum ≡ inum)

-- No inode has two entries in use.
abbrev pub IsUnique : (ℕ → Inode) → Type 0
IsUnique table =
    (i j : ℕ)
    → IsEntry i
    → IsEntry j
    → 0 < (table j).ref
    → IsOpen (table i) (table j).dev (table j).inum
    → i ≡ j

IsOpen-test_true :
    (v : Inode) (dev inum : ℕ)
    → (ltb 0 v.ref && ((v.dev == dev) && (v.inum == inum))) ≡ true
    → IsOpen v dev inum
IsOpen-test_true v dev inum h = (ground arith, ground arith, ground arith)

IsOpen-test_false :
    (v : Inode) (dev inum : ℕ)
    → (ltb 0 v.ref && ((v.dev == dev) && (v.inum == inum))) ≡ false
    → ¬ IsOpen v dev inum
IsOpen-test_false v dev inum h (a, b, c) = ground arith

iget_find_lem :
    (n ip dev inum : ℕ) (table : ℕ → Inode)
    → ((iget_find n ip dev inum table ≡ 0)
        × ((j : ℕ) → ip ≤ j → j < ip + n → ¬ IsOpen (table j) dev inum))
      ⊎ ((ip ≤ iget_find n ip dev inum table)
          × (iget_find n ip dev inum table < ip + n)
          × IsOpen (table (iget_find n ip dev inum table)) dev inum)
unfolding iget_find
iget_find_lem zero ip dev inum table = inl (refl, λ j a b. absurd (omega arith))
iget_find_lem (suc n) ip dev inum table =
    elim (Bool-cases
      (ltb 0 (table ip).ref && (((table ip).dev == dev) && ((table ip).inum == inum)))) [
        | inl here ↦
            rw here (inr (omega arith, omega arith, IsOpen-test_true (table ip) dev inum here))
        | inr other ↦ rw other (elim (iget_find_lem n (ip + 1) dev inum table) [
          | inl missing ↦ inl (
            missing.0,
            λ j a b is_open. elim (Bool-cases (ip == j)) [
              | inl same ↦
                  IsOpen-test_false (table ip) dev inum other (rw ((==_iff ip j).0 same) is_open)
              | inr later ↦ missing.1 j (ground arith) (omega arith) is_open
            ],
          )
          | inr found ↦ inr (omega (arith, found.0), omega (arith, found.1), found.2)
        ])
      ]

iget_empty_lem :
    (n ip : ℕ) (table : ℕ → Inode)
    → ((iget_empty n ip table ≡ 0) × ((j : ℕ) → ip ≤ j → j < ip + n → 0 < (table j).ref))
      ⊎ ((ip ≤ iget_empty n ip table)
          × (iget_empty n ip table < ip + n)
          × ((table (iget_empty n ip table)).ref ≡ 0))
unfolding iget_empty
iget_empty_lem zero ip table = inl (refl, λ j a b. absurd (omega arith))
iget_empty_lem (suc n) ip table = elim (Bool-cases ((table ip).ref == 0)) [
  | inl here ↦ rw here (inr (omega arith, omega arith, ground arith))
  | inr other ↦ rw other (elim (iget_empty_lem n (ip + 1) table) [
    | inl missing ↦ inl (
      missing.0,
      λ j a b. elim (Bool-cases (ip == j)) [
        | inl same ↦ rw (← (==_iff ip j).0 same) (ground arith)
        | inr later ↦ missing.1 j (ground arith) (omega arith)
      ],
    )
    | inr found ↦ inr (omega (arith, found.0), omega (arith, found.1), found.2)
  ])
]

-- A new value of an entry keeps the table unique if no other entry holds its inode.
IsUnique-update :
    (table : ℕ → Inode) (ip : ℕ) (v : Inode)
    → IsUnique table
    → ((j : ℕ) → IsEntry j → j ≢ ip → ¬ IsOpen (table j) v.dev v.inum)
    → IsUnique (update table ip v)
IsUnique-update table ip v u alone i j ei ej in_use same = elim (Bool-cases (ip == i)) [
  | inl at_i ↦ elim (Bool-cases (ip == j)) [
    | inl at_j ↦ ground arith
    | inr off_j ↦
        let used : 0 < (table j).ref = rw off_j at in_use in
        let other : IsOpen v (table j).dev (table j).inum = rw (at_i, off_j) at same in
        absurd (alone j ej (ground arith) (used, sym (other.1), sym (other.2)))
  ]
  | inr off_i ↦ elim (Bool-cases (ip == j)) [
    | inl at_j ↦
        let other : IsOpen (table i) v.dev v.inum = rw (at_j, off_i) at same in
        absurd (alone i ei (ground arith) other)
    | inr off_j ↦
        let used : 0 < (table j).ref = rw off_j at in_use in
        let other : IsOpen (table i) (table j).dev (table j).inum = rw (off_i, off_j) at same in
        u i j ei ej used other
  ]
]

-- What a call of `iget` may give: the new state, or `none` for the panic.
abbrev pub IsGotten : ℕ → ℕ → Disk → Option (ℕ × Disk) → Type 0
IsGotten dev inum d none =
    (j : ℕ) → IsEntry j → (0 < (d.inode j).ref) × (¬ IsOpen (d.inode j) dev inum)
IsGotten dev inum d (some (ip, d')) =
    IsEntry ip
    × IsOpen (d'.inode ip) dev inum
    × IsUnique d'.inode
    × (d' ≡ record d { inode = update d.inode ip (d'.inode ip) })
    × ((IsOpen (d.inode ip) dev inum
          × (d'.inode ip ≡ record (d.inode ip) { ref = (d.inode ip).ref + 1 }))
        ⊎ (((d.inode ip).ref ≡ 0)
            × ((j : ℕ) → IsEntry j → ¬ IsOpen (d.inode j) dev inum)
            × (d'.inode ip ≡ record (d.inode ip) { dev = dev; inum = inum; ref = 1; valid = 0 })))

iget_entry-found :
    (ip empty dev inum : ℕ) (d : Disk)
    → IsUnique d.inode
    → IsEntry ip
    → IsOpen (d.inode ip) dev inum
    → IsGotten dev inum d (iget_entry ip empty dev inum d)
unfolding iget_entry
iget_entry-found ip empty dev inum d u e h =
    let there : (ip == 0) ≡ false = ground (arith, e.0) in
    let v : Inode = record (d.inode ip) { ref = (d.inode ip).ref + 1 } in
    let self : update d.inode ip v ip ≡ v = update_self d.inode ip v in
    rw (there, self)
      (
        e,
        (omega arith, h.1, h.2),
        IsUnique-update d.inode ip v u (λ j ej ne is_open. ne (u j ip ej e h.0 is_open)),
        refl,
        inl (h, refl),
      )

iget_entry-empty :
    (ip dev inum : ℕ) (d : Disk)
    → IsUnique d.inode
    → IsEntry ip
    → (d.inode ip).ref ≡ 0
    → ((j : ℕ) → IsEntry j → ¬ IsOpen (d.inode j) dev inum)
    → IsGotten dev inum d (iget_entry 0 ip dev inum d)
unfolding iget_entry
iget_entry-empty ip dev inum d u e free closed =
    let there : (ip == 0) ≡ false = ground (arith, e.0) in
    let v : Inode = record (d.inode ip) { dev = dev; inum = inum; ref = 1; valid = 0 } in
    let self : update d.inode ip v ip ≡ v = update_self d.inode ip v in
    rw (there, self)
      (
        e,
        (omega arith, refl, refl),
        IsUnique-update d.inode ip v u (λ j ej ne. closed j ej),
        refl,
        inr (free, closed, refl),
      )

iget_entry-full :
    (dev inum : ℕ) (d : Disk)
    → ((j : ℕ) → IsEntry j → 0 < (d.inode j).ref)
    → ((j : ℕ) → IsEntry j → ¬ IsOpen (d.inode j) dev inum)
    → IsGotten dev inum d (iget_entry 0 0 dev inum d)
unfolding iget_entry
iget_entry-full dev inum d used closed = λ j e. (used j e, closed j e)

-- If no inode has two entries in use, then `iget` returns an entry of the inode asked for, in use,
-- with one more reference: the entry that held it, or else one that was free, which is not valid
-- yet. Still no inode has two entries, and nothing else of the state changes. The call panics only
-- when all entries are in use and none is of this inode.
pub iget-IsGotten :
    (dev inum : ℕ) (d : Disk) → IsUnique d.inode → IsGotten dev inum d (iget dev inum d)
unfolding iget
iget-IsGotten dev inum d u = elim (iget_find_lem ninode 1 dev inum d.inode) [
  | inr found ↦
      iget_entry-found (iget_find ninode 1 dev inum d.inode) (iget_empty ninode 1 d.inode) dev inum
        d u (found.0, omega (arith, found.1)) found.2
  | inl missing ↦
      let closed : (j : ℕ) → IsEntry j → ¬ IsOpen (d.inode j) dev inum =
        λ j e. missing.1 j e.0 (omega (arith, e.1)) in
      rw missing.0 (elim (iget_empty_lem ninode 1 d.inode) [
        | inl full ↦
            rw full.0 (iget_entry-full dev inum d (λ j e. full.1 j e.0 (omega (arith, e.1))) closed)
        | inr empty ↦
            iget_entry-empty (iget_empty ninode 1 d.inode) dev inum d u
              (empty.0, omega (arith, empty.1)) empty.2 closed
      ])
]
