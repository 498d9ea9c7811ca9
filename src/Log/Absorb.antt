-- ===== src/Log/Absorb.antt =====
-- Theorems of `log_write`: absorption, and the room that `begin_op` reserves.
use xv6_riscv_cs.Base.{
  ==_iff, Bool-cases, ap, arith, false, inl, inr, leb, ltb, refl, some, suc, sym, true, update,
  zero, ℕ, ◌%◌, ◌+◌, ◌<◌, ◌==◌, ◌^◌, ◌∙◌, ◌≡◌, ◌≢◌, ◌≤◌, ◌⊎◌,
}
use xv6_riscv_cs.Log.{Log, logblocks, find_entry, log_write, bpin}
use xv6_riscv_cs.Log.Install.{HasHomes}
use xv6_riscv_cs.Log.Copy.{IsHome}

find_entry_lem :
    (r i b : ℕ) (block : ℕ → ℕ)
    → ((find_entry r i b block < i + r)
        × (i ≤ find_entry r i b block)
        × (block (find_entry r i b block) ≡ b))
      ⊎ ((find_entry r i b block ≡ i + r) × ((j : ℕ) → i ≤ j → j < i + r → block j ≢ b))
unfolding find_entry
find_entry_lem zero i b block = inr (omega arith, λ j lo hi. absurd (omega arith))
find_entry_lem (suc r) i b block = elim (Bool-cases (block i == b)) [
  | inl here ↦ rw here (inl (omega arith, omega arith, (==_iff _ _).0 here))
  | inr other ↦ rw other (elim (find_entry_lem r (i + 1) b block) [
    | inl found ↦ inl (omega (arith, found.0), omega (arith, found.1), found.2)
    | inr missing ↦ inr (
      omega (arith, missing.0),
      λ j lo hi. elim (Bool-cases (i == j)) [
        | inl same ↦ ground arith
        | inr later ↦ missing.1 j (ground arith) (omega arith)
      ],
    )
  ])
]

-- What a successful `log_write` does to the header in memory.
pub record Logged (b : ℕ) (s s' : Log) : Type 0 where
  pub start : s'.start ≡ s.start
  pub outstanding : s'.outstanding ≡ s.outstanding
  pub blocks : (s'.mem ≡ s.mem) × (s'.disk ≡ s.disk)
  pub entry : (j : ℕ) × (j < s'.n) × (s'.block j ≡ b)
  pub kept : (j : ℕ) → j < s.n → s'.block j ≡ s.block j
  pub absorbed :
      ((s'.n ≡ s.n) × (s'.refcnt ≡ s.refcnt) × ((j : ℕ) × (j < s.n) × (s.block j ≡ b)))
      ⊎ ((s'.n ≡ s.n + 1)
          × ((j : ℕ) → j < s.n → s.block j ≢ b)
          × (s'.block s.n ≡ b)
          × (s'.refcnt ≡ update s.refcnt b ((s.refcnt b + 1) % 2 ^ 32)))

-- Within a transaction and with room in the log `log_write` does not panic. It leaves the block
-- noted once: a block that is noted already takes no new entry, another one takes the next entry
-- and is pinned once. The other reference counts and the entries from before stay, and no block is
-- written.
pub log_write-Logged :
    (b : ℕ) (s : Log)
    → s.n < logblocks
    → 1 ≤ s.outstanding
    → (s' : Log) × (log_write b s ≡ some s') × Logged b s s'
unfolding log_write
log_write-Logged b s room open_op =
    let fits : leb logblocks s.n ≡ false = ground arith in
    let inside : ltb s.outstanding 1 ≡ false = ground arith in
    rw (fits, inside)
      (elim (find_entry_lem s.n 0 b s.block) [
        | inl found ↦
            let i = find_entry s.n 0 b s.block in
            let old : (i == s.n) ≡ false = ground (arith, found.0) in
            rw old (
              _,
              refl,
              record {
                start = refl;
                outstanding = refl;
                blocks = (refl, refl);
                entry = (i, omega (arith, found.0), ground arith);
                kept = λ j lt. ground (arith, found.2);
                absorbed = inl (refl, refl, (i, omega (arith, found.0), found.2));
              },
            )
        | inr missing ↦
            let i = find_entry s.n 0 b s.block in
            let new : (i == s.n) ≡ true = ground (arith, missing.0) in
            rw new (
              _,
              refl,
              unfold bpin in
                  record {
                    start = refl;
                    outstanding = refl;
                    blocks = (refl, refl);
                    entry = (s.n, omega arith, ground (arith, missing.0));
                    kept = λ j lt. ground (arith, missing.0);
                    absorbed = inr (
                      refl,
                      λ j lt. missing.1 j (omega arith) (omega arith),
                      ground (arith, missing.0),
                      refl,
                    );
                  },
            )
      ])

-- `log_write` keeps the entries distinct and outside the log.
pub Logged-HasHomes :
    (b : ℕ) (s s' : Log)
    → Logged b s s'
    → IsHome s.start b
    → s.n < logblocks
    → HasHomes s.start s.block 0 s.n
    → HasHomes s'.start s'.block 0 s'.n
Logged-HasHomes b s s' l home room h = elim l.absorbed [
  | inl old ↦ record {
    home = λ j lo hi.
        rw (l.start, l.kept j (omega (arith, old.0))) (h.home j lo (omega (arith, old.0)));
    distinct = λ i j a c d e same.
        h.distinct i j a (omega (arith, old.0)) d (omega (arith, old.0))
          (sym (l.kept i (omega (arith, old.0))) ∙ same ∙ l.kept j (omega (arith, old.0)));
    fits = omega (arith, old.0, h.fits);
  }
  | inr new ↦ record {
    home = λ j lo hi. elim (Bool-cases (j == s.n)) [
      | inl last ↦ rw (l.start, (==_iff j s.n).0 last, new.2) home
      | inr before ↦
          let lt : j < s.n = ground (arith, new.0) in
          rw (l.start, l.kept j lt) (h.home j lo (omega arith))
    ];
    distinct = λ i j a c d e same. elim (Bool-cases (i == s.n)) [
      | inl i_last ↦ elim (Bool-cases (j == s.n)) [
        | inl j_last ↦ ground arith
        | inr j_old ↦
            let lt : j < s.n = ground (arith, new.0) in
            let i_new : i ≡ s.n = (==_iff i s.n).0 i_last in
            absurd (new.1 j lt (sym (l.kept j lt) ∙ sym same ∙ ap s'.block i_new ∙ new.2))
      ]
      | inr i_old ↦
          let lt : i < s.n = ground (arith, new.0) in
          elim (Bool-cases (j == s.n)) [
            | inl j_last ↦
                let j_new : j ≡ s.n = (==_iff j s.n).0 j_last in
                absurd (new.1 i lt (sym (l.kept i lt) ∙ same ∙ ap s'.block j_new ∙ new.2))
            | inr j_old ↦
                let lt' : j < s.n = ground (arith, new.0) in
                h.distinct i j a (omega arith) d (omega arith)
                  (sym (l.kept i lt) ∙ same ∙ l.kept j lt')
          ]
    ];
    fits = omega (arith, new.0);
  }
]
