-- ===== src/Files/References.antt =====
-- The reference counts of open files under `sys_dup` and `sys_close`.
use xv6_riscv_cs.Base.{
  ==_iff, Bool-cases, Option, ap, ap₂, arith, false≢true, if◌then◌else◌, inl, inr, leb, none, refl,
  some, subst, suc, sym, update, update_ne, zero, ℕ, ◌+◌, ◌<◌, ◌==◌, ◌∙◌, ◌≡◌, ◌≢◌, ◌≤◌, ◌⊎◌,
}
use xv6_riscv_cs.Files.{◌>>=◌, System, filedup}
use xv6_riscv_cs.Files.Descriptors.{free_fd, dup_to, argfd, fdalloc, sys_dup, take_fd}
use xv6_riscv_cs.Proc.Exit.{nofile}
use xv6_riscv_cs.Fs.Blocks.Bitmap.{taken}

-- 1 for the same file, or 0.
pub tally : ℕ → ℕ → ℕ
tally a f = if a == f then 1 else 0

-- How many of the first `n` descriptors are open on the file `f`.
abbrev pub count_fds : ℕ → ℕ → (ℕ → ℕ) → ℕ
count_fds zero f ofile = 0
count_fds (suc n) f ofile = tally (ofile n) f + count_fds n f ofile

-- The count of a file is the number of the process's descriptors on it and of `others`, the
-- references from other processes.
abbrev pub IsCounted : (ℕ → ℕ) → System → Type 0
IsCounted others s = (f : ℕ) → 0 < f → (s.file f).ref ≡ count_fds nofile f s.ofile + others f

count_fds-above :
    (n fd f g : ℕ) (ofile : ℕ → ℕ)
    → n ≤ fd
    → count_fds n f (update ofile fd g) ≡ count_fds n f ofile
count_fds-above zero fd f g ofile h = refl
count_fds-above (suc n) fd f g ofile h =
    let off = update_ne ofile fd n g (λ e. omega (arith, e, h)) in
    let rest = count_fds-above n fd f g ofile (omega arith) in ap₂ (λ x y. tally x f + y) off rest

pub count_fds-update :
    (n fd f g : ℕ) (ofile : ℕ → ℕ)
    → fd < n
    → count_fds n f (update ofile fd g) + tally (ofile fd) f ≡ count_fds n f ofile + tally g f
count_fds-update zero fd f g ofile h = absurd (omega arith)
count_fds-update (suc n) fd f g ofile h = elim (Bool-cases (fd == n)) [
  | inl here ↦
      let e : fd ≡ n = (==_iff fd n).0 here in
      let set : update ofile fd g n ≡ g = rw here refl in
      omega (
        arith,
        ap (λ x. tally x f) set,
        ap (λ x. tally (ofile x) f) e,
        count_fds-above n fd f g ofile (omega (arith, e)),
      )
  | inr other ↦ omega (
    arith,
    ap (λ x. tally x f) (update_ne ofile fd n g (ground arith)),
    count_fds-update n fd f g ofile (ground arith),
  )
]

pub tally_self : (f : ℕ) → tally f f ≡ 1
unfolding tally
tally_self f = ground arith

pub tally_ne : (a f : ℕ) → a ≢ f → tally a f ≡ 0
unfolding tally
tally_ne a f h = ground arith

pub count_fds_pos : (n fd : ℕ) (ofile : ℕ → ℕ) → fd < n → 0 < count_fds n (ofile fd) ofile
count_fds_pos zero fd ofile h = absurd (omega arith)
count_fds_pos (suc n) fd ofile h = elim (Bool-cases (fd == n)) [
  | inl here ↦
      let e : ofile n ≡ ofile fd = ap ofile (sym ((==_iff fd n).0 here)) in
      omega (arith, ap (λ x. tally x (ofile fd)) e, tally_self (ofile fd))
  | inr other ↦ omega (arith, count_fds_pos n fd ofile (ground arith))
]

free_fd_lem :
    (n fd : ℕ) (ofile : ℕ → ℕ)
    → ((free_fd n fd ofile ≡ none) × ((j : ℕ) → fd ≤ j → j < fd + n → ofile j ≢ 0))
      ⊎ ((r : ℕ) × (free_fd n fd ofile ≡ some r)
          × (fd ≤ r)
          × (r < fd + n)
          × (ofile r ≡ 0)
          × ((j : ℕ) → fd ≤ j → j < r → ofile j ≢ 0))
unfolding free_fd
free_fd_lem zero fd ofile = inl (refl, λ j a b. absurd (omega arith))
free_fd_lem (suc n) fd ofile = elim (Bool-cases (ofile fd == 0)) [
  | inl here ↦
      rw here (
        inr
          (fd, refl, omega arith, omega arith, (==_iff _ 0).0 here, λ j a b. absurd (omega arith)))
  | inr taken ↦ rw taken (elim (free_fd_lem n (fd + 1) ofile) [
    | inl (e, all) ↦ inl (
      e,
      λ j a b. elim (Bool-cases (fd == j)) [
        | inl same ↦ ground arith
        | inr later ↦ all j (ground arith) (omega arith)
      ],
    )
    | inr (r, e, lo, hi, zero_there, before) ↦ inr (
      r,
      e,
      omega arith,
      omega arith,
      zero_there,
      λ j a b. elim (Bool-cases (fd == j)) [
        | inl same ↦ ground arith
        | inr later ↦ before j (ground arith) b
      ],
    )
  ])
]

-- What a call of `sys_dup` gives.
abbrev pub IsDuplicated : (ℕ → ℕ) → ℕ → System → Option (Option ℕ × System) → Type 0
IsDuplicated others arg s none = ⊥
IsDuplicated others arg s (some (none, s')) =
    (s' ≡ s) × ((nofile ≤ arg) ⊎ (s.ofile arg ≡ 0) ⊎ ((j : ℕ) → j < nofile → s.ofile j ≢ 0))
IsDuplicated others arg s (some (some fd, s')) =
    (fd < nofile)
    × (s.ofile fd ≡ 0)
    × ((j : ℕ) → j < fd → s.ofile j ≢ 0)
    × (s'.ofile ≡ update s.ofile fd (s.ofile arg))
    × (s'.disk ≡ s.disk)
    × IsCounted others s'

abbrev one_more : ℕ → System → System
one_more f s = record s { file = update s.file f (record (s.file f) { ref = (s.file f).ref + 1 }) }

dup_to_lem :
    (f fd : ℕ) (s : System)
    → 0 < (s.file f).ref
    → dup_to f (some fd) s ≡ some (some fd, one_more f s)
unfolding filedup
dup_to_lem f fd s h = ground arith

one_more-IsCounted :
    (others : ℕ → ℕ) (fd f : ℕ) (s : System)
    → IsCounted others s
    → fd < nofile
    → s.ofile fd ≡ 0
    → IsCounted others (one_more f (record s { ofile = update s.ofile fd f }))
one_more-IsCounted others fd f s counted lt free g pos =
    let sum = count_fds-update nofile fd g f s.ofile lt in
    let gone : tally (s.ofile fd) g ≡ 0 = tally_ne (s.ofile fd) g (λ e. omega (arith, e, free)) in
    elim (Bool-cases (f == g)) [
      | inl same ↦
          let e : f ≡ g = (==_iff f g).0 same in
          let ref : (update s.file f (record (s.file f) { ref = (s.file f).ref + 1 }) g).ref
              ≡ (s.file f).ref + 1 =
            rw same refl in
          omega (
            arith,
            sum,
            gone,
            ref,
            ap (λ x. (s.file x).ref) e,
            counted g pos,
            ap (λ x. tally x g) e,
            tally_self g,
          )
      | inr other ↦
          let ne : f ≢ g = ground arith in
          let ref : (update s.file f (record (s.file f) { ref = (s.file f).ref + 1 }) g).ref
              ≡ (s.file g).ref =
            rw other refl in
          omega (arith, sum, gone, ref, counted g pos, tally_ne f g ne)
    ]

dup_found :
    (others : ℕ → ℕ) (arg fd : ℕ) (s : System)
    → IsCounted others s
    → arg < nofile
    → s.ofile arg ≢ 0
    → fd < nofile
    → s.ofile fd ≡ 0
    → ((j : ℕ) → 0 ≤ j → j < fd → s.ofile j ≢ 0)
    → IsDuplicated others arg s
        (dup_to (s.ofile arg) (some fd) (record s { ofile = update s.ofile fd (s.ofile arg) }))
dup_found others arg fd s counted lt ne lt_fd free before =
    let f = s.ofile arg in
    let s1 : System = record s { ofile = update s.ofile fd f } in
    let pos = count_fds_pos nofile arg s.ofile lt in
    subst (IsDuplicated others arg s)
      (sym (dup_to_lem f fd s1 (omega (arith, counted f (omega (arith, ne)), pos))))
      (
        lt_fd,
        free,
        λ j l. before j (omega arith) l,
        refl,
        refl,
        one_more-IsCounted others fd f s counted lt_fd free,
      )

-- `sys_dup` does not panic where the counts are right, and keeps them right. It opens the first
-- free descriptor on the file of its argument. It fails, and then changes nothing, only if the
-- argument is not an open descriptor or all descriptors are in use.
pub sys_dup-IsDuplicated :
    (others : ℕ → ℕ) (arg : ℕ) (s : System)
    → IsCounted others s
    → IsDuplicated others arg s (sys_dup arg s)
unfolding sys_dup argfd fdalloc
sys_dup-IsDuplicated others arg s counted = elim (Bool-cases (leb nofile arg)) [
  | inl large ↦ rw large (refl, inl (ground arith))
  | inr small ↦ elim (Bool-cases (s.ofile arg == 0)) [
    | inl closed ↦ rw (small, closed) (refl, inr (inl ((==_iff _ 0).0 closed)))
    | inr is_open ↦
        let ne : s.ofile arg ≢ 0 = λ z. false≢true (sym is_open ∙ (==_iff _ 0).1 z) in
        let f = s.ofile arg in
        let result = λ (o : Option ℕ). IsDuplicated others arg s ((take_fd f o >>= dup_to f) s) in
        rw (small, is_open)
          (elim (free_fd_lem nofile 0 s.ofile) [
            | inl (full, all) ↦
                subst result (sym full)
                  (refl, inr (inr (λ j lt. all j (omega arith) (omega arith))))
            | inr (fd, e, lo, hi, free, before) ↦ subst result (sym e) (
                dup_found others arg fd s counted (ground arith) ne (omega (arith, hi)) free before)
          ])
  ]
]
