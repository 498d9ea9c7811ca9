-- ===== src/Files/Close.antt =====
-- The reference counts of open files under `sys_close`.
use xv6_riscv_cs.Base.{
  ==_iff, Bool, Bool-cases, Option, Option-cases, ap, arith, false, false≢true, inl, inr, leb, ltb,
  ltb→lt, none, refl, some, subst, sym, true, update, ℕ, ◌+◌, ◌-◌, ◌<◌, ◌==◌, ◌∙◌, ◌≡◌, ◌≢◌, ◌≤◌,
  ◌⊎◌,
}
use xv6_riscv_cs.Files.{
  ◌>>=◌, give, System, File, FileType, fd_none, fd_pipe, fd_inode, fd_device, fileclose, close_last,
  is_on_disk, on_disk, with_disk,
}
use xv6_riscv_cs.Fs.Inodes.{iput}
use xv6_riscv_cs.Files.References.{
  IsCounted, count_fds, count_fds-update, count_fds_pos, tally, tally_ne, tally_self,
}
use xv6_riscv_cs.Proc.Exit.{nofile}
use xv6_riscv_cs.Files.Descriptors.{argfd, sys_close}
use xv6_riscv_cs.Virtio.{fails}

-- The system that `s` becomes when the last reference goes; only a panic in `iput` stops it.
abbrev IsClosedLast : File → System → Option (Unit {0} × System) → Type 0
IsClosedLast v s r =
    ((r ≡ none) × (is_on_disk v.type ≡ true) × (iput v.ip s.disk ≡ none))
    ⊎ ((s' : System) × (r ≡ some (tt, s')) × (s'.file ≡ s.file) × (s'.ofile ≡ s.ofile))

on_disk-IsClosedLast :
    (v : File) (s : System) → is_on_disk v.type ≡ true → IsClosedLast v s (on_disk (iput v.ip) s)
on_disk-IsClosedLast v s h = elim (Option-cases (iput v.ip s.disk)) [
  | inl fails ↦ inl (ap (with_disk s) fails, h, fails)
  | inr ((u, d), e) ↦ inr (record s { disk = d }, ap (with_disk s) e, refl, refl)
]

close_last-IsClosedLast :
    (t : FileType) (v : File) (s : System) → v.type ≡ t → IsClosedLast v s (close_last t v s)
unfolding close_last
close_last-IsClosedLast fd_none v s e = inr (s, refl, refl, refl)
close_last-IsClosedLast fd_pipe v s e = inr (_, refl, refl, refl)
close_last-IsClosedLast fd_inode v s e = on_disk-IsClosedLast v s (ap is_on_disk e)
close_last-IsClosedLast fd_device v s e = on_disk-IsClosedLast v s (ap is_on_disk e)

fewer_refs : ℕ → System → System
fewer_refs f s = record s {
  file = update s.file f (record (s.file f) { ref = (s.file f).ref - 1 });
}

no_refs : ℕ → System → System
unfolding fewer_refs
no_refs f s = record s {
  file = update (fewer_refs f s).file f (record (s.file f) { ref = 0; type = fd_none });
}

fileclose-some :
    (f : ℕ) (s : System) → 1 < (s.file f).ref → fileclose f s ≡ some (tt, fewer_refs f s)
unfolding fileclose fewer_refs
fileclose-some f s h = ground arith

fileclose-last :
    (f : ℕ) (s : System)
    → (s.file f).ref ≡ 1
    → fileclose f s ≡ close_last (s.file f).type (s.file f) (no_refs f s)
unfolding fileclose no_refs
fileclose-last f s h = ground arith

one_less-IsCounted :
    (others : ℕ → ℕ) (arg : ℕ) (s s' : System)
    → IsCounted others s
    → arg < nofile
    → (s'.file (s.ofile arg)).ref + 1 ≡ (s.file (s.ofile arg)).ref
    → ((g : ℕ) → s.ofile arg ≢ g → (s'.file g).ref ≡ (s.file g).ref)
    → s'.ofile ≡ update s.ofile arg 0
    → IsCounted others s'
one_less-IsCounted others arg s s' counted lt less same e g pos =
    let sum = count_fds-update nofile arg g 0 s.ofile lt in
    let none_new = tally_ne 0 g (λ z. omega (arith, z, pos)) in
    let table = ap (count_fds nofile g) e in
    elim (Bool-cases (s.ofile arg == g)) [
      | inl at_g ↦
          let e' : s.ofile arg ≡ g = (==_iff _ g).0 at_g in
          omega (
            arith,
            sum,
            none_new,
            table,
            less,
            ap (λ x. (s'.file x).ref) e',
            ap (λ x. (s.file x).ref) e',
            counted g pos,
            ap (λ x. tally x g) e',
            tally_self g,
          )
      | inr other ↦
          let ne : s.ofile arg ≢ g = ground arith in
          omega (arith, sum, none_new, table, same g ne, counted g pos, tally_ne (s.ofile arg) g ne)
    ]

-- What a call of `sys_close` gives.
abbrev pub IsClosed : (ℕ → ℕ) → ℕ → System → Option (Bool × System) → Type 0
IsClosed others arg s none =
    (is_on_disk (s.file (s.ofile arg)).type ≡ true)
    × ((s.file (s.ofile arg)).ref ≡ 1)
    × (iput (s.file (s.ofile arg)).ip s.disk ≡ none)
IsClosed others arg s (some (false, s')) = (s' ≡ s) × ((nofile ≤ arg) ⊎ (s.ofile arg ≡ 0))
IsClosed others arg s (some (true, s')) =
    (s'.ofile ≡ update s.ofile arg 0)
    × IsCounted others s'
    × ((1 < (s.file (s.ofile arg)).ref × (s'.disk ≡ s.disk) × (s'.pipes ≡ s.pipes))
        ⊎ (((s.file (s.ofile arg)).ref ≡ 1) × ((s'.file (s.ofile arg)).type ≡ fd_none)))

fewer_refs_self : (f : ℕ) (s : System) → ((fewer_refs f s).file f).ref ≡ (s.file f).ref - 1
unfolding fewer_refs
fewer_refs_self f s = ground arith

fewer_refs_ne : (f g : ℕ) (s : System) → f ≢ g → ((fewer_refs f s).file g).ref ≡ (s.file g).ref
unfolding fewer_refs
fewer_refs_ne f g s h = ground arith

no_refs_self :
    (f : ℕ) (s : System)
    → (((no_refs f s).file f).ref ≡ 0) × (((no_refs f s).file f).type ≡ fd_none)
unfolding no_refs
no_refs_self f s = (ground arith, ground arith)

no_refs_ne : (f g : ℕ) (s : System) → f ≢ g → ((no_refs f s).file g).ref ≡ (s.file g).ref
unfolding no_refs
no_refs_ne f g s h = ground arith

close_done :
    (others : ℕ → ℕ) (arg : ℕ) (s : System)
    → IsCounted others s
    → arg < nofile
    → (s.file (s.ofile arg)).ref ≡ 1
    → let s2 = no_refs (s.ofile arg) (record s { ofile = update s.ofile arg 0 }) in
      (r : Option (Unit {0} × System))
      → IsClosedLast (s.file (s.ofile arg)) s2 r
      → IsClosed others arg s (((λ (x : System). r) >>= λ u. give true) s2)
unfolding no_refs
close_done others arg s counted lt one r (inl (e, on, fails)) = rw e (on, one, fails)
close_done others arg s counted lt one r (inr (s', e, same_file, same_fds)) =
    let f = s.ofile arg in
    let s1 : System = record s { ofile = update s.ofile arg 0 } in
    rw e (
      same_fds,
      one_less-IsCounted others arg s s' counted lt
          (omega (arith, ap (λ (t : ℕ → File). (t f).ref) same_file, (no_refs_self f s1).0, one))
          (λ g ne. ap (λ (t : ℕ → File). (t g).ref) same_file ∙ no_refs_ne f g s1 ne) same_fds,
      inr (one, ap (λ (t : ℕ → File). (t f).type) same_file ∙ (no_refs_self f s1).1),
    )

close_open :
    (others : ℕ → ℕ) (arg : ℕ) (s : System)
    → IsCounted others s
    → arg < nofile
    → s.ofile arg ≢ 0
    → IsClosed others arg s
        ((fileclose (s.ofile arg) >>= λ u. give true) (record s { ofile = update s.ofile arg 0 }))
unfolding fewer_refs
close_open others arg s counted lt ne =
    let f = s.ofile arg in
    let s1 : System = record s { ofile = update s.ofile arg 0 } in
    let pos = count_fds_pos nofile arg s.ofile lt in
    let has_ref : 0 < (s.file f).ref = omega (arith, counted f (omega (arith, ne)), pos) in
    let result = λ (r : Option (Unit {0} × System)).
      IsClosed others arg s (((λ (x : System). r) >>= λ u. give true) s1) in
    elim (Bool-cases (ltb 1 (s.file f).ref)) [
      | inl shared ↦
          let many : 1 < (s.file f).ref = ltb→lt _ _ shared in
          subst result (sym (fileclose-some f s1 many)) (
            refl,
            one_less-IsCounted others arg s (fewer_refs f s1) counted lt
                (omega (arith, fewer_refs_self f s1, many)) (λ g other. fewer_refs_ne f g s1 other)
                refl,
            inl (many, refl, refl),
          )
      | inr single ↦
          let one : (s.file f).ref ≡ 1 = ground (arith, has_ref) in
          subst result (sym (fileclose-last f s1 one)) (
            close_done others arg s counted lt one
              (close_last (s.file f).type (s.file f) (no_refs f s1))
              (close_last-IsClosedLast (s.file f).type (s.file f) (no_refs f s1) refl))
    ]

-- `sys_close` keeps the reference counts right. It frees the descriptor, and the file too if that
-- was the last reference; otherwise the file system and the pipes stay as they are. It fails, and
-- then changes nothing, only if its argument is not an open descriptor, and it panics only where
-- `iput` does, for the last reference to a file of the file system.
pub sys_close-IsClosed :
    (others : ℕ → ℕ) (arg : ℕ) (s : System)
    → IsCounted others s
    → IsClosed others arg s (sys_close arg s)
unfolding sys_close argfd
sys_close-IsClosed others arg s counted = elim (Bool-cases (leb nofile arg)) [
  | inl large ↦ rw large (refl, inl (ground arith))
  | inr small ↦ elim (Bool-cases (s.ofile arg == 0)) [
    | inl closed ↦ rw (small, closed) (refl, inr ((==_iff _ 0).0 closed))
    | inr is_open ↦
        let ne : s.ofile arg ≢ 0 = λ z. false≢true (sym is_open ∙ (==_iff _ 0).1 z) in
        rw (small, is_open) (close_open others arg s counted (ground arith) ne)
  ]
]
