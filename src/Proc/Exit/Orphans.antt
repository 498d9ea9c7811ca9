-- ===== src/Proc/Exit/Orphans.antt =====
-- Theorems of `kexit`: the zombie, its children and its parent.
use xv6_riscv_cs.Base.{
  Bool-cases, List, [], ap, arith, if◌then◌else◌, inl, inr, leb, ltb, refl, slice, slice_congr,
  some, suc, update, update_ne, zero, ℕ, ◌&&◌, ◌++◌, ◌+◌, ◌<◌, ◌==◌, ◌∙◌, ◌∷◌, ◌≡◌, ◌≢◌, ◌≤◌, ◌⊎◌,
}
use mathlib.Core.List.{map}
use xv6_riscv_cs.Proc.{Proc, Kernel, nproc, set_proc, State}
use xv6_riscv_cs.Proc.Exit.{
  reparent, reparent_loop, reparent_one, close_files, become_zombie, kexit, leave_family, nofile,
  release_files,
}
use xv6_riscv_cs.Proc.Queue.{push_proc}
use xv6_riscv_cs.Proc.Sleep.{wakeup, wakeup_loop, wakeup_one}
use xv6_riscv_cs.Proc.Sleep.Wake.{wakeup-proc}
use xv6_riscv_cs.Proc.Alloc.{Call, fileclose, begin_op, iput, end_op}

abbrev parents : Kernel → ℕ → ℕ
parents k p = (k.proc p).parent

wakeup-parent : (chan me : ℕ) (k : Kernel) (j : ℕ) → parents (wakeup chan me k) j ≡ parents k j
wakeup-parent chan me k j = ground (arith, wakeup-proc chan me k j)

wakeup_loop-initproc :
    (n p chan me : ℕ) (k : Kernel) → (wakeup_loop n p chan me k).initproc ≡ k.initproc
unfolding wakeup_loop wakeup_one push_proc
wakeup_loop-initproc zero p chan me k = refl
wakeup_loop-initproc (suc n) p chan me k =
    ground (arith, wakeup_loop-initproc n (p + 1) chan me (wakeup_one chan me p k))

wakeup-initproc : (chan me : ℕ) (k : Kernel) → (wakeup chan me k).initproc ≡ k.initproc
unfolding wakeup
wakeup-initproc chan me k = wakeup_loop-initproc nproc 1 chan me k

reparent_one-initproc : (p q : ℕ) (k : Kernel) → (reparent_one p q k).initproc ≡ k.initproc
unfolding reparent_one
reparent_one-initproc p q k =
    ground (
      arith,
      wakeup-initproc k.initproc p (set_proc q (record (k.proc q) { parent = k.initproc }) k),
    )

reparent_one-parent :
    (p q : ℕ) (k : Kernel) (j : ℕ)
    → parents (reparent_one p q k) j
      ≡ (if (q == j) && (parents k j == p) then k.initproc else parents k j)
unfolding reparent_one
reparent_one-parent p q k j =
    ground (
      arith,
      wakeup-parent k.initproc p (set_proc q (record (k.proc q) { parent = k.initproc }) k) j,
    )

reparent_loop-parent :
    (n q p : ℕ) (k : Kernel) (j : ℕ)
    → parents (reparent_loop n q p k) j
      ≡ (if (leb q j && ltb j (q + n)) && (parents k j == p) then k.initproc else parents k j)
unfolding reparent_loop
reparent_loop-parent zero q p k j = ground arith
reparent_loop-parent (suc n) q p k j = ground (
  arith,
  reparent_loop-parent n (q + 1) p (reparent_one p q k) j,
  reparent_one-parent p q k j,
  reparent_one-initproc p q k,
)

-- `reparent` hands exactly the children of the process to init.
pub reparent-parent :
    (p : ℕ) (k : Kernel) (j : ℕ)
    → ((reparent p k).proc j).parent ≡ (
        if (leb 1 j && ltb j (1 + nproc)) && ((k.proc j).parent == p)
        then k.initproc
        else (k.proc j).parent)
unfolding reparent
reparent-parent p k j = reparent_loop-parent nproc 1 p k j

close_files-clears :
    (n fd : ℕ) (ofile : ℕ → ℕ) (j : ℕ)
    → (close_files n fd ofile).0 j ≡ (if leb fd j && ltb j (fd + n) then 0 else ofile j)
unfolding close_files
close_files-clears zero fd ofile j = ground arith
close_files-clears (suc n) fd ofile j =
    ground
      (arith, close_files-clears n (fd + 1) (if ofile fd == 0 then ofile else update ofile fd 0) j)

-- Between two kernels a process is as before, or has been made runnable.
abbrev Woken : Kernel → Kernel → ℕ → Type 0
Woken k k' j =
    (((k'.proc j).state ≡ (k.proc j).state) × ((k'.proc j).chan ≡ (k.proc j).chan))
    ⊎ ((k'.proc j).state ≡ State.runnable)

Woken-wakeup : (chan me : ℕ) (k : Kernel) (j : ℕ) → Woken k (wakeup chan me k) j
Woken-wakeup chan me k j = ground (arith, wakeup-proc chan me k j)

Woken-trans : (k k' k'' : Kernel) (j : ℕ) → Woken k k' j → Woken k' k'' j → Woken k k'' j
Woken-trans k k' k'' j f g = ground arith

Woken-reparent_one : (p q : ℕ) (k : Kernel) (j : ℕ) → Woken k (reparent_one p q k) j
unfolding reparent_one
Woken-reparent_one p q k j =
    ground (
      arith,
      Woken-wakeup k.initproc p (set_proc q (record (k.proc q) { parent = k.initproc }) k) j,
    )

Woken-reparent_loop : (n q p : ℕ) (k : Kernel) (j : ℕ) → Woken k (reparent_loop n q p k) j
unfolding reparent_loop
Woken-reparent_loop zero q p k j = inl (refl, refl)
Woken-reparent_loop (suc n) q p k j =
    Woken-trans k (reparent_one p q k) (reparent_loop n (q + 1) p (reparent_one p q k)) j
      (Woken-reparent_one p q k j) (Woken-reparent_loop n (q + 1) p (reparent_one p q k) j)

reparent_loop-initproc : (n q p : ℕ) (k : Kernel) → (reparent_loop n q p k).initproc ≡ k.initproc
unfolding reparent_loop
reparent_loop-initproc zero q p k = refl
reparent_loop-initproc (suc n) q p k =
    reparent_loop-initproc n (q + 1) p (reparent_one p q k) ∙ reparent_one-initproc p q k

Woken-reparent : (p : ℕ) (k : Kernel) (j : ℕ) → Woken k (reparent p k) j
unfolding reparent
Woken-reparent p k j = Woken-reparent_loop nproc 1 p k j

leave_family-parent :
    (p : ℕ) (k : Kernel) (j : ℕ)
    → ((leave_family p k).proc j).parent ≡ (
        if (leb 1 j && ltb j (1 + nproc)) && ((k.proc j).parent == p)
        then k.initproc
        else (k.proc j).parent)
unfolding leave_family
leave_family-parent p k j =
    wakeup-parent ((reparent p k).proc p).parent p (reparent p k) j ∙ reparent-parent p k j

-- What a process has of the file system.
abbrev files : Proc → (ℕ → ℕ) × ℕ
files r = (r.ofile, r.cwd)

wakeup-files :
    (chan me : ℕ) (k : Kernel) (j : ℕ) → files ((wakeup chan me k).proc j) ≡ files (k.proc j)
wakeup-files chan me k j = ground (arith, wakeup-proc chan me k j)

reparent_one-files :
    (p q : ℕ) (k : Kernel) (j : ℕ) → files ((reparent_one p q k).proc j) ≡ files (k.proc j)
unfolding reparent_one
reparent_one-files p q k j =
    ground (
      arith,
      wakeup-files k.initproc p (set_proc q (record (k.proc q) { parent = k.initproc }) k) j,
    )

reparent_loop-files :
    (n q p : ℕ) (k : Kernel) (j : ℕ) → files ((reparent_loop n q p k).proc j) ≡ files (k.proc j)
unfolding reparent_loop
reparent_loop-files zero q p k j = refl
reparent_loop-files (suc n) q p k j =
    reparent_loop-files n (q + 1) p (reparent_one p q k) j ∙ reparent_one-files p q k j

leave_family-files :
    (p : ℕ) (k : Kernel) (j : ℕ) → files ((leave_family p k).proc j) ≡ files (k.proc j)
unfolding leave_family reparent
leave_family-files p k j =
    wakeup-files ((reparent p k).proc p).parent p (reparent p k) j
    ∙ reparent_loop-files nproc 1 p k j

abbrev nonzero : List ℕ → List ℕ
nonzero [] = []
nonzero (f ∷ fs) = if f == 0 then nonzero fs else f ∷ nonzero fs

-- The files that are open among `n` descriptors from `fd` on, in their order.
unfoldable pub open_files : ℕ → ℕ → (ℕ → ℕ) → List ℕ
open_files n fd ofile = nonzero (slice ofile fd n)

close_files-calls :
    (n fd : ℕ) (ofile : ℕ → ℕ) → (close_files n fd ofile).1 ≡ map fileclose (open_files n fd ofile)
unfolding close_files open_files
close_files-calls zero fd ofile = refl
close_files-calls (suc n) fd ofile = elim (Bool-cases (ofile fd == 0)) [
  | inl closed ↦ rw closed (close_files-calls n (fd + 1) ofile)
  | inr is_open ↦ rw is_open (
      ap (◌∷◌ (fileclose (ofile fd))) (
        close_files-calls n (fd + 1) (update ofile fd 0)
        ∙ ap (λ fs. map fileclose (nonzero fs))
            (slice_congr (update ofile fd 0) ofile (fd + 1) n
              (λ j a b. update_ne ofile fd j 0 (λ e. omega (arith, e, a))))))
]

kexit-calls :
    (status p : ℕ) (k k' : Kernel) (calls : List Call)
    → kexit status p k ≡ some (k', calls)
    → calls
      ≡ (close_files nofile 0 (k.proc p).ofile).1 ++ (begin_op ∷ iput (k.proc p).cwd ∷ end_op ∷ [])
unfolding kexit release_files
kexit-calls status p k k' calls h = ground arith

-- What `kexit` leaves behind, and its calls into the file system.
pub record IsExited (status p : ℕ) (k k' : Kernel) (calls : List Call) : Type 0 where
  pub closed :
      calls
      ≡ map fileclose (open_files nofile 0 (k.proc p).ofile)
        ++ (begin_op ∷ iput (k.proc p).cwd ∷ end_op ∷ [])
  pub no_cwd : (k'.proc p).cwd ≡ 0
  pub is_zombie : (k'.proc p).state ≡ State.zombie
  pub status_kept : (k'.proc p).xstate ≡ status
  pub no_files : (fd : ℕ) → fd < nofile → (k'.proc p).ofile fd ≡ 0
  pub no_children : (j : ℕ) → 1 ≤ j → j ≤ nproc → (k'.proc j).parent ≢ p
  pub adopted :
      (j : ℕ) → 1 ≤ j → j ≤ nproc → (k.proc j).parent ≡ p → (k'.proc j).parent ≡ k.initproc
  pub others_keep : (j : ℕ) → (k.proc j).parent ≢ p → (k'.proc j).parent ≡ (k.proc j).parent

-- `kexit` of a process other than init leaves a zombie with the status. It calls `fileclose` once for
-- each open descriptor, in their order, and then `iput` for the directory within one operation of
-- the log; the descriptors and the directory are null afterwards. It hands all its children to init,
-- and leaves every other parent as it was.
pub kexit-IsExited :
    (status p : ℕ) (k k' : Kernel) (calls : List Call)
    → kexit status p k ≡ some (k', calls)
    → IsExited status p k k' calls
unfolding kexit become_zombie release_files
kexit-IsExited status p k k' calls h =
    let parent = λ (j : ℕ). leave_family-parent p (set_proc p (release_files (k.proc p)).0 k) j in
    record {
      closed =
          kexit-calls status p k k' calls h
          ∙ ap (λ cs. cs ++ (begin_op ∷ iput (k.proc p).cwd ∷ end_op ∷ []))
              (close_files-calls nofile 0 (k.proc p).ofile);
      no_cwd = ground (arith, leave_family-files p (set_proc p (release_files (k.proc p)).0 k) p);
      is_zombie = ground arith;
      status_kept = ground arith;
      no_files = λ fd low. ground (
        arith,
        leave_family-files p (set_proc p (release_files (k.proc p)).0 k) p,
        close_files-clears nofile 0 (k.proc p).ofile fd,
      );
      no_children = λ j lo hi. ground (arith, parent j);
      adopted = λ j lo hi e. ground (arith, parent j);
      others_keep = λ j ne. ground (arith, parent j);
    }

-- A parent that sleeps in `kwait`, on its own address, is runnable when its child has exited.
pub kexit-wakes :
    (status p q : ℕ) (k k' : Kernel) (calls : List Call)
    → kexit status p k ≡ some (k', calls)
    → (k.proc p).parent ≡ q
    → 1 ≤ q
    → q ≤ nproc
    → q ≢ p
    → (k.proc q).state ≡ State.sleeping
    → (k.proc q).chan ≡ q
    → (k'.proc q).state ≡ State.runnable
unfolding kexit become_zombie leave_family release_files
kexit-wakes status p q k k' calls h child lo hi ne sleeps chan =
    let start = set_proc p (release_files (k.proc p)).0 k in
    ground (
      arith,
      Woken-reparent p start q,
      reparent-parent p start p,
      wakeup-proc ((reparent p start).proc p).parent p (reparent p start) q,
    )
