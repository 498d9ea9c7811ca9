-- ===== src/Pipe/Write.antt =====
-- `pipewrite` of kernel/pipe.c puts a prefix of the caller's bytes into the pipe.
use xv6_riscv_cs.Base.{
  Bool, Bool-cases, List, Option, Option-cases, [], ap, append-nil, append_assoc, arith, inl, inr,
  length, none, not, refl, some, suc, sym, true, zero, ℕ, ◌%◌, ◌++◌, ◌+◌, ◌<◌, ◌^◌, ◌||◌, ◌∙◌, ◌∷◌,
  ◌≡◌, ◌⊎◌,
}
use xv6_riscv_cs.Pipe.Fifo.{
  IsPipe, bytes, count, bytes-put_byte, is_full-false, is_full-true, put_byte-IsPipe,
}
use xv6_riscv_cs.Pipe.{Pipe, Pipecall, pipesize, write_loop, is_full, put_byte, pipewrite}
use xv6_riscv_cs.User.Shell.Words.{stop}

-- `copyin` gives these bytes at the addresses from `addr + i` on.
abbrev pub IsLoaded : (ℕ → Option ℕ) → ℕ → ℕ → List ℕ → Type 0
IsLoaded copyin addr i [] = Unit
IsLoaded copyin addr i (b ∷ bs) =
    (copyin ((addr + i) % 2 ^ 64) ≡ some b) × IsLoaded copyin addr (i + 1) bs

-- What `pipewrite` says of the bytes that it moved, with `m` to move from byte `i` on.
abbrev pub WriteEnds : (ℕ → Option ℕ) → Bool → ℕ → ℕ → ℕ → List ℕ → Pipe → Pipecall → Type 0
WriteEnds copyin killed addr m i bs p Pipecall.failed = (not p.readopen || killed) ≡ true
WriteEnds copyin killed addr m i bs p (Pipecall.returned j) =
    (j ≡ i + length bs) × ((length bs ≡ m) ⊎ (copyin ((addr + j) % 2 ^ 64) ≡ none))
WriteEnds copyin killed addr m i bs p (Pipecall.blocked j) =
    (j ≡ i + length bs) × (length bs < m) × (count p ≡ pipesize)

pub record IsWritten (copyin : ℕ → Option ℕ) (killed : Bool) (addr m i : ℕ) (p : Pipe)
    (r : Pipecall × Pipe) : Type 0 where
  pub moved : List ℕ
  pub loaded : IsLoaded copyin addr i moved
  pub queued : bytes (r.1) ≡ bytes p ++ moved
  pub ends : WriteEnds copyin killed addr m i moved (r.1) (r.0)
  pub valid : IsPipe (r.1)

module _ (copyin : ℕ → Option ℕ) (killed : Bool) (addr : ℕ) where
  ends_more :
      (m i ch : ℕ) (bs : List ℕ) (p : Pipe) (o : Pipecall)
      → WriteEnds copyin killed addr m (i + 1) bs p o
      → WriteEnds copyin killed addr (suc m) i (ch ∷ bs) p o
  ends_more m i ch bs p Pipecall.failed h = h
  ends_more m i ch bs p (Pipecall.returned j) (e, stop) =
      (omega (arith, e), elim stop [ inl all ↦ inl (ap suc all) | inr bad ↦ inr bad ])
  ends_more m i ch bs p (Pipecall.blocked j) (e, lt, full) =
      (omega (arith, e), omega (arith, lt), full)

  IsWritten-more :
      (m i ch : ℕ) (p : Pipe) (r : Pipecall × Pipe)
      → IsPipe p
      → count p < pipesize
      → copyin ((addr + i) % 2 ^ 64) ≡ some ch
      → IsWritten copyin killed addr m (i + 1) (put_byte p ch) r
      → IsWritten copyin killed addr (suc m) i p r
  IsWritten-more m i ch p r h lt e w = record {
    moved = ch ∷ w.moved;
    loaded = (e, w.loaded);
    queued =
        w.queued
        ∙ ap (λ bs. bs ++ w.moved) (bytes-put_byte p ch h lt)
        ∙ append_assoc (bytes p) (ch ∷ []) w.moved;
    ends = ends_more m i ch w.moved (r.1) (r.0) w.ends;
    valid = w.valid;
  }

  write_loop-IsWritten :
      (m i : ℕ) (p : Pipe)
      → IsPipe p
      → IsWritten copyin killed addr m i p (write_loop copyin killed addr m i p)
  unfolding write_loop
  write_loop-IsWritten zero i p h = record {
    moved = [];
    loaded = tt;
    queued = sym (append-nil (bytes p));
    ends = (omega arith, inl refl);
    valid = h;
  }
  write_loop-IsWritten (suc m) i p h = elim (Bool-cases (not p.readopen || killed)) [
    | inl stop ↦ rw stop (record {
      moved = [];
      loaded = tt;
      queued = sym (append-nil (bytes p));
      ends = stop;
      valid = h;
    })
    | inr on ↦ elim (Bool-cases (is_full p)) [
      | inl full ↦
          rw (on, full)
            (record {
              moved = [];
              loaded = tt;
              queued = sym (append-nil (bytes p));
              ends = (omega arith, omega arith, is_full-true p h full);
              valid = h;
            })
      | inr room ↦
          let lt = is_full-false p h room in
          elim (Option-cases (copyin ((addr + i) % 2 ^ 64))) [
            | inl bad ↦
                rw (on, room, bad)
                  (record {
                    moved = [];
                    loaded = tt;
                    queued = sym (append-nil (bytes p));
                    ends = (omega arith, inr bad);
                    valid = h;
                  })
            | inr (ch, e) ↦
                rw (on, room, e)
                  (IsWritten-more m i ch p _ h lt e
                    (write_loop-IsWritten m (i + 1) (put_byte p ch) (put_byte-IsPipe p ch h lt)))
          ]
    ]
  ]

-- What `pipewrite` reads from the caller's memory, in order, is what it adds to the pipe's bytes,
-- whose bound of PIPESIZE and counters stay in order. It returns the number of bytes moved, which
-- is `n` unless `copyin` failed at the next address; it returns -1 only when nobody reads or the
-- caller is killed; it waits, with the bytes so far moved, only when the pipe is full.
pub pipewrite-IsWritten :
    (copyin : ℕ → Option ℕ) (killed : Bool) (addr n : ℕ) (p : Pipe)
    → IsPipe p
    → IsWritten copyin killed addr n 0 p (pipewrite copyin killed addr n p)
unfolding pipewrite
pipewrite-IsWritten copyin killed addr n p h = write_loop-IsWritten copyin killed addr n 0 p h
