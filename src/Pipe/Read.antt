-- ===== src/Pipe/Read.antt =====
-- `piperead` of kernel/pipe.c takes the first bytes of the pipe and loses none.
use xv6_riscv_cs.Base.{
  Bool, Bool-cases, List, [], ap, arith, false, if◌then◌else◌, inl, inr, length, refl, suc, update,
  update_ne, update_self, zero, ℕ, ◌%◌, ◌&&◌, ◌++◌, ◌+◌, ◌<◌, ◌==◌, ◌^◌, ◌∙◌, ◌∷◌, ◌≡◌, ◌≢◌, ◌≤◌,
  ◌⊎◌,
}
use xv6_riscv_cs.Pipe.Fifo.{
  IsPipe, bytes, bytes-drop_byte, count, bytes-empty, drop_byte-IsPipe, is_empty-false,
  is_empty-true,
}
use xv6_riscv_cs.Pipe.{
  Pipe, Pipecall, drop_byte, next_byte, is_empty, read_loop, failed, piperead, returned,
}

-- These bytes stand in the memory from `addr + i` on.
abbrev pub IsStored : (ℕ → ℕ) → ℕ → ℕ → List ℕ → Type 0
IsStored mem addr i [] = Unit
IsStored mem addr i (b ∷ bs) = (mem ((addr + i) % 2 ^ 64) ≡ b) × IsStored mem addr (i + 1) bs

-- Why the loop of `piperead` stopped, with `m` bytes to move from byte `i` on.
abbrev pub ReadEnds : (ℕ → Bool) → ℕ → ℕ → ℕ → List ℕ → Pipe → Pipecall → Type 0
ReadEnds writable addr m i bs p Pipecall.failed =
    (i + length bs ≡ 0) × (writable (addr % 2 ^ 64) ≡ false)
ReadEnds writable addr m i bs p (Pipecall.returned j) =
    (j ≡ i + length bs)
    × ((length bs ≡ m) ⊎ (bytes p ≡ []) ⊎ (writable ((addr + j) % 2 ^ 64) ≡ false))
ReadEnds writable addr m i bs p (Pipecall.blocked j) = ⊥

pub record IsRead (writable : ℕ → Bool) (addr m i : ℕ) (p : Pipe) (mem : ℕ → ℕ)
    (r : Pipecall × Pipe × (ℕ → ℕ)) : Type 0 where
  pub moved : List ℕ
  pub taken : bytes p ≡ moved ++ bytes (r.1)
  pub few : length moved ≤ m
  pub stored : IsStored (r.2) addr i moved
  pub untouched :
      (a : ℕ) → ((k : ℕ) → i ≤ k → k < i + length moved → (addr + k) % 2 ^ 64 ≢ a) → (r.2) a ≡ mem a
  pub ends : ReadEnds writable addr m i moved (r.1) (r.0)
  pub valid : IsPipe (r.1)

module _ (writable : ℕ → Bool) (addr : ℕ) where
  reads_more :
      (m i b : ℕ) (bs : List ℕ) (p : Pipe) (o : Pipecall)
      → ReadEnds writable addr m (i + 1) bs p o
      → ReadEnds writable addr (suc m) i (b ∷ bs) p o
  reads_more m i b bs p Pipecall.failed (e, bad) = absurd (omega (arith, e))
  reads_more m i b bs p (Pipecall.returned j) (e, stop) =
      (omega (arith, e), elim stop [ inl all ↦ inl (ap suc all) | inr why ↦ inr why ])
  reads_more m i b bs p (Pipecall.blocked j) h = elim h [ ]

  IsRead-more :
      (m i : ℕ) (p : Pipe) (mem : ℕ → ℕ) (r : Pipecall × Pipe × (ℕ → ℕ))
      → suc m < 2 ^ 64
      → IsPipe p
      → 0 < count p
      → IsRead writable addr m
          (i + 1)
          (drop_byte p)
          (update mem ((addr + i) % 2 ^ 64) (next_byte p))
          r
      → IsRead writable addr (suc m) i p mem r
  IsRead-more m i p mem r small h lt w =
      let a : ℕ = (addr + i) % 2 ^ 64 in
      record {
        moved = next_byte p ∷ w.moved;
        taken = bytes-drop_byte p h lt ∙ ap (◌∷◌ (next_byte p)) w.taken;
        few = omega (arith, w.few);
        stored = (
          w.untouched a (λ k low high. omega (arith, w.few)) ∙ update_self mem a (next_byte p),
          w.stored,
        );
        untouched = λ b far.
            w.untouched b (λ k low high. far k (omega arith) (omega arith))
            ∙ update_ne mem a b (next_byte p) (far i (omega arith) (omega arith));
        ends = reads_more m i (next_byte p) w.moved (r.1) (r.0) w.ends;
        valid = w.valid;
      }

  bad_ends :
      (m i : ℕ) (p : Pipe)
      → writable ((addr + i) % 2 ^ 64) ≡ false
      → ReadEnds writable addr m i [] p (if i == 0 then failed else returned i)
  bad_ends m zero p bad = (omega arith, ap writable (omega arith) ∙ bad)
  bad_ends m (suc i) p bad =
      let later : (suc i == 0) ≡ false = ground arith in rw later (omega arith, inr (inr bad))

  read_loop-IsRead :
      (m i : ℕ) (p : Pipe) (mem : ℕ → ℕ)
      → m < 2 ^ 64
      → IsPipe p
      → IsRead writable addr m i p mem (read_loop writable addr m i p mem)
  unfolding read_loop
  read_loop-IsRead zero i p mem small h = record {
    moved = [];
    taken = refl;
    few = omega arith;
    stored = tt;
    untouched = λ a far. refl;
    ends = (omega arith, inl refl);
    valid = h;
  }
  read_loop-IsRead (suc m) i p mem small h = elim (Bool-cases (is_empty p)) [
    | inl none_left ↦ rw none_left (record {
      moved = [];
      taken = refl;
      few = omega arith;
      stored = tt;
      untouched = λ a far. refl;
      ends = (omega arith, inr (inl (bytes-empty p h none_left)));
      valid = h;
    })
    | inr some_left ↦
        let lt = is_empty-false p h some_left in
        elim (Bool-cases (writable ((addr + i) % 2 ^ 64))) [
          | inl good ↦
              rw (some_left, good)
                (IsRead-more m i p mem _ small h lt (
                  read_loop-IsRead m (i + 1) (drop_byte p) _ (omega arith)
                    (drop_byte-IsPipe p h lt)))
          | inr bad ↦
              rw (some_left, bad)
                (record {
                  moved = [];
                  taken = refl;
                  few = omega arith;
                  stored = tt;
                  untouched = λ a far. refl;
                  ends = bad_ends (suc m) i p bad;
                  valid = h;
                })
        ]
  ]

ready_lem :
    (p : Pipe)
    → IsPipe p
    → (0 < count p) ⊎ (p.writeopen ≡ false)
    → (is_empty p && p.writeopen) ≡ false
ready_lem p h ready = elim (Bool-cases (is_empty p)) [
  | inl none_left ↦ elim ready [
    | inl some_left ↦ absurd (omega (arith, is_empty-true p h none_left))
    | inr closed ↦ ap (◌&&◌ (is_empty p)) closed ∙ rw none_left refl
  ]
  | inr some_left ↦ rw some_left refl
]

-- Where the pipe has bytes or no writer is left, `piperead` takes a first part of the pipe's bytes
-- into the caller's memory, in order, leaves the others in the pipe and all memory but these bytes
-- as it was, and does not wait. It returns the number of bytes moved, which is `n` unless the pipe got
-- empty or `copyout` failed at the next address; it returns -1 only when `copyout` failed at once.
pub piperead-IsRead :
    (writable : ℕ → Bool) (killed : Bool) (addr n : ℕ) (p : Pipe) (mem : ℕ → ℕ)
    → IsPipe p
    → n < 2 ^ 64
    → (0 < count p) ⊎ (p.writeopen ≡ false)
    → IsRead writable addr n 0 p mem (piperead writable killed addr n p mem)
unfolding piperead
piperead-IsRead writable killed addr n p mem h small ready =
    rw (ready_lem p h ready) (read_loop-IsRead writable addr n 0 p mem small h)
