-- ===== src/Tests/Buffers.antt =====
-- The theorems of the buffer cache and of the locks at small states.
use xv6_riscv_cs.Base.{
  Bool-cases, [], arith, false, if◌then◌else◌, inl, inr, none, refl, some, suc, true, zero, ℕ, ◌+◌,
  ◌-◌, ◌==◌, ◌∷◌, ◌≡◌, ◌⊎◌,
}
use xv6_riscv_cs.Cache.{
  Buf, Cache, bget, binit, brelse, init_loop, link_front, nbuf, set_buf, set_next, set_prev,
}
use xv6_riscv_cs.Locks.{Cpu, Sleeplock, holdingsleep, initsleeplock}
use xv6_riscv_cs.Cache.Lookup.{IsBuffered, IsSingle, bget-IsBuffered}
use xv6_riscv_cs.Locks.Nesting.{IsInside, pop_offs, pop_offs-push_offs, push_offs}
use xv6_riscv_cs.Cache.Release.{IsReleased, added, binit-IsRing, brelse-IsReleased}

-- A cache of zeros, as it is before `binit`.
abbrev no_lock : Sleeplock
no_lock = record { locked = 0; pid = 0 }

abbrev zero_buf : Buf
zero_buf = record { valid = 0; dev = 0; blockno = 0; lock = no_lock; refcnt = 0; contents = λ i. 0 }

abbrev zero_cache : Cache
zero_cache = record {
  buf = λ b. zero_buf;
  next = λ b. 0;
  prev = λ b. 0;
  disk = λ dev blockno i. blockno;
}

-- `binit` leaves the devices as they are.
init_loop-dev :
    (n b : ℕ) (c : Cache)
    → ((i : ℕ) → (c.buf i).dev ≡ 0)
    → (i : ℕ) → ((init_loop n b c).buf i).dev ≡ 0
unfolding init_loop link_front
init_loop-dev zero b c h i = h i
init_loop-dev (suc n) b c h i =
    init_loop-dev n (b + 1) (link_front b (set_buf b (record (c.buf b) { lock = initsleeplock }) c))
      (λ j. elim (Bool-cases (b == j)) [ inl e ↦ rw e (h b) | inr e ↦ rw e (h j) ]) i

binit-IsSingle : IsSingle (binit zero_cache).buf (added nbuf 1 [])
unfolding binit
binit-IsSingle i j mi mj pos same_dev same_block =
    absurd (pos (init_loop-dev nbuf 1 (set_next 0 0 (set_prev 0 0 zero_cache)) (λ k. refl) i))

bget-IsBuffered_example :
    IsBuffered (binit zero_cache) (added nbuf 1 []) 5 1 7 (bget 5 1 7 (binit zero_cache))
bget-IsBuffered_example =
    bget-IsBuffered 5 1 7 (binit zero_cache) (added nbuf 1 []) (binit-IsRing zero_cache) refl
      binit-IsSingle (λ e. omega (arith, e))

-- A list of two buffers; process 5 holds the second one, which has block 7 of device 1.
abbrev held_buf : Buf
held_buf = record {
  valid = 1;
  dev = 1;
  blockno = 7;
  lock = record { locked = 1; pid = 5 };
  refcnt = 1;
  contents = λ i. i;
}

abbrev two_bufs : Cache
two_bufs = record {
  buf = λ b. if b == 2 then held_buf else zero_buf;
  next = λ b. if b == 2 then 0 else b + 1;
  prev = λ b. if b == 0 then 2 else b - 1;
  disk = λ dev blockno i. blockno;
}

brelse-IsReleased_example : IsReleased two_bufs (1 ∷ []) 2 [] (brelse 5 2 two_bufs)
unfolding holdingsleep
brelse-IsReleased_example =
    brelse-IsReleased 5 two_bufs (1 ∷ []) 2 [] refl
      (
        (refl, refl, (refl, refl, (refl, refl))),
        (
          ((λ e. omega (arith, e)), ((λ e. omega (arith, e)), tt)),
          (((λ e. omega (arith, e)), tt), (tt, tt)),
        ),
      )
      (omega arith) (omega arith)

-- Another process may not release it.
not_the_holder : brelse 4 2 two_bufs ≡ none
unfolding brelse holdingsleep
not_the_holder = refl

abbrev outside : Cpu
outside = record { noff = 0; intena = false; intr = true }

pop_offs-push_offs_example :
    IsInside (push_offs 3 outside)
    × (((outside.noff ≡ 0)
          × (pop_offs 3 (push_offs 3 outside) ≡ some (record outside { intena = outside.intr })))
        ⊎ (pop_offs 3 (push_offs 3 outside) ≡ some outside))
pop_offs-push_offs_example = pop_offs-push_offs 2 outside (inl refl)
