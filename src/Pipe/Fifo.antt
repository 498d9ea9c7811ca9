-- ===== src/Pipe/Fifo.antt =====
-- The ring of kernel/pipe.c is a bounded FIFO queue of bytes.
use xv6_riscv_cs.Base.{
  ==_iff, List, [], ap, ap₂, arith, false, false≢true, slice, slice-suc, slice_congr, slice_move,
  suc, sym, true, update, update_ne, update_self, ℕ, ◌%◌, ◌++◌, ◌+◌, ◌-◌, ◌<◌, ◌==◌, ◌^◌, ◌∙◌, ◌∷◌,
  ◌≡◌, ◌≢◌, ◌≤◌,
}
use xv6_riscv_cs.Pipe.{Pipe, drop_byte, is_full, pipesize, is_empty, next_byte, put_byte}

-- How many bytes are in the pipe; the counters may have wrapped around.
unfoldable pub count : Pipe → ℕ
count p = (p.nwrite + (2 ^ 32 - p.nread)) % 2 ^ 32

-- The bytes in the pipe, the next one first.
unfoldable pub bytes : Pipe → List ℕ
unfolding count
bytes p = slice (λ i. p.data_at (i % pipesize)) p.nread (count p)

-- The counters are machine words at most PIPESIZE apart.
pub record IsPipe (p : Pipe) : Type 0 where
  pub nread_word : p.nread < 2 ^ 32
  pub nwrite_word : p.nwrite < 2 ^ 32
  pub bounded : count p ≤ pipesize

pub is_full-true : (p : Pipe) → IsPipe p → is_full p ≡ true → count p ≡ pipesize
unfolding is_full count
is_full-true p h e = omega (arith, (==_iff _ _).0 e, h.nread_word, h.nwrite_word)

differ : (a b : ℕ) → (a == b) ≡ false → a ≢ b
differ a b e = λ same. false≢true (sym e ∙ (==_iff a b).1 same)

pub is_full-false : (p : Pipe) → IsPipe p → is_full p ≡ false → count p < pipesize
unfolding is_full count
is_full-false p h e = omega (arith, differ _ _ e, h.nread_word, h.nwrite_word, h.bounded)

pub is_empty-true : (p : Pipe) → IsPipe p → is_empty p ≡ true → count p ≡ 0
unfolding is_empty count
is_empty-true p h e = omega (arith, (==_iff _ _).0 e, h.nread_word, h.nwrite_word)

pub is_empty-false : (p : Pipe) → IsPipe p → is_empty p ≡ false → 0 < count p
unfolding is_empty count
is_empty-false p h e = omega (arith, differ _ _ e, h.nread_word, h.nwrite_word)

count-put_byte :
    (p : Pipe) (ch : ℕ) → IsPipe p → count p < pipesize → count (put_byte p ch) ≡ count p + 1
unfolding count put_byte
count-put_byte p ch h lt = omega (arith, h.nread_word, h.nwrite_word)

pub put_byte-IsPipe : (p : Pipe) (ch : ℕ) → IsPipe p → count p < pipesize → IsPipe (put_byte p ch)
unfolding put_byte
put_byte-IsPipe p ch h lt = record {
  nread_word = h.nread_word;
  nwrite_word = omega arith;
  bounded = omega (arith, count-put_byte p ch h lt);
}

count-drop_byte : (p : Pipe) → IsPipe p → 0 < count p → count (drop_byte p) ≡ count p - 1
unfolding count drop_byte
count-drop_byte p h lt = omega (arith, h.nread_word, h.nwrite_word)

pub drop_byte-IsPipe : (p : Pipe) → IsPipe p → 0 < count p → IsPipe (drop_byte p)
unfolding drop_byte
drop_byte-IsPipe p h lt = record {
  nread_word = omega arith;
  nwrite_word = h.nwrite_word;
  bounded = omega (arith, count-drop_byte p h lt, h.bounded);
}

-- The byte behind the last one belongs where `nwrite` points.
end_place : (p : Pipe) → IsPipe p → (p.nread + count p) % pipesize ≡ p.nwrite % pipesize
unfolding count
end_place p h = omega (arith, h.nread_word, h.nwrite_word)

-- Writing a byte below the bound puts it behind the others.
pub bytes-put_byte :
    (p : Pipe) (ch : ℕ)
    → IsPipe p
    → count p < pipesize
    → bytes (put_byte p ch) ≡ bytes p ++ (ch ∷ [])
unfolding bytes put_byte
bytes-put_byte p ch h lt =
    let f : ℕ → ℕ = λ i. p.data_at (i % pipesize) in
    let g : ℕ → ℕ = λ i. (put_byte p ch).data_at (i % pipesize) in
    let m : ℕ = p.nwrite % pipesize in
    let e = end_place p h in
    ap (slice g p.nread) {x = count (put_byte p ch)} {y = suc (count p)}
      (omega (arith, count-put_byte p ch h lt))
    ∙ slice-suc g p.nread (count p)
    ∙ ap₂ (λ bs b. bs ++ (b ∷ []))
        (slice_congr g f p.nread (count p)
          (λ j a b. update_ne p.data_at m (j % pipesize) ch (omega (arith, e))))
        (ap (update p.data_at m ch) e ∙ update_self p.data_at m ch)

pub bytes-drop_byte :
    (p : Pipe) → IsPipe p → 0 < count p → bytes p ≡ next_byte p ∷ bytes (drop_byte p)
unfolding bytes drop_byte next_byte
bytes-drop_byte p h lt =
    let f : ℕ → ℕ = λ i. p.data_at (i % pipesize) in
    ap (slice f p.nread) {x = count p} {y = suc (count (drop_byte p))}
      (omega (arith, count-drop_byte p h lt))
    ∙ ap (◌∷◌ (f p.nread)) (
        slice_move f (p.nread + 1) ((p.nread + 1) % 2 ^ 32) (count (drop_byte p))
          (λ k low. ap p.data_at (omega arith)))

pub bytes-empty : (p : Pipe) → IsPipe p → is_empty p ≡ true → bytes p ≡ []
unfolding bytes
bytes-empty p h e =
    ap (slice (λ i. p.data_at (i % pipesize)) p.nread) {x = count p} {y = 0} (is_empty-true p h e)
