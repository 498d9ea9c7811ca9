-- ===== src/Console/Line.antt =====
-- `consoleintr` of kernel/console.c edits a line.
use xv6_riscv_cs.Base.{
  ==_iff, Bool-cases, List, [], ap, ap₂, arith, if◌then◌else◌, inl, inr, length, length-append,
  length-slice, ltb, not, refl, slice, slice-append, slice-suc, slice_congr, slice_move, subst, suc,
  sym, update, update_ne, update_self, ℕ, ◌%◌, ◌&&◌, ◌++◌, ◌+◌, ◌-◌, ◌<◌, ◌==◌, ◌^◌, ◌||◌, ◌∙◌, ◌∷◌,
  ◌≡◌, ◌≢◌,
}
use xv6_riscv_cs.Console.{
  Console, consputc, control, erase, input_buf_size, kill_loop, line_count, newline_of, used_count,
  add_char, consoleintr, end_line, store_char, uart_chars,
}
use xv6_riscv_cs.Console.Edits.{
  IsConsole, IsEdited, char_at_place, commit_line, drop_last, edit, emptied, erase-IsConsole,
  erase-line, kill_loop_lem, line, line_count_pos, line_count_zero, ready, ready_count,
  used_count_lem,
}

slice_same :
    (f g : ℕ → ℕ) (i n : ℕ) → ((k : ℕ) → k < n → f (i + k) ≡ g (i + k)) → slice f i n ≡ slice g i n
slice_same f g i n same = slice_congr f g i n (λ j a b.
    subst (λ x. f x ≡ g x) {x = i + (j - i)} {y = j} (omega (arith, a))
      (same (j - i) (omega (arith, a, b))))

-- The state with a character behind the line.
abbrev added_char : ℕ → List ℕ → Console → Console
added_char c t s = record s {
  buf = update s.buf (s.e % input_buf_size) c;
  e = (s.e + 1) % 2 ^ 32;
  sent = t;
}

-- The state after this line was committed.
abbrev committed : ℕ → List ℕ → Console → Console
committed c t s = record (added_char c t s) { w = (s.e + 1) % 2 ^ 32 }

-- The place behind the line, and the other places.
end_place :
    (s : Console) → IsConsole s → (s.w + line_count s) % input_buf_size ≡ s.e % input_buf_size
unfolding line_count
end_place s h = omega (arith, h.w_word, h.e_word)

module _ (s : Console) (c : ℕ) (t : List ℕ) (h : IsConsole s)
    (room : ready_count s + line_count s < input_buf_size) where
  added-line_count : line_count (added_char c t s) ≡ line_count s + 1
  unfolding line_count ready_count
  added-line_count = omega (arith, h.w_word, h.e_word, room)

  -- What stands in the ring stays.
  added-old :
      (k : ℕ)
      → k < ready_count s + line_count s
      → char_at_place (added_char c t s) (s.r + k) ≡ char_at_place s (s.r + k)
  unfolding line_count ready_count
  added-old k lt =
      update_ne s.buf (s.e % input_buf_size) ((s.r + k) % input_buf_size) c
        (omega (arith, lt, room, h.r_word, h.w_word, h.e_word))

  -- The places of the line, from `w` or from `r`.
  same_place : (k : ℕ) → (s.w + k) % input_buf_size ≡ (s.r + (ready_count s + k)) % input_buf_size
  unfolding ready_count
  same_place k = omega (arith, h.r_word, h.w_word)

  added-old_line :
      (k : ℕ)
      → k < line_count s
      → char_at_place (added_char c t s) (s.w + k) ≡ char_at_place s (s.w + k)
  added-old_line k lt =
      ap (added_char c t s).buf (same_place k)
      ∙ added-old (ready_count s + k) (omega (arith, lt))
      ∙ sym (ap s.buf (same_place k))

  added-new : char_at_place (added_char c t s) (s.w + line_count s) ≡ c
  added-new = ap (added_char c t s).buf (end_place s h) ∙ update_self s.buf (s.e % input_buf_size) c

  added-ready : ready (added_char c t s) ≡ ready s
  unfolding ready_count
  added-ready =
      slice_same (char_at_place (added_char c t s)) (char_at_place s) s.r (ready_count s)
        (λ k lt. added-old k (omega (arith, lt)))

  added-line : line (added_char c t s) ≡ line s ++ (c ∷ [])
  added-line =
      let g = char_at_place (added_char c t s) in
      ap (slice g s.w) {x = line_count (added_char c t s)} {y = suc (line_count s)}
        (omega (arith, added-line_count))
      ∙ slice-suc g s.w (line_count s)
      ∙ ap₂ (λ xs x. xs ++ (x ∷ []))
          (slice_same g (char_at_place s) s.w (line_count s) added-old_line) added-new

  added-IsConsole : c ≢ b'\n' → IsConsole (added_char c t s)
  unfolding ready_count
  added-IsConsole ne = record {
    r_word = h.r_word;
    w_word = h.w_word;
    e_word = omega arith;
    fits = omega (arith, added-line_count, room);
    plain = λ k lt z. elim (Bool-cases (k == line_count s)) [
      | inl last ↦
          let e : k ≡ line_count s = (==_iff _ _).0 last in
          ne (sym added-new ∙ ap (λ x. char_at_place (added_char c t s) (s.w + x)) (sym e) ∙ z)
      | inr inner ↦
          let before : k < line_count s = ground (arith, inner, lt, added-line_count) in
          h.plain k before (sym (added-old_line k before) ∙ z)
    ];
  }

  added-used_count : used_count (added_char c t s) ≡ used_count s + 1
  unfolding used_count line_count ready_count
  added-used_count = omega (arith, h.r_word, h.w_word, h.e_word, room)

  committed-ready_count :
      ready_count (committed c t s) ≡ ready_count s + line_count (added_char c t s)
  unfolding line_count ready_count
  committed-ready_count = omega (arith, h.r_word, h.w_word, h.e_word, room)

  committed-line_count : line_count (committed c t s) ≡ 0
  unfolding line_count
  committed-line_count = omega arith

  committed-ready : ready (committed c t s) ≡ ready s ++ (line s ++ (c ∷ []))
  unfolding ready_count
  committed-ready =
      let g = char_at_place (added_char c t s) in
      ap (slice g s.r) {x = ready_count (committed c t s)}
        {y = ready_count s + line_count (added_char c t s)} committed-ready_count
      ∙ slice-append g s.r (ready_count s) (line_count (added_char c t s))
      ∙ ap₂ ◌++◌ added-ready (
          slice_move g (s.r + ready_count s) s.w (line_count (added_char c t s)) (λ k lt.
            ap (added_char c t s).buf (
              ap (λ x. x % input_buf_size) {x = s.r + ready_count s + k}
                {y = s.r + (ready_count s + k)} (omega arith)
              ∙ sym (same_place k)))
          ∙ added-line)

  committed-line : line (committed c t s) ≡ []
  committed-line =
      ap (slice (char_at_place (added_char c t s)) ((s.e + 1) % 2 ^ 32))
        {x = line_count (committed c t s)} {y = 0} committed-line_count

  committed-IsConsole : IsConsole (committed c t s)
  committed-IsConsole = record {
    r_word = h.r_word;
    w_word = omega arith;
    e_word = omega arith;
    fits = omega (arith, committed-ready_count, committed-line_count, added-line_count, room);
    plain = λ k lt. absurd (omega (arith, lt, committed-line_count));
  }

abbrev view : List ℕ → List ℕ → List ℕ × List ℕ
view a b = (a, b)

pair_eq : {a a' b b' : List ℕ} → a ≡ a' → b ≡ b' → view a b ≡ view a' b'
pair_eq p q = ap₂ view p q

erase-ready : (s : Console) → ready (erase s) ≡ ready s
unfolding erase consputc ready_count
erase-ready s = refl

emptied-line_count : (s : Console) (t : List ℕ) → IsConsole s → line_count (emptied s t) ≡ 0
unfolding line_count
emptied-line_count s t h = omega (arith, h.w_word)

emptied-IsEdited : (s : Console) (t : List ℕ) → IsConsole s → IsEdited (emptied s t) (ready s, [])
unfolding ready_count
emptied-IsEdited s t h =
    let e = emptied-line_count s t h in
    (
      record {
        r_word = h.r_word;
        w_word = h.w_word;
        e_word = h.w_word;
        fits = omega (arith, e, h.fits);
        plain = λ k lt. absurd (omega (arith, lt, e));
      },
      pair_eq refl (ap (slice (char_at_place s) s.w) {x = line_count (emptied s t)} {y = 0} e),
    )

-- The lengths of the two lists.
counts : (s : Console) → IsConsole s → length (ready s) + length (line s) ≡ used_count s
counts s h = omega (
  arith,
  used_count_lem s h,
  length-slice (char_at_place s) s.r (ready_count s),
  length-slice (char_at_place s) s.w (line_count s),
)

add_char-IsEdited :
    (s : Console) (c : ℕ)
    → IsConsole s
    → ready_count s + line_count s < input_buf_size
    → IsEdited (add_char c s) (commit_line c (ready s) (line s ++ (c ∷ [])))
unfolding add_char consputc store_char end_line
add_char-IsEdited s c h room =
    let t = s.sent ++ uart_chars c in
    let len = length (ready s) + length (line s ++ (c ∷ [])) in
    let size : used_count (added_char c t s) ≡ len =
      omega (arith, added-used_count s c t h room, counts s h, length-append (line s) (c ∷ [])) in
    subst
      (λ n.
        IsEdited
          (if (c == b'\n') || (c == control b'D') || (n == input_buf_size)
            then committed c t s
            else added_char c t s)
          (commit_line c (ready s) (line s ++ (c ∷ []))))
      (sym size)
      (elim (Bool-cases ((c == b'\n') || (c == control b'D') || (len == input_buf_size))) [
        | inl ends ↦ rw ends (
          committed-IsConsole s c t h room,
          pair_eq (committed-ready s c t h room) (committed-line s c t h room),
        )
        | inr stays ↦ rw stays (
          added-IsConsole s c t h room (ground (arith, stays)),
          pair_eq (added-ready s c t h room) (added-line s c t h room),
        )
      ])

kill-IsEdited : (s : Console) → IsConsole s → IsEdited (kill_loop (line_count s) s) (ready s, [])
kill-IsEdited s h =
    let (t, e) = kill_loop_lem (line_count s) s h refl in
    subst (λ x. IsEdited x (ready s, [])) (sym e) (emptied-IsEdited s t h)

erase-IsEdited :
    (s : Console)
    → IsConsole s
    → IsEdited (if s.e == s.w then s else erase s) (ready s, drop_last (line s))
erase-IsEdited s h = elim (Bool-cases (line_count s == 0)) [
  | inl zero_line ↦
      let none_left : line_count s ≡ 0 = (==_iff _ _).0 zero_line in
      let e : line s ≡ [] = ap (slice (char_at_place s) s.w) {x = line_count s} {y = 0} none_left in
      rw ((==_iff s.e s.w).1 (line_count_zero s h none_left))
        (h, pair_eq refl (e ∙ sym (ap drop_last e)))
  | inr some_line ↦
      let pos : 0 < line_count s = ground (arith, some_line) in
      rw (line_count_pos s h pos)
        (erase-IsConsole s h pos, pair_eq (erase-ready s) (erase-line s h pos))
]

-- `consoleintr` edits a line: it keeps the counters in order, and on the characters that a reader may
-- take and the line that can still be edited it acts as the editor on two lists. Control-U removes
-- the whole line, backspace its last character, and a line is passed on at its end, at Control-D
-- and when the ring is full; a character that finds the ring full is dropped.
pub consoleintr-IsEdited :
    (c : ℕ) (s : Console) → IsConsole s → IsEdited (consoleintr c s) (edit c (ready s) (line s))
unfolding consoleintr
consoleintr-IsEdited c s h = elim (Bool-cases (c == control b'P')) [
  | inl p ↦ rw p (h, refl)
  | inr not_p ↦ elim (Bool-cases (c == control b'U')) [
    | inl u ↦ rw (not_p, u) (kill-IsEdited s h)
    | inr not_u ↦ elim (Bool-cases ((c == control b'H') || (c == 127))) [
      | inl del ↦ rw (not_p, not_u, del) (erase-IsEdited s h)
      | inr other ↦
          rw (not_p, not_u, other)
            (subst
              (λ n.
                IsEdited
                  (if not (c == 0) && ltb (used_count s) input_buf_size
                    then add_char (newline_of c) s
                    else s)
                  (if not (c == 0) && ltb n input_buf_size
                    then commit_line (newline_of c) (ready s) (line s ++ (newline_of c ∷ []))
                    else (ready s, line s)))
              (sym (counts s h))
              (elim (Bool-cases (not (c == 0) && ltb (used_count s) input_buf_size)) [
                | inl fits ↦ rw fits (
                    add_char-IsEdited s (newline_of c) h (ground (arith, fits, used_count_lem s h)))
                | inr full ↦ rw full (h, refl)
              ]))
    ]
  ]
]
