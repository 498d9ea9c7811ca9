-- ===== src/Console/Edits.antt =====
-- A line editor on two lists, and the parts of kernel/console.c that remove characters.
use xv6_riscv_cs.Base.{
  List, [], ap, arith, false, if◌then◌else◌, length, ltb, not, refl, slice, slice-suc, suc, sym,
  zero, ℕ, ◌%◌, ◌&&◌, ◌++◌, ◌+◌, ◌-◌, ◌<◌, ◌==◌, ◌^◌, ◌||◌, ◌∙◌, ◌∷◌, ◌≡◌, ◌≢◌, ◌≤◌,
}
use xv6_riscv_cs.Console.{
  Console, consputc, control, erase, input_buf_size, kill_loop, line_count, newline_of, used_count,
}

unfoldable pub ready_count : Console → ℕ
ready_count s = (s.w + 2 ^ 32 - s.r) % 2 ^ 32

abbrev pub char_at_place : Console → ℕ → ℕ
char_at_place s i = s.buf (i % input_buf_size)

-- The characters that `consoleread` may take, and those that can still be edited.
abbrev pub ready : Console → List ℕ
ready s = slice (char_at_place s) s.r (ready_count s)

abbrev pub line : Console → List ℕ
line s = slice (char_at_place s) s.w (line_count s)

-- The counters are machine words in this order, and the ring holds what is between them. The line
-- that is edited has no end of line.
pub record IsConsole (s : Console) : Type 0 where
  pub r_word : s.r < 2 ^ 32
  pub w_word : s.w < 2 ^ 32
  pub e_word : s.e < 2 ^ 32
  pub fits : ready_count s + line_count s ≤ input_buf_size
  pub plain : (k : ℕ) → k < line_count s → char_at_place s (s.w + k) ≢ b'\n'

-- A line editor on two lists.
abbrev pub drop_last : List ℕ → List ℕ
drop_last [] = []
drop_last (c ∷ []) = []
drop_last (c ∷ d ∷ cs) = c ∷ drop_last (d ∷ cs)

abbrev pub commit_line : ℕ → List ℕ → List ℕ → List ℕ × List ℕ
commit_line c done cs =
    if (c == b'\n') || (c == control b'D') || (length done + length cs == input_buf_size)
    then (done ++ cs, [])
    else (done, cs)

abbrev pub edit : ℕ → List ℕ → List ℕ → List ℕ × List ℕ
edit c done cs =
    if c == control b'P'
    then (done, cs)
    else if c == control b'U'
    then (done, [])
    else if (c == control b'H') || (c == 127)
    then (done, drop_last cs)
    else if not (c == 0) && ltb (length done + length cs) input_buf_size
    then commit_line (newline_of c) done (cs ++ (newline_of c ∷ []))
    else (done, cs)

abbrev pub IsEdited : Console → List ℕ × List ℕ → Type 0
IsEdited s view = IsConsole s × ((ready s, line s) ≡ view)

pub drop_last-append : (cs : List ℕ) (c : ℕ) → drop_last (cs ++ (c ∷ [])) ≡ cs
drop_last-append [] c = refl
drop_last-append (d ∷ []) c = refl
drop_last-append (d ∷ b ∷ cs) c = ap (◌∷◌ d) (drop_last-append (b ∷ cs) c)

pub ==-ne : (a b : ℕ) → a ≢ b → (a == b) ≡ false
==-ne a b h = ground arith

pub used_count_lem : (s : Console) → IsConsole s → used_count s ≡ ready_count s + line_count s
unfolding used_count ready_count line_count
used_count_lem s h = omega (arith, h.r_word, h.w_word, h.e_word, h.fits)

pub erase-line_count :
    (s : Console) → IsConsole s → 0 < line_count s → line_count (erase s) + 1 ≡ line_count s
unfolding line_count erase
erase-line_count s h pos = omega (arith, h.w_word, h.e_word)

pub erase-IsConsole : (s : Console) → IsConsole s → 0 < line_count s → IsConsole (erase s)
unfolding erase consputc ready_count
erase-IsConsole s h pos =
    let less = erase-line_count s h pos in
    record {
      r_word = h.r_word;
      w_word = h.w_word;
      e_word = omega arith;
      fits = omega (arith, less, h.fits);
      plain = λ k lt. h.plain k (omega (arith, less, lt));
    }

pub erase-line :
    (s : Console) → IsConsole s → 0 < line_count s → line (erase s) ≡ drop_last (line s)
unfolding erase consputc
erase-line s h pos =
    let less = erase-line_count s h pos in
    let f = char_at_place s in
    sym (
      ap drop_last (
        ap (slice f s.w) {x = line_count s} {y = suc (line_count (erase s))} (omega (arith, less))
        ∙ slice-suc f s.w (line_count (erase s)))
      ∙ drop_last-append (slice f s.w (line_count (erase s))) (f (s.w + line_count (erase s))))

-- The state with an empty line.
abbrev pub emptied : Console → List ℕ → Console
emptied s t = record s { e = s.w; sent = t }

-- The character before `e` is not an end of line.
pub last_plain :
    (s : Console)
    → IsConsole s
    → 0 < line_count s
    → (s.buf ((s.e + 2 ^ 32 - 1) % 2 ^ 32 % input_buf_size) == b'\n') ≡ false
unfolding line_count
last_plain s h pos =
    let place : (s.w + (line_count s - 1)) % input_buf_size
        ≡ (s.e + 2 ^ 32 - 1) % 2 ^ 32 % input_buf_size =
      omega (arith, h.w_word, h.e_word, pos) in
    ==-ne _ _ (λ z. h.plain (line_count s - 1) (omega (arith, pos)) (ap s.buf place ∙ z))

pub line_count_zero : (s : Console) → IsConsole s → line_count s ≡ 0 → s.e ≡ s.w
unfolding line_count
line_count_zero s h e = omega (arith, e, h.w_word, h.e_word)

pub line_count_pos : (s : Console) → IsConsole s → 0 < line_count s → (s.e == s.w) ≡ false
unfolding line_count
line_count_pos s h pos = ==-ne _ _ (λ z. omega (arith, z, pos, h.w_word, h.e_word))

pub kill_loop_lem :
    (n : ℕ) (s : Console)
    → IsConsole s
    → line_count s ≡ n
    → (t : List ℕ) × (kill_loop n s ≡ emptied s t)
unfolding kill_loop
kill_loop_lem zero s h e =
    (s.sent, ap (λ x. record s { e = x }) {x = s.e} {y = s.w} (line_count_zero s h e))
kill_loop_lem (suc n) s h e =
    let pos : 0 < line_count s = omega (arith, e) in
    let (t, rest) =
      kill_loop_lem n (erase s) (erase-IsConsole s h pos)
        (omega (arith, erase-line_count s h pos, e)) in
    rw (line_count_pos s h pos, last_plain s h pos) (t, rest ∙ unfold erase consputc in refl)
