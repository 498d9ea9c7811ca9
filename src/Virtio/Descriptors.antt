-- ===== src/Virtio/Descriptors.antt =====
-- The three descriptors of a request of kernel/virtio_disk.c: their chain, and how it is freed.
use xv6_riscv_cs.Base.{
  Bool, Bool-cases, ap, false, if◌then◌else◌, inl, inr, refl, some, suc, sym, true, update,
  update_ne, update_self, ℕ, ◌%◌, ◌+◌, ◌<◌, ◌∙◌, ◌≡◌, ◌≢◌,
}
use xv6_riscv_cs.Virtio.{
  Driver, num, zero_desc, chain_rounds, free_chain, submit, Desc, contents_of, f_next, f_write,
  request_of, status_of,
}
use xv6_riscv_cs.Virtio.Alloc.{IsAllocation, free_desc-some, freed_desc}

-- The three descriptors stand in the table as a chain, and are in use.
pub record IsChain (a b c : ℕ) (d : Driver) : Type 0 where
  pub first : (a < num) × (d.free a ≡ false) × ((d.desc a).flags % 2 ≡ 1) × ((d.desc a).next ≡ b)
  pub second : (b < num) × (d.free b ≡ false) × ((d.desc b).flags % 2 ≡ 1) × ((d.desc b).next ≡ c)
  pub third : (c < num) × (d.free c ≡ false) × ((d.desc c).flags % 2 ≡ 0)
  pub distinct : (a ≢ b) × (a ≢ c) × (b ≢ c)

-- A table with three different entries set.
module _ {A : Type 0} (f : ℕ → A) (a b c : ℕ) (x y z : A) (ab : a ≢ b) (ac : a ≢ c)
    (bc : b ≢ c) where
  pub set_first : update (update (update f a x) b y) c z a ≡ x
  set_first =
      update_ne (update (update f a x) b y) c a z (λ e. ac (sym e))
      ∙ update_ne (update f a x) b a y (λ e. ab (sym e))
      ∙ update_self f a x

  pub set_second : update (update (update f a x) b y) c z b ≡ y
  set_second =
      update_ne (update (update f a x) b y) c b z (λ e. bc (sym e)) ∙ update_self (update f a x) b y

  pub set_third : update (update (update f a x) b y) c z c ≡ z
  set_third = update_self (update (update f a x) b y) c z

-- The three descriptors of a request.
abbrev pub header_of : ℕ → ℕ → Desc
header_of a b = record { addr = request_of a; len = 16; flags = f_next; next = b }

abbrev pub contents_part : ℕ → Bool → ℕ → Desc
contents_part bf write c = record {
  addr = contents_of bf;
  len = 1024;
  flags = (if write then 0 else f_write) + f_next;
  next = c;
}

abbrev pub status_part : ℕ → Desc
status_part a = record { addr = status_of a; len = 1; flags = f_write; next = 0 }

pub submit-IsChain :
    (bf blockno : ℕ) (write : Bool) (a b c : ℕ) (d d' : Driver)
    → IsAllocation d (some (some (a, b, c), d'))
    → IsChain a b c (submit bf blockno write a b c d')
unfolding submit
submit-IsChain bf blockno write a b c d d' ((la, lb, lc), (ab, ac, bc), frees, e) =
    let x = header_of a b in
    let y = contents_part bf write c in
    let z = status_part a in
    let at_a = set_first d'.desc a b c x y z ab ac bc in
    let at_b = set_second d'.desc a b c x y z ab ac bc in
    let at_c = set_third d'.desc a b c x y z ab ac bc in
    let free_at = λ (j : ℕ). ap (λ (v : Driver). v.free j) e in
    record {
      first = (
        la,
        free_at a ∙ set_first d.free a b c false false false ab ac bc,
        ap (λ (v : Desc). v.flags % 2) at_a,
        ap (λ (v : Desc). v.next) at_a,
      );
      second = (
        lb,
        free_at b ∙ set_second d.free a b c false false false ab ac bc,
        ap (λ (v : Desc). v.flags % 2) at_b
            ∙ elim (Bool-cases write) [ inl w ↦ rw w refl | inr r ↦ rw r refl ],
        ap (λ (v : Desc). v.next) at_b,
      );
      third = (
        lc,
        free_at c ∙ set_third d.free a b c false false false ab ac bc,
        ap (λ (v : Desc). v.flags % 2) at_c,
      );
      distinct = (ab, ac, bc);
    }

chain_rounds-more :
    (n i j : ℕ) (d : Driver)
    → (i < num) × (d.free i ≡ false) × ((d.desc i).flags % 2 ≡ 1) × ((d.desc i).next ≡ j)
    → chain_rounds (suc n) i d ≡ chain_rounds n j (freed_desc i d)
unfolding chain_rounds
chain_rounds-more n i j d (lt, in_use, more, link) =
    rw (free_desc-some i d lt in_use, more, link) refl

chain_rounds-last :
    (n i : ℕ) (d : Driver)
    → (i < num) × (d.free i ≡ false) × ((d.desc i).flags % 2 ≡ 0)
    → chain_rounds (suc n) i d ≡ some (freed_desc i d)
unfolding chain_rounds
chain_rounds-last n i d (lt, in_use, last) = rw (free_desc-some i d lt in_use, last) refl

-- Freeing a descriptor leaves the others.
freed-desc : (i j : ℕ) (d : Driver) → i ≢ j → (freed_desc i d).desc j ≡ d.desc j
freed-desc i j d h = update_ne d.desc i j zero_desc h

freed-free : (i j : ℕ) (d : Driver) → i ≢ j → (freed_desc i d).free j ≡ d.free j
freed-free i j d h = update_ne d.free i j true h

pub free_chain_lem :
    (a b c : ℕ) (d : Driver)
    → IsChain a b c d
    → free_chain a d ≡ some (freed_desc c (freed_desc b (freed_desc a d)))
unfolding free_chain
free_chain_lem a b c d h =
    let d1 = freed_desc a d in
    let d2 = freed_desc b d1 in
    let (ab, ac, bc) = h.distinct in
    let (lb, free_b, more_b, link_b) = h.second in
    let (lc, free_c, last_c) = h.third in
    let desc_b = freed-desc a b d ab in
    let desc_c = freed-desc b c d1 bc ∙ freed-desc a c d ac in
    chain_rounds-more 8 a b d h.first
    ∙ chain_rounds-more 7 b c d1 (
      lb,
      freed-free a b d ab ∙ free_b,
      ap (λ (v : Desc). v.flags % 2) desc_b ∙ more_b,
      ap (λ (v : Desc). v.next) desc_b ∙ link_b,
    )
    ∙ chain_rounds-last 6 c d2 (
      lc,
      freed-free b c d1 bc ∙ freed-free a c d ac ∙ free_c,
      ap (λ (v : Desc). v.flags % 2) desc_c ∙ last_c,
    )
