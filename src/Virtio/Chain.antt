-- ===== src/Virtio/Chain.antt =====
-- A request of kernel/virtio_disk.c, from its descriptors to their release.
use xv6_riscv_cs.Base.{
  Bool, Option, false, if◌then◌else◌, none, not, some, true, ℕ, ◌%◌, ◌*◌, ◌+◌, ◌<◌, ◌==◌, ◌^◌, ◌||◌,
  ◌≡◌, ◌≢◌, ◌⊎◌,
}
use xv6_riscv_cs.Virtio.{Driver, num, Desc, contents_of, end_rw, request_of, status_of, Address}
use xv6_riscv_cs.Virtio.Alloc.{count_free}
use xv6_riscv_cs.Virtio.Descriptors.{IsChain}

-- The drivers that have this chain still, whatever happened to the rest in between.
abbrev pub KeepsChain : ℕ → ℕ → ℕ → Driver → Driver → Type 0
KeepsChain a b c d d' =
    ((j : ℕ) → (a ≡ j) ⊎ (b ≡ j) ⊎ (c ≡ j) → (d'.desc j ≡ d.desc j) × (d'.free j ≡ d.free j))

-- A descriptor that the device reads or writes, with the one behind it in the chain.
abbrev pub IsDesc : Desc → Address → ℕ → Bool → Bool → ℕ → Type 0
IsDesc v addr len more written next =
    (v.addr ≡ addr)
    × (v.len ≡ len)
    × (v.flags ≡ (if written then 2 else 0) + (if more then 1 else 0))
    × (v.next ≡ next)

-- What the device finds in `d1`, which was `d`: the next entry of the available ring leads to a header
-- with the direction and the sector, from there to the contents of the buffer, which it writes for
-- a read and reads for a write, and from there to the status, which it writes. The other entries of
-- the ring and the descriptors of other chains stay.
pub record IsRequest (bf blockno : ℕ) (write : Bool) (i b c : ℕ) (d d1 : Driver) : Type 0 where
  pub ring : (d1.avail (d.avail_idx % 8) ≡ i) × (d1.avail_idx ≡ (d.avail_idx + 1) % 2 ^ 16)
  pub ring_others : (j : ℕ) → d.avail_idx % 8 ≢ j → d1.avail j ≡ d.avail j
  pub op :
      ((d1.ops i).type ≡ (if write then 1 else 0))
      × ((d1.ops i).reserved ≡ 0)
      × ((d1.ops i).sector ≡ blockno * 2 % 2 ^ 32)
  pub header_desc : IsDesc (d1.desc i) (request_of i) 16 true false b
  pub contents_desc : IsDesc (d1.desc b) (contents_of bf) 1024 true (not write) c
  pub status_desc : IsDesc (d1.desc c) (status_of i) 1 false true 0
  pub pending : (d1.status i ≡ 0xff) × (d1.busy bf ≡ true) × (d1.buf_of i ≡ bf)
  pub desc_others : (j : ℕ) → i ≢ j → b ≢ j → c ≢ j → d1.desc j ≡ d.desc j

-- What the two halves of a request do with the descriptors.
abbrev pub IsServed : ℕ → ℕ → Bool → Driver → Option (Option ℕ × Driver) → Type 0
IsServed bf blockno write d none = ⊥
IsServed bf blockno write d (some (none, d')) =
    (count_free num d.free < 3) × ((j : ℕ) → d'.free j ≡ d.free j)
IsServed bf blockno write d (some (some i, d1)) =
    (b : ℕ) × (c : ℕ) × ((d.free i ≡ true) × (d.free b ≡ true) × (d.free c ≡ true))
    × IsChain i b c d1
    × IsRequest bf blockno write i b c d d1
    × ((d2 : Driver)
        → KeepsChain i b c d1 d2
        → (d3 : Driver) × (end_rw bf i d2 ≡ some d3)
          × ((j : ℕ) → d3.free j ≡ (if (i == j) || (b == j) || (c == j) then true else d2.free j)))
