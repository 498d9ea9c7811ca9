-- ===== src/Virtio.antt =====
-- The driver of kernel/virtio_disk.c without the registers of the device. An address is the object that
-- it points to. The device writes `used`, `used_count` and `status`, and the lock has no model.
pub mod Alloc
pub mod Descriptors
pub mod Chain
use xv6_riscv_cs.Base.{
  Bool, Option, false, if◌then◌else◌, leb, none, not, some, suc, true, update, zero, ℕ, ◌%◌, ◌*◌,
  ◌+◌, ◌-◌, ◌==◌, ◌^◌,
}

-- NUM of kernel/virtio.h
abbrev pub num : ℕ
num = 8

-- A null pointer, `&disk.ops[i]`, `b->data`, and `&disk.info[i].status`.
pub data Address : Type 0 where
  no_address : Address
  request_of : ℕ → Address
  contents_of : ℕ → Address
  status_of : ℕ → Address

-- `struct virtq_desc`
pub record Desc : Type 0 where
  pub addr : Address
  pub len : ℕ
  pub flags : ℕ
  pub next : ℕ

-- `struct virtio_blk_req`
pub record Request : Type 0 where
  pub type : ℕ
  pub reserved : ℕ
  pub sector : ℕ

-- `struct disk` with its two rings; `buf_of` and `status` are the fields of `info`. `busy` has the
-- field `disk` of each buffer, and buffer 0 is null.
pub record Driver : Type 0 where
  pub desc : ℕ → Desc
  pub free : ℕ → Bool
  pub used_idx : ℕ
  pub buf_of : ℕ → ℕ
  pub status : ℕ → ℕ
  pub ops : ℕ → Request
  pub avail : ℕ → ℕ
  pub avail_idx : ℕ
  pub used : ℕ → ℕ
  pub used_count : ℕ
  pub busy : ℕ → Bool

-- VRING_DESC_F_NEXT and VRING_DESC_F_WRITE
abbrev pub f_next : ℕ
f_next = 1

abbrev pub f_write : ℕ
f_write = 2

-- The loop of `alloc_desc` over `n` descriptors from `i` on.
unfoldable pub find_desc : ℕ → ℕ → (ℕ → Bool) → Option ℕ
find_desc zero i free = none
find_desc (suc n) i free = let rest = find_desc n (i + 1) free in if free i then some i else rest

abbrev pub mark_desc : Driver → Option ℕ → Option ℕ × Driver
mark_desc d none = (none, d)
mark_desc d (some i) = (some i, record d { free = update d.free i false })

-- `alloc_desc`; `none` is -1.
unfoldable pub alloc_desc : Driver → Option ℕ × Driver
unfolding find_desc
alloc_desc d = mark_desc d (find_desc num 0 d.free)

abbrev pub zero_desc : Desc
zero_desc = record { addr = no_address; len = 0; flags = 0; next = 0 }

-- `free_desc` without its `wakeup`; `none` is `panic`.
unfoldable pub free_desc : ℕ → Driver → Option Driver
free_desc i d =
    if leb num i
    then none
    else if d.free i
    then none
    else some (record d { desc = update d.desc i zero_desc; free = update d.free i true })

abbrev pub then_free : Bool → (Driver → Option Driver) → Option Driver → Option Driver
then_free more rest none = none
then_free more rest (some d) = if more then rest d else some d

-- The rounds of `free_chain`. Each one takes a descriptor that is in use and frees it, or panics, so
-- that NUM + 1 rounds are enough.
unfoldable pub chain_rounds : ℕ → ℕ → Driver → Option Driver
unfolding free_desc
chain_rounds zero i d = none
chain_rounds (suc n) i d =
    then_free ((d.desc i).flags % 2 == f_next) (chain_rounds n (d.desc i).next) (free_desc i d)

unfoldable pub free_chain : ℕ → Driver → Option Driver
unfolding chain_rounds
free_chain i d = chain_rounds (num + 1) i d

-- What a call of `alloc3_desc` gives: -1 or the three descriptors, or a panic.
abbrev pub Allocation : Type 0
Allocation = Option (Option (ℕ × ℕ × ℕ) × Driver)

abbrev pub fails : Option Driver → Allocation
fails none = none
fails (some d) = some (none, d)

-- The part of `alloc3_desc` behind its third call of `alloc_desc`, its second and its first.
abbrev pub alloc_end : ℕ → ℕ → Option ℕ × Driver → Allocation
alloc_end i0 i1 (none, d) = fails (then_free true (free_desc i1) (free_desc i0 d))
alloc_end i0 i1 (some i2, d) = some (some (i0, i1, i2), d)

abbrev pub alloc_middle : ℕ → Option ℕ × Driver → Allocation
alloc_middle i0 (none, d) = fails (free_desc i0 d)
alloc_middle i0 (some i1, d) = alloc_end i0 i1 (alloc_desc d)

abbrev pub alloc_start : Option ℕ × Driver → Allocation
alloc_start (none, d) = some (none, d)
alloc_start (some i0, d) = alloc_middle i0 (alloc_desc d)

unfoldable pub alloc3_desc : Driver → Allocation
unfolding alloc_desc free_desc
alloc3_desc d = alloc_start (alloc_desc d)

-- The three descriptors of a request for the buffer `b` at block `blockno`, given to the device.
unfoldable pub submit : ℕ → ℕ → Bool → ℕ → ℕ → ℕ → Driver → Driver
submit b blockno write i0 i1 i2 d =
    let first =
      update d.desc i0 (record { addr = request_of i0; len = 16; flags = f_next; next = i1 }) in
    let second = update first i1 (record {
      addr = contents_of b;
      len = 1024;
      flags = (if write then 0 else f_write) + f_next;
      next = i2;
    }) in
    record d {
      ops = update d.ops i0 (record {
        type = (if write then 1 else 0);
        reserved = 0;
        sector = (blockno * 2) % 2 ^ 32;
      });
      desc = update second i2 (record { addr = status_of i0; len = 1; flags = f_write; next = 0 });
      status = update d.status i0 0xff;
      busy = update d.busy b true;
      buf_of = update d.buf_of i0 b;
      avail = update d.avail (d.avail_idx % num) i0;
      avail_idx = (d.avail_idx + 1) % 2 ^ 16;
    }

-- `virtio_disk_rw` up to the wait for the device, with the first descriptor; or, where there are too
-- few descriptors, up to the wait for these.
abbrev pub submit_found : ℕ → ℕ → Bool → Option (ℕ × ℕ × ℕ) × Driver → Option ℕ × Driver
submit_found b blockno write (none, d) = (none, d)
submit_found b blockno write (some (i0, i1, i2), d) = (some i0, submit b blockno write i0 i1 i2 d)

abbrev pub start_found : ℕ → ℕ → Bool → Allocation → Option (Option ℕ × Driver)
start_found b blockno write none = none
start_found b blockno write (some r) = some (submit_found b blockno write r)

unfoldable pub start_rw : ℕ → ℕ → Bool → Driver → Option (Option ℕ × Driver)
unfolding alloc3_desc submit
start_rw b blockno write d = start_found b blockno write (alloc3_desc d)

-- `virtio_disk_rw` from there on; `none` inside is a wait, and outside a panic.
unfoldable pub end_rw : ℕ → ℕ → Driver → Option Driver
unfolding free_chain
end_rw b i0 d = free_chain i0 (record d { buf_of = update d.buf_of i0 0 })

-- The loop of `virtio_disk_intr` over `n` entries of the used ring.
unfoldable pub intr_loop : ℕ → Driver → Option Driver
intr_loop zero d = some d
intr_loop (suc n) d =
    let id = d.used (d.used_idx % num) in
    let rest = intr_loop n (record d {
      busy = update d.busy (d.buf_of id) false;
      used_idx = (d.used_idx + 1) % 2 ^ 16;
    }) in
    if not (d.status id == 0) then none else rest

-- `virtio_disk_intr`, with the entries that stand in the ring when it starts.
unfoldable pub virtio_disk_intr : Driver → Option Driver
unfolding intr_loop
virtio_disk_intr d = intr_loop ((d.used_count + 2 ^ 16 - d.used_idx) % 2 ^ 16) d
