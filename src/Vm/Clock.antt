-- ===== src/Vm/Clock.antt =====
-- The victim search of `evict_page` of kernel/vm.c: a clock over the frame table.
pub mod Pass
pub mod Victim
use xv6_riscv_cs.Base.{
  Bool, Option, false, if◌then◌else◌, ltb, none, not, some, suc, true, update, zero, ℕ, ◌%◌, ◌&&◌,
  ◌+◌, ◌==◌,
}
use xv6_riscv_cs.Proc.{Kernel, State, running}
use xv6_riscv_cs.Vm.{Frame, FrameTable, nframes}

abbrev pub is_running : State → Bool
is_running running = true
is_running _ = false

-- The variables of the search: the table, `to_evict` (`none` for -1), and whether `pass = 2` was
-- assigned.
pub record Search : Type 0 where
  pub f : ℕ → Frame
  pub clock_p : ℕ
  pub to_evict : Option ℕ
  pub last_pass : Bool

-- The frame holds a page of a process that runs on no other processor.
unfoldable pub evictable : ℕ → Kernel → Frame → Bool
evictable me k v =
    (not (v.is_used == 0) && not (v.p == 0))
    && not (is_running (k.proc v.p).state && not (v.p == me))

-- The comparison with the frame that `to_evict` names: the process at the lower priority loses.
unfoldable pub better : Kernel → (ℕ → Frame) → Option ℕ → ℕ → ℕ
better k f none i = i
better k f (some v) i = if ltb (k.proc (f v).p).qlevel (k.proc (f i).p).qlevel then i else v

-- One round of the inner loop.
unfoldable pub scan_step : ℕ → Kernel → Search → Search
scan_step me k s =
    let i = s.clock_p in
    let v = s.f i in
    let next = (i + 1) % nframes in
    if evictable me k v
    then (if v.rb == 0
        then record s {
          clock_p = next;
          to_evict = some (better k s.f s.to_evict i);
          last_pass = true;
        }
        else record s { f = update s.f i (record v { rb = 0 }); clock_p = next })
    else record s { clock_p = next }

-- `n` rounds of the inner loop.
unfoldable pub scan : ℕ → ℕ → Kernel → Search → Search
scan zero me k s = s
scan (suc n) me k s = scan n me k (scan_step me k s)

-- Both passes; the second one is left out if the first found a victim.
unfoldable pub find_victim : ℕ → Kernel → FrameTable → Search
find_victim me k t =
    let first =
      scan nframes me k
        (record { f = t.f; clock_p = t.clock_p; to_evict = none; last_pass = false }) in
    if first.last_pass then first else scan nframes me k first
