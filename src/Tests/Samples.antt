-- ===== src/Tests/Samples.antt =====
-- The concrete states of the tests.
use xv6_riscv_cs.Base.{[], if◌then◌else◌, update, ℕ, ◌+◌, ◌==◌, ◌^◌}
use xv6_riscv_cs.Proc.{Proc, State, RunQueue, Kernel}

abbrev pub no_proc : Proc
no_proc = record {
  state = State.unused;
  chan = 0;
  killed = 0;
  xstate = 0;
  pid = 0;
  sys_count = 0;
  pticks = 0;
  qticks = λ l. 0;
  tsched = 0;
  d_sys_count = 0;
  qlevel = 0;
  parent = 0;
  kstack = 0;
  sz = 0;
  pagetable = 0;
  trapframe = 0;
  ofile = λ fd. 0;
  cwd = 0;
  name = [];
  page_faults = 0;
  page_evicted = 0;
  pages_swapped_in = 0;
  pages_swapped_out = 0;
  resident_pages = 0;
}

-- init, running at the top level; it waits for nobody.
abbrev pub init_proc : Proc
init_proc = record no_proc { state = State.running; pid = 1; pticks = 1; sys_count = 5 }

-- A shell that sleeps in `kwait`, a runnable child of it at level 1, and a zombie child of init.
abbrev pub shell : Proc
shell = record no_proc { state = State.sleeping; pid = 2; parent = 1; chan = 2 }

abbrev pub child : Proc
child = record no_proc { state = State.runnable; pid = 3; parent = 2; qlevel = 1; ofile = λ fd. fd }

abbrev pub ended : Proc
ended = record no_proc { state = State.zombie; pid = 4; parent = 1; xstate = 7 }

abbrev pub table : ℕ → Proc
table = update (update (update (update (λ p. no_proc) 1 init_proc) 2 shell) 3 child) 4 ended

abbrev pub empty_queue : RunQueue
empty_queue = record { qproc = λ i. 0; tail = 0 }

abbrev pub child_queue : RunQueue
child_queue = record { qproc = λ i. 3; tail = 1 }

abbrev pub kernel : Kernel
kernel = record {
  proc = table;
  pqueue = λ l. if l == 1 then child_queue else empty_queue;
  ticks_max = λ l. 2 ^ (l + 1);
  initproc = 1;
  nextpid = 5;
  ticks = 128;
  last_mod128 = 0;
  cpu_proc = λ c. 0;
}
