-- ===== src/Proc/Tests.antt =====
-- The theorems on proc.c at concrete inputs.
use tp2_ronaldo_joaopedro.Common.{
  true, false, none, some, [], ◌∷◌, ◌==◌, if◌then◌else◌, ◌≡◌, refl, arith, update,
}
use tp2_ronaldo_joaopedro.Machine.Triples.{Triple, Anything}
use tp2_ronaldo_joaopedro.File.{File, fd_none}
use tp2_ronaldo_joaopedro.Proc.{Proc, Table, unused, running, is_state, take_slot, find_proc, kill}
use tp2_ronaldo_joaopedro.Proc.Switch.{Kernel, yield}
use tp2_ronaldo_joaopedro.Proc.Steps.{Steps, done, step, yields, taken}
use tp2_ronaldo_joaopedro.Proc.OneCpu.{IsOneCpu}
use tp2_ronaldo_joaopedro.Proc.OneCpu.Reach.{Steps-IsOneCpu}
use tp2_ronaldo_joaopedro.Proc.Waiting.Tables.{IsWatched}
use tp2_ronaldo_joaopedro.Proc.Waiting.Reach.{Steps-IsWatched}
use tp2_ronaldo_joaopedro.Proc.Killed.{IsPlain, kill-zero}
use tp2_ronaldo_joaopedro.Proc.Fork.{World, fork, forkcow}
use tp2_ronaldo_joaopedro.Proc.Fork.Child.{Forked, fork-Forked}

abbrev no_proc : Proc
no_proc = record {
  sz = 0;
  pgdir = 0;
  kstack = 0;
  state = unused;
  pid = 0;
  parent = none;
  tf = record { eax = 0; eip = 0; esp = 0; trapno = 0 };
  chan = none;
  killed = false;
  ofile = [];
  cwd = none;
  name = [];
}

-- Init runs on CPU 0, and there is no other process.
abbrev only_init : Table
only_init = record {
  procs = update (λ _. no_proc) 0 (record no_proc { state = running; pid = 1; sz = 4096 });
  next_pid = 2;
  initproc = 0;
}

abbrev init_runs : Kernel
init_runs = record { table = only_init; cpus = update (λ _. none) 0 (some 0) }

init_yields : Steps init_runs (yield 0 init_runs)
init_yields =
    step init_runs (yield 0 init_runs) (yield 0 init_runs) (yields init_runs 0)
      (done (yield 0 init_runs))

init_runs-IsOneCpu : IsOneCpu init_runs
unfolding is_state
init_runs-IsOneCpu = record {
  runs = λ c i e. ground (arith, e);
  cpu = λ i e. (0, ground (arith, e));
  one = λ c d i e e'. ground (arith, e, e');
}

Steps-IsOneCpu_example : IsOneCpu (yield 0 init_runs)
Steps-IsOneCpu_example = Steps-IsOneCpu init_runs (yield 0 init_runs) init_yields init_runs-IsOneCpu

only_init-IsWatched : IsWatched only_init
unfolding is_state
only_init-IsWatched = record {
  rooted = record { own = λ i e. ground (arith, e); root = refl };
  watch = λ i j small w d e. ground (arith, d);
}

Steps-IsWatched_example : IsWatched (yield 0 init_runs).table
Steps-IsWatched_example =
    Steps-IsWatched init_runs (yield 0 init_runs) init_yields only_init-IsWatched

only_init-IsPlain : IsPlain only_init
unfolding is_state
only_init-IsPlain i = ground arith

slot_taken : take_slot only_init ≡ some (1, taken 1 only_init)
unfolding take_slot find_proc is_state
slot_taken = refl

kill-zero_example :
    ((kill 0 only_init).0 ≡ true)
    × ((t : Table) × (take_slot (kill 0 only_init).1 ≡ some (1, t)) × ((t.procs 1).killed ≡ true))
kill-zero_example = kill-zero only_init (taken 1 only_init) 1 only_init-IsPlain slot_taken

abbrev no_file : File
no_file = record {
  kind = fd_none;
  ref = 0;
  readable = false;
  writable = false;
  pipe = 0;
  ip = 0;
  off = 0;
}

-- init with a file open at descriptor 0 and a current directory.
abbrev one_file : Table
one_file = record only_init {
  procs =
      update only_init.procs 0
        (record (only_init.procs 0) { sz = 4096; ofile = some 3 ∷ none ∷ []; cwd = some 1 });
}

abbrev forking : World
forking = record {
  table = one_file;
  files = update (λ _. no_file) 3 (record no_file { ref = 1 });
  iref = λ i. if i == 1 then 1 else 0;
}

init_busy : is_state (one_file.procs 0).state unused ≡ false
unfolding is_state
init_busy = refl

fork-Forked_example :
    Triple Anything (fork 4096 8192 0 forking) (λ r _. Forked 0 forking r)
    × Triple Anything (forkcow 4096 8192 0 forking) (λ r _. Forked 0 forking r)
fork-Forked_example = fork-Forked 4096 8192 0 forking (omega arith) init_busy
