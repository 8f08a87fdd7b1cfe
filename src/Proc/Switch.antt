-- ===== src/Proc/Switch.antt =====
-- xv6/proc.c: the operations that take a process off a CPU or put one on it. `c->proc` of each CPU
-- is a function of the CPU's number; `swtch` is the moment where the scheduler of that CPU goes on.
use tp2_ronaldo_joaopedro.Common.{ℕ, Option, none, some, ◌==◌, update, if◌then◌else◌}
use tp2_ronaldo_joaopedro.Proc.{
  Proc, Procs, Table, sleeping, runnable, running, Chan, proc_chan, is_state, set_state, exit_table,
  wait_round, reap, reaped, no_wait, must_sleep,
}

pub record Kernel : Type 0 where
  pub table : Table
  pub cpus : ℕ → Option ℕ

abbrev pub with_procs : Procs → Table → Table
with_procs procs t = record t { procs = procs }

-- `scheduler` on CPU `c` comes to slot `i`: a process that is not RUNNABLE is passed over. One
-- that is goes on where it stopped; if that is in `sleep`, it clears its `chan`.
unfoldable pub schedule : ℕ → ℕ → Kernel → Kernel
schedule c i k =
    let p = k.table.procs i in
    if is_state p.state runnable
    then record {
      table =
          with_procs (update k.table.procs i (record p { state = running; chan = none })) k.table;
      cpus = update k.cpus c (some i);
    }
    else k

-- `sched` after the process on CPU `c` has changed its own entry: the scheduler of the CPU clears
-- `c->proc`.
unfoldable pub leave : ℕ → Table → Kernel → Kernel
leave c t k = record { table = t; cpus = update k.cpus c none }

-- With no process on the CPU, `yield`, `sleep` and `exit` are not called.
unfoldable pub yield : ℕ → Kernel → Kernel
yield c k = elim (k.cpus c) [
  | none ↦ k
  | some i ↦
      let t = k.table in
      leave c (with_procs (update t.procs i (set_state runnable (t.procs i))) t) k
]

abbrev pub fall_asleep : Chan → Proc → Proc
fall_asleep chan p = record p { chan = some chan; state = sleeping }

unfoldable pub sleep : ℕ → Chan → Kernel → Kernel
sleep c chan k = elim (k.cpus c) [
  | none ↦ k
  | some i ↦
      let t = k.table in leave c (with_procs (update t.procs i (fall_asleep chan (t.procs i))) t) k
]

-- `exit` from its lock on; `none` is the panic of init, which comes before.
unfoldable pub exit : ℕ → Kernel → Option Kernel
exit c k = elim (k.cpus c) [
  | none ↦ some k
  | some i ↦ if i == k.table.initproc then none else some (leave c (exit_table i k.table) k)
]

-- One round of `wait` by the process on CPU `c`; Proc.Fork.free_memory is what it does to the memory
-- of the process that it finds.
unfoldable pub wait : ℕ → Kernel → Kernel
wait c k = elim (k.cpus c) [
  | none ↦ k
  | some i ↦
      let t = k.table in
      elim (wait_round i t.procs) [
        | reaped j ↦ record k { table = with_procs (update t.procs j (reap (t.procs j))) t }
        | no_wait ↦ k
        | must_sleep ↦ sleep c (proc_chan i) k
      ]
]
