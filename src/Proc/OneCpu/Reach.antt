-- ===== src/Proc/OneCpu/Reach.antt =====
-- xv6/proc.c: which process is that of which CPU, over the states that the operations reach.
use tp2_ronaldo_joaopedro.Common.{
  ℕ, true, false, some, ◌≡◌, refl, subst, sym, ◌∙◌, inl, inr, arith, Option-cases,
}
use tp2_ronaldo_joaopedro.Proc.{
  Proc, ProcState, unused, embryo, runnable, running, zombie, Chan, proc_chan, address, is_state,
  set_state, wakeup1, kill, mark_killed, find_proc, has_pid, exit_table, nproc, reap,
}
use tp2_ronaldo_joaopedro.Proc.Switch.{
  Kernel, with_procs, leave, yield, fall_asleep, sleep, exit, wait,
}
use tp2_ronaldo_joaopedro.Proc.Steps.{
  Step, schedules, yields, sleeps, exits, waits, wakes, kills, takes, starts, drops, Steps, done,
  step, on_table, set_proc, exit-cases, wait-cases, take_slot-cases, wait_round-reaped, taken,
}
use tp2_ronaldo_joaopedro.Proc.OneCpu.{
  IsOneCpu, quiet, leave-IsOneCpu, schedule-IsOneCpu, wakeup1-running, update-running,
  exit_table-running, mark-running,
}

-- The process of a CPU gives up running by a change of its own entry.
leaves :
    (c i : ℕ) (p : Proc) (k : Kernel)
    → k.cpus c ≡ some i
    → is_state p.state running ≡ false
    → IsOneCpu k
    → IsOneCpu (leave c (set_proc i p k.table) k)
leaves c i p k e stop v =
    leave-IsOneCpu c i (set_proc i p k.table) k e (ground (arith, stop))
      (λ j other. ground (arith, other)) v

yield-IsOneCpu : (c : ℕ) (k : Kernel) → IsOneCpu k → IsOneCpu (yield c k)
unfolding yield is_state
yield-IsOneCpu c k v = elim (Option-cases (k.cpus c)) [
  | inl e ↦ rw (e, yield) v
  | inr (i, e) ↦ rw (e, yield) (leaves c i (set_state runnable (k.table.procs i)) k e refl v)
]

sleep-IsOneCpu : (c : ℕ) (chan : Chan) (k : Kernel) → IsOneCpu k → IsOneCpu (sleep c chan k)
unfolding sleep is_state
sleep-IsOneCpu c chan k v = elim (Option-cases (k.cpus c)) [
  | inl e ↦ rw (e, sleep) v
  | inr (i, e) ↦ rw (e, sleep) (leaves c i (fall_asleep chan (k.table.procs i)) k e refl v)
]

exit-IsOneCpu : (k k' : Kernel) (c : ℕ) → exit c k ≡ some k' → IsOneCpu k → IsOneCpu k'
exit-IsOneCpu k k' c e v = elim (exit-cases k k' c e) [
  | inl same ↦ subst IsOneCpu same v
  | inr (i, on, not_init, left) ↦ subst IsOneCpu left (
      leave-IsOneCpu c i (exit_table i k.table) k on (exit_table-running i k.table).0
        (λ j other. (exit_table-running i k.table).1 j other) v)
]

off :
    (p : Proc) (s : ProcState)
    → is_state p.state s ≡ true
    → is_state s running ≡ false
    → is_state p.state running ≡ false
unfolding is_state
off p s e h = ground (arith, e, h)

-- A process in another state than RUNNING gets another one.
changes :
    (k : Kernel) (i : ℕ) (p : Proc) (s : ProcState)
    → is_state (k.table.procs i).state s ≡ true
    → is_state s running ≡ false
    → is_state p.state running ≡ false
    → IsOneCpu k
    → IsOneCpu (on_table k (set_proc i p k.table))
changes k i p s was s_off p_off v =
    quiet (set_proc i p k.table) k
      (update-running k.table.procs i p (p_off ∙ sym (off (k.table.procs i) s was s_off))) v

kill-IsOneCpu : (k : Kernel) (pid : ℕ) → IsOneCpu k → IsOneCpu (on_table k (kill pid k.table).1)
unfolding kill
kill-IsOneCpu k pid v = elim (Option-cases (find_proc (has_pid pid) k.table.procs nproc 0)) [
  | inl e ↦ rw (e, kill) v
  | inr (i, e) ↦
      rw (e, kill)
        (quiet (set_proc i (mark_killed (k.table.procs i)) k.table) k
          (update-running k.table.procs i (mark_killed (k.table.procs i))
            (mark-running (k.table.procs i)))
          v)
]

wait-IsOneCpu : (c : ℕ) (k : Kernel) → IsOneCpu k → IsOneCpu (wait c k)
unfolding is_state reap
wait-IsOneCpu c k v = elim (wait-cases k c) [
  | inl same ↦ rw same v
  | inr (i, on, inr (asleep, e)) ↦ rw e (sleep-IsOneCpu c (proc_chan i) k v)
  | inr (i, on, inl (j, got, e)) ↦ rw e (
      changes k j (reap (k.table.procs j)) zombie (wait_round-reaped i k.table.procs j got).1 refl
        refl v)
]

pub Step-IsOneCpu : (k k' : Kernel) → Step k k' → IsOneCpu k → IsOneCpu k'
unfolding is_state
Step-IsOneCpu k k' (schedules _ c i e) v = schedule-IsOneCpu c i k e v
Step-IsOneCpu k k' (yields _ c) v = yield-IsOneCpu c k v
Step-IsOneCpu k k' (sleeps _ c a) v = sleep-IsOneCpu c (address a) k v
Step-IsOneCpu k k' (exits _ _ c e) v = exit-IsOneCpu k k' c e v
Step-IsOneCpu k k' (waits _ c) v = wait-IsOneCpu c k v
Step-IsOneCpu k k' (wakes _ chan) v =
    quiet (with_procs (wakeup1 chan k.table.procs) k.table) k (wakeup1-running chan k.table.procs) v
Step-IsOneCpu k k' (kills _ pid) v = kill-IsOneCpu k pid v
Step-IsOneCpu k k' (takes _ i t e) v =
    let c = take_slot-cases k.table t i e in
    let p = record (k.table.procs i) { state = embryo; pid = k.table.next_pid } in
    rw (c.1) (
      quiet (taken i k.table) k
        (update-running k.table.procs i p (sym (off (k.table.procs i) unused c.0 refl))) v)
Step-IsOneCpu k k' (starts _ i p was now from) v =
    changes k i p embryo was refl (off p runnable now refl) v
Step-IsOneCpu k k' (drops _ i p was now from) v =
    changes k i p embryo was refl (off p unused now refl) v

-- From a state in which each RUNNING process is the process of exactly one CPU, every state that
-- schedulers, running processes, exits, waits, sleeps, wakeups, kills and forks reach is such a
-- state.
pub Steps-IsOneCpu : (k k' : Kernel) → Steps k k' → IsOneCpu k → IsOneCpu k'
Steps-IsOneCpu k k' (done _) v = v
Steps-IsOneCpu k k'' (step _ k' _ s r) v = Steps-IsOneCpu k' k'' r (Step-IsOneCpu k k' s v)
