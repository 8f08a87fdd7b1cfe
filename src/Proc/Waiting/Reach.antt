-- ===== src/Proc/Waiting/Reach.antt =====
-- xv6/proc.c: parents that sleep in `wait`, and their exited children, over the states that the operations
-- reach.
use tp2_ronaldo_joaopedro.Common.{
  ℕ, true, false, none, some, ◌≡◌, ◌≢◌, refl, subst, ◌⊎◌, inl, inr, arith, ◌==◌, update, Bool-cases,
  Option-cases,
}
use tp2_ronaldo_joaopedro.Proc.{
  Proc, Procs, Table, unused, embryo, sleeping, runnable, running, zombie, proc_chan, address,
  is_state, set_state, wakeup1, kill, mark_killed, find_proc, has_pid, nproc, reap, wait_round,
  must_sleep,
}
use tp2_ronaldo_joaopedro.Proc.Switch.{
  Kernel, schedule, leave, yield, fall_asleep, sleep, exit, wait,
}
use tp2_ronaldo_joaopedro.Proc.Steps.{
  Step, schedules, yields, sleeps, exits, waits, wakes, kills, takes, starts, drops, Steps, done,
  step, set_proc, collect, exit-cases, wait-cases, take_slot-cases,
}
use tp2_ronaldo_joaopedro.Proc.Waiting.Keeping.{IsDead, Keeps, update-Keeps, wakeup1-Keeps}
use tp2_ronaldo_joaopedro.Proc.Waiting.Parents.{
  same-IsRooted, update-parent, wakeup1-parent, update-IsRooted,
}
use tp2_ronaldo_joaopedro.Proc.Waiting.Tables.{
  IsWatched, Keeps-IsWatched, slot-IsWatched, exit_table-IsWatched, must_sleep-childless,
}

schedule-IsWatched : (c i : ℕ) (k : Kernel) → IsWatched k.table → IsWatched (schedule c i k).table
unfolding schedule is_state
schedule-IsWatched c i k v = elim (Bool-cases (is_state (k.table.procs i).state runnable)) [
  | inr busy ↦ rw busy v
  | inl ready ↦ rw ready (
      slot-IsWatched k.table i (record (k.table.procs i) { state = running; chan = none })
        (inl refl) refl refl v)
]

yield-IsWatched : (c : ℕ) (k : Kernel) → IsWatched k.table → IsWatched (yield c k).table
unfolding yield leave is_state
yield-IsWatched c k v = elim (Option-cases (k.cpus c)) [
  | inl e ↦ rw (e, yield) v
  | inr (i, e) ↦
      rw (e, yield)
        (slot-IsWatched k.table i (set_state runnable (k.table.procs i)) (inl refl) refl refl v)
]

sleep-IsWatched :
    (c a : ℕ) (k : Kernel) → IsWatched k.table → IsWatched (sleep c (address a) k).table
unfolding sleep leave is_state
sleep-IsWatched c a k v = elim (Option-cases (k.cpus c)) [
  | inl e ↦ rw (e, sleep) v
  | inr (i, e) ↦
      rw (e, sleep)
        (slot-IsWatched k.table i (fall_asleep (address a) (k.table.procs i)) (inr (a, refl)) refl
          refl v)
]

exit-IsWatched :
    (k k' : Kernel) (c : ℕ) → exit c k ≡ some k' → IsWatched k.table → IsWatched k'.table
unfolding leave
exit-IsWatched k k' c e v = elim (exit-cases k k' c e) [
  | inl same ↦ subst (λ x. IsWatched x.table) same v
  | inr (i, on, not_init, left) ↦
      subst (λ x. IsWatched x.table) left (exit_table-IsWatched i k.table v)
]

marked-Keeps : (procs : Procs) (i : ℕ) → Keeps procs (update procs i (mark_killed (procs i)))
unfolding mark_killed is_state
marked-Keeps procs i = record {
  waits = λ x w. elim (Bool-cases (i == x)) [
    | inl here ↦ absurd (ground (arith, here, w.asleep))
    | inr there ↦ record {
      asleep = ground (arith, there, w.asleep);
      own_chan = ground (arith, there, w.own_chan);
    }
  ];
  dead = λ j d. ground (arith, d);
  parents = λ x j w d e. ground (arith, d, e);
}

marked-parent :
    (procs : Procs) (i j : ℕ) → (update procs i (mark_killed (procs i)) j).parent ≡ (procs j).parent
unfolding mark_killed
marked-parent procs i j = ground arith

kill-IsWatched : (k : Kernel) (pid : ℕ) → IsWatched k.table → IsWatched (kill pid k.table).1
unfolding kill
kill-IsWatched k pid v = elim (Option-cases (find_proc (has_pid pid) k.table.procs nproc 0)) [
  | inl e ↦ rw (e, kill) v
  | inr (i, e) ↦
      rw (e, kill)
        (Keeps-IsWatched k.table (update k.table.procs i (mark_killed (k.table.procs i)))
          (marked-Keeps k.table.procs i)
          (same-IsRooted k.table.initproc k.table.procs
            (update k.table.procs i (mark_killed (k.table.procs i))) (marked-parent k.table.procs i)
            v.rooted)
          v)
]

collect-IsWatched : (j : ℕ) (t : Table) → IsWatched t → IsWatched (collect j t)
unfolding reap is_state
collect-IsWatched j t v =
    let p = reap (t.procs j) in
    Keeps-IsWatched t (update t.procs j p) (update-Keeps t.procs j p (inl refl) refl)
      (update-IsRooted t.initproc t.procs j p (λ e. ground (arith, e)) (λ e. refl) v.rooted) v

-- The caller of `wait` goes to sleep with no exited child.
waits-IsWatched :
    (k : Kernel) (c i : ℕ)
    → k.cpus c ≡ some i
    → wait_round i k.table.procs ≡ must_sleep
    → IsWatched k.table
    → IsWatched (sleep c (proc_chan i) k).table
unfolding sleep leave is_state
waits-IsWatched k c i on must v =
    rw (on, sleep)
      (record {
        rooted =
            same-IsRooted k.table.initproc k.table.procs (update k.table.procs i p)
              (update-parent k.table.procs i p refl) v.rooted;
        watch = λ x j small w d e.
            let d' : IsDead k.table.procs j = ground (arith, d) in
            let e' : (k.table.procs j).parent ≡ some x = ground (arith, e) in
            elim (Bool-cases (i == x)) [
              | inl here ↦
                  must_sleep-childless i k.table.procs j must small d' (ground (arith, here, e'))
              | inr there ↦
                  v.watch x j small
                    (record {
                      asleep = ground (arith, there, w.asleep);
                      own_chan = ground (arith, there, w.own_chan);
                    })
                    d' e'
            ];
      })
  where
    p : Proc
    p = fall_asleep (proc_chan i) (k.table.procs i)

wait-IsWatched : (c : ℕ) (k : Kernel) → IsWatched k.table → IsWatched (wait c k).table
wait-IsWatched c k v = elim (wait-cases k c) [
  | inl same ↦ rw same v
  | inr (i, on, inr (must, e)) ↦ rw e (waits-IsWatched k c i on must v)
  | inr (i, on, inl (j, got, e)) ↦ rw e (collect-IsWatched j k.table v)
]

still :
    (p : Proc)
    → is_state p.state runnable ≡ true
    → (is_state p.state sleeping ≡ false) × (is_state p.state zombie ≡ false)
unfolding is_state
still p e = (ground (arith, e), ground (arith, e))

gone :
    (p : Proc)
    → is_state p.state unused ≡ true
    → (is_state p.state sleeping ≡ false) × (is_state p.state zombie ≡ false)
unfolding is_state
gone p e = (ground (arith, e), ground (arith, e))

young : (p : Proc) → is_state p.state embryo ≡ true → is_state p.state running ≡ true → ⊥
unfolding is_state
young p e h = ground (arith, e, h)

start-IsWatched :
    (t : Table) (i : ℕ) (p : Proc)
    → is_state (t.procs i).state embryo ≡ true
    → is_state p.state runnable ≡ true
    → (p.parent ≡ none)
      ⊎ ((i ≢ t.initproc)
          × ((q : ℕ) × (p.parent ≡ some q) × (is_state (t.procs q).state running ≡ true)))
    → IsWatched t
    → IsWatched (set_proc i p t)
start-IsWatched t i p was now from v =
    Keeps-IsWatched t (update t.procs i p)
      (update-Keeps t.procs i p (inl (still p now).0) (still p now).1)
      (update-IsRooted t.initproc t.procs i p
        (λ e. elim from [
          | inl nobody ↦ ground (arith, e, nobody)
          | inr (not_init, (q, q_parent, q_runs)) ↦
              let q_i : q ≡ i = ground (arith, e, q_parent) in
              young (t.procs i) was
                (subst (λ x. is_state (t.procs x).state running ≡ true) q_i q_runs)
        ])
        (λ e. elim from [
          | inl nobody ↦ nobody
          | inr (not_init, (q, q_parent, q_runs)) ↦ absurd (not_init e)
        ])
        v.rooted)
      v

pub Step-IsWatched : (k k' : Kernel) → Step k k' → IsWatched k.table → IsWatched k'.table
unfolding is_state
Step-IsWatched k k' (schedules _ c i e) v = schedule-IsWatched c i k v
Step-IsWatched k k' (yields _ c) v = yield-IsWatched c k v
Step-IsWatched k k' (sleeps _ c a) v = sleep-IsWatched c a k v
Step-IsWatched k k' (exits _ _ c e) v = exit-IsWatched k k' c e v
Step-IsWatched k k' (waits _ c) v = wait-IsWatched c k v
Step-IsWatched k k' (wakes _ chan) v =
    Keeps-IsWatched k.table (wakeup1 chan k.table.procs) (wakeup1-Keeps chan k.table.procs)
      (same-IsRooted k.table.initproc k.table.procs (wakeup1 chan k.table.procs)
        (wakeup1-parent chan k.table.procs) v.rooted)
      v
Step-IsWatched k k' (kills _ pid) v = kill-IsWatched k pid v
Step-IsWatched k k' (takes _ i t e) v =
    let p = record (k.table.procs i) { state = embryo; pid = k.table.next_pid } in
    let w = slot-IsWatched k.table i p (inl refl) refl refl v in
    rw ((take_slot-cases k.table t i e).1) (record { rooted = w.rooted; watch = w.watch })
Step-IsWatched k k' (starts _ i p was now from) v = start-IsWatched k.table i p was now from v
Step-IsWatched k k' (drops _ i p was now from) v =
    slot-IsWatched k.table i p (inl (gone p now).0) (gone p now).1 from v

-- From a process table in which init has no parent, nobody is its own parent and no parent sleeps
-- in `wait` beside an exited child, every table that is reached is such a table.
pub Steps-IsWatched : (k k' : Kernel) → Steps k k' → IsWatched k.table → IsWatched k'.table
Steps-IsWatched k k' (done _) v = v
Steps-IsWatched k k'' (step _ k' _ s r) v = Steps-IsWatched k' k'' r (Step-IsWatched k k' s v)
