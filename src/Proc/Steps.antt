-- ===== src/Proc/Steps.antt =====
-- xv6/proc.c as a state machine: every way in which the processes and their CPUs move on while
-- `ptable.lock` is held, one constructor for each piece of code between its acquire and release.
use tp2_ronaldo_joaopedro.Common.{
  ℕ, zero, suc, ◌+◌, Bool, true, false, none, some, ◌≡◌, refl, subst, ◌≢◌, ◌⊎◌, Option-cases, not,
  ◌&&◌, ◌||◌, update, arith, Bool-cases, inl, inr,
}
use tp2_ronaldo_joaopedro.Machine.{add32}
use tp2_ronaldo_joaopedro.Proc.{
  Proc, Procs, Table, embryo, unused, runnable, running, zombie, Chan, address, is_state, wakeup1,
  take_slot, kill, is_child, Scan, found, scanned, scan_children, find_proc, nproc, wait_round,
  reaped, must_sleep, no_wait, Round, reap, exit_table, proc_chan, is_unused,
}
use tp2_ronaldo_joaopedro.Proc.Switch.{
  Kernel, with_procs, leave, schedule, yield, sleep, exit, wait,
}

abbrev pub on_table : Kernel → Table → Kernel
on_table k t = record k { table = t }

abbrev pub set_proc : ℕ → Proc → Table → Table
set_proc i p t = with_procs (update t.procs i p) t

-- `starts` is the end of `fork`, `forkcow` and `userinit`: the new process, as they have filled it
-- in, is made RUNNABLE; its parent is the running caller, or nobody for init. `drops` is their way out, and that of `allocproc`, when memory is short.
pub data Step : Kernel → Kernel → Type 0 where
  schedules : (k : Kernel) (c i : ℕ) → k.cpus c ≡ none → Step k (schedule c i k)
  yields : (k : Kernel) (c : ℕ) → Step k (yield c k)
  sleeps : (k : Kernel) (c a : ℕ) → Step k (sleep c (address a) k)
  exits : (k k' : Kernel) (c : ℕ) → exit c k ≡ some k' → Step k k'
  waits : (k : Kernel) (c : ℕ) → Step k (wait c k)
  wakes :
      (k : Kernel) (chan : Chan)
      → Step k (on_table k (with_procs (wakeup1 chan k.table.procs) k.table))
  kills : (k : Kernel) (pid : ℕ) → Step k (on_table k (kill pid k.table).1)
  takes : (k : Kernel) (i : ℕ) (t : Table) → take_slot k.table ≡ some (i, t) → Step k (on_table k t)
  starts :
      (k : Kernel) (i : ℕ) (p : Proc)
      → is_state (k.table.procs i).state embryo ≡ true
      → is_state p.state runnable ≡ true
      → (p.parent ≡ none)
        ⊎ ((i ≢ k.table.initproc)
            × ((q : ℕ) × (p.parent ≡ some q) × (is_state (k.table.procs q).state running ≡ true)))
      → Step k (on_table k (set_proc i p k.table))
  drops :
      (k : Kernel) (i : ℕ) (p : Proc)
      → is_state (k.table.procs i).state embryo ≡ true
      → is_state p.state unused ≡ true
      → p.parent ≡ (k.table.procs i).parent
      → Step k (on_table k (set_proc i p k.table))

pub data Steps : Kernel → Kernel → Type 0 where
  done : (k : Kernel) → Steps k k
  step : (k k' k'' : Kernel) → Step k k' → Steps k' k'' → Steps k k''

-- A child that the scan of `wait` finds has exited.
pub scan_children-found :
    (cur : ℕ) (procs : Procs) (n i : ℕ) (kids : Bool) (j : ℕ)
    → scan_children cur procs n i kids ≡ found j
    → (is_child cur (procs j) ≡ true) × (is_state (procs j).state zombie ≡ true)
unfolding scan_children
scan_children-found cur procs zero i kids j e = absurd (ground (arith, e))
scan_children-found cur procs (suc n) i kids j e =
    elim (Bool-cases (is_child cur (procs i) && is_state (procs i).state zombie)) [
      | inl here ↦ ground (arith, here, e)
      | inr there ↦
          scan_children-found cur procs n (i + 1) (kids || is_child cur (procs i)) j (rw there at e)
    ]

pub find_proc-some :
    (test : Proc → Bool) (procs : Procs) (n i j : ℕ)
    → find_proc test procs n i ≡ some j
    → test (procs j) ≡ true
unfolding find_proc
find_proc-some test procs zero i j e = absurd (ground (arith, e))
find_proc-some test procs (suc n) i j e = elim (Bool-cases (test (procs i))) [
  | inl here ↦ ground (arith, here, e)
  | inr there ↦ find_proc-some test procs n (i + 1) j (rw there at e)
]

-- One round of `wait` that finds a child finds an exited one.
pub wait_round-reaped :
    (cur : ℕ) (procs : Procs) (j : ℕ)
    → wait_round cur procs ≡ reaped j
    → (is_child cur (procs j) ≡ true) × (is_state (procs j).state zombie ≡ true)
unfolding wait_round
wait_round-reaped cur procs j e = by_scan (scan_children cur procs nproc 0 false) refl
  where
    by_scan :
        (s : Scan)
        → scan_children cur procs nproc 0 false ≡ s
        → (is_child cur (procs j) ≡ true) × (is_state (procs j).state zombie ≡ true)
    by_scan (found i) h = scan_children-found cur procs nproc 0 false j (ground (arith, e, h))
    by_scan (scanned kids) h =
        absurd (ground (arith, e, h, Bool-cases (not kids || (procs cur).killed)))

-- What the three operations with several ends come to.
pub exit-cases :
    (k k' : Kernel) (c : ℕ)
    → exit c k ≡ some k'
    → (k ≡ k')
      ⊎ ((i : ℕ) × (k.cpus c ≡ some i)
          × (i ≢ k.table.initproc)
          × (leave c (exit_table i k.table) k ≡ k'))
unfolding exit
exit-cases k k' c e = elim (Option-cases (k.cpus c)) [
  | inl off ↦ inl (ground (arith, e, off))
  | inr (i, on) ↦ inr (i, on, ground (arith, e, on), ground (arith, e, on))
]

abbrev pub collect : ℕ → Table → Table
collect j t = with_procs (update t.procs j (reap (t.procs j))) t

pub wait-cases :
    (k : Kernel) (c : ℕ)
    → (wait c k ≡ k)
      ⊎ ((i : ℕ) × (k.cpus c ≡ some i)
          × (((j : ℕ) × (wait_round i k.table.procs ≡ reaped j)
                × (wait c k ≡ on_table k (collect j k.table)))
              ⊎ ((wait_round i k.table.procs ≡ must_sleep) × (wait c k ≡ sleep c (proc_chan i) k))))
unfolding wait
wait-cases k c = elim (Option-cases (k.cpus c)) [
  | inl off ↦ inl (rw (off, wait) refl)
  | inr (i, on) ↦ by_round i on (wait_round i k.table.procs) refl
]
  where
    by_round :
        (i : ℕ)
        → k.cpus c ≡ some i
        → (r : Round) → wait_round i k.table.procs ≡ r
        → (wait c k ≡ k)
          ⊎ ((i : ℕ) × (k.cpus c ≡ some i)
              × (((j : ℕ) × (wait_round i k.table.procs ≡ reaped j)
                    × (wait c k ≡ on_table k (collect j k.table)))
                  ⊎ ((wait_round i k.table.procs ≡ must_sleep)
                      × (wait c k ≡ sleep c (proc_chan i) k))))
    by_round i on (reaped j) e = inr (i, on, inl (j, e, rw (on, wait) (rw e refl)))
    by_round i on no_wait e = inl (rw (on, wait) (rw e refl))
    by_round i on must_sleep e = inr (i, on, inr (e, rw (on, wait) (rw e refl)))

abbrev pub taken : ℕ → Table → Table
taken i t = record t {
  procs = update t.procs i (record (t.procs i) { state = embryo; pid = t.next_pid });
  next_pid = add32 t.next_pid 1;
}

pub take_slot-cases :
    (t t' : Table) (i : ℕ)
    → take_slot t ≡ some (i, t')
    → (is_state (t.procs i).state unused ≡ true) × (t' ≡ taken i t)
unfolding take_slot
take_slot-cases t t' i e = elim (Option-cases (find_proc is_unused t.procs nproc 0)) [
  | inl none_free ↦ absurd (ground (arith, e, none_free))
  | inr (j, found_at) ↦
      let free = find_proc-some is_unused t.procs nproc 0 j found_at in
      let j_i : j ≡ i = ground (arith, e, found_at) in
      let there : t' ≡ taken j t = ground (arith, e, found_at) in
      subst (λ x. (is_state (t.procs x).state unused ≡ true) × (t' ≡ taken x t)) j_i (free, there)
]
