-- ===== src/Proc/OneCpu.antt =====
-- xv6/proc.c: which process is that of which CPU, under each operation.
pub mod Reach
use tp2_ronaldo_joaopedro.Common.{
  ℕ, zero, suc, ◌+◌, Bool, true, false, Option, none, some, ◌≡◌, ◌≢◌, refl, sym, ap, ◌∙◌, ◌⊎◌, inl,
  inr, arith, ◌==◌, update, if◌then◌else◌, Bool-cases, Option-cases,
}
use tp2_ronaldo_joaopedro.Proc.{
  Proc, Procs, Table, ProcState, unused, embryo, sleeping, runnable, running, zombie, Chan,
  proc_chan, is_state, same_chan, sleeps_on, set_state, wakeup1, take_slot, kill, mark_killed,
  find_proc, is_unused, is_child, has_pid, pass_children, exit_table, nproc, reap, wait_round,
  reaped, no_wait, must_sleep, scan_children,
}
use tp2_ronaldo_joaopedro.Proc.Switch.{
  Kernel, with_procs, schedule, leave, yield, fall_asleep, sleep, exit, wait,
}

abbrev pub is_running : Procs → ℕ → Bool
is_running procs i = is_state (procs i).state running

pub record IsOneCpu (k : Kernel) : Type 0 where
  pub runs : (c i : ℕ) → k.cpus c ≡ some i → is_running k.table.procs i ≡ true
  pub cpu : (i : ℕ) → is_running k.table.procs i ≡ true → (c : ℕ) × (k.cpus c ≡ some i)
  pub one : (c d i : ℕ) → k.cpus c ≡ some i → k.cpus d ≡ some i → c ≡ d

-- What does not change who is RUNNING.
pub quiet :
    (t : Table) (k : Kernel)
    → ((i : ℕ) → is_running t.procs i ≡ is_running k.table.procs i)
    → IsOneCpu k
    → IsOneCpu (record { table = t; cpus = k.cpus })
quiet t k same v = record {
  runs = λ c i e. same i ∙ v.runs c i e;
  cpu = λ i e. v.cpu i (sym (same i) ∙ e);
  one = v.one;
}

still_on :
    (cpus : ℕ → Option ℕ) (c d j : ℕ) → update cpus c none d ≡ some j → (d ≢ c) × (cpus d ≡ some j)
still_on cpus c d j e = elim (Bool-cases (c == d)) [
  | inl here ↦ absurd (ground (arith, e, here))
  | inr there ↦ (ground (arith, there), ground (arith, e, there))
]

-- The process on CPU `c` stops running, and leaves the CPU.
pub leave-IsOneCpu :
    (c i : ℕ) (t : Table) (k : Kernel)
    → k.cpus c ≡ some i
    → is_running t.procs i ≡ false
    → ((j : ℕ) → j ≢ i → is_running t.procs j ≡ is_running k.table.procs j)
    → IsOneCpu k
    → IsOneCpu (leave c t k)
unfolding leave
leave-IsOneCpu c i t k e stop same v = record {
  runs = λ d j on.
      let still = still_on k.cpus c d j on in
      same j (λ j_i. still.0 (v.one d c i (still.1 ∙ ap some j_i) e)) ∙ v.runs d j still.1;
  cpu = λ j r.
      let other : j ≢ i = λ j_i. ground (arith, stop, r, j_i) in
      let (d, on) = v.cpu j (sym (same j other) ∙ r) in (d, ground (arith, on, e, other));
  one = λ d d' j on on'. v.one d d' j (still_on k.cpus c d j on).1 (still_on k.cpus c d' j on').1;
}

ready_idle : (p : Proc) → is_state p.state runnable ≡ true → is_state p.state running ≡ false
unfolding is_state
ready_idle p e = ground (arith, e)

pub schedule-IsOneCpu :
    (c i : ℕ) (k : Kernel) → k.cpus c ≡ none → IsOneCpu k → IsOneCpu (schedule c i k)
unfolding schedule is_state
schedule-IsOneCpu c i k e v = elim (Bool-cases (is_state (k.table.procs i).state runnable)) [
  | inr busy ↦ rw busy v
  | inl ready ↦
      let idle : is_running k.table.procs i ≡ false = ready_idle (k.table.procs i) ready in
      rw ready (record {
        runs = λ d j on. elim (Bool-cases (i == j)) [
          | inl here ↦ ground (arith, here)
          | inr there ↦ ground (arith, there, on, v.runs d j)
        ];
        cpu = λ j r. elim (Bool-cases (i == j)) [
          | inl here ↦ (c, ground (arith, here))
          | inr there ↦
              let (d, on) = v.cpu j (ground (arith, there, r)) in (d, ground (arith, there, on, e))
        ];
        one = λ d d' j on on'. ground (arith, on, on', v.one d d' j, v.runs d j, v.runs d' j, idle);
      })
]

wake-running :
    (c : Chan) (p : Proc)
    → is_state (if sleeps_on c p then set_state runnable p else p).state running
      ≡ is_state p.state running
unfolding sleeps_on is_state
wake-running c p = ground arith

pub mark-running : (p : Proc) → is_state (mark_killed p).state running ≡ is_state p.state running
unfolding mark_killed is_state
mark-running p = ground arith

pub wakeup1-running :
    (c : Chan) (procs : Procs) (i : ℕ) → is_running (wakeup1 c procs) i ≡ is_running procs i
unfolding wakeup1
wakeup1-running c procs i = wake-running c (procs i)

-- One slot rewritten, to the same effect.
pub update-running :
    (procs : Procs) (i : ℕ) (p : Proc)
    → is_state p.state running ≡ is_running procs i
    → (j : ℕ) → is_running (update procs i p) j ≡ is_running procs j
update-running procs i p e j = elim (Bool-cases (i == j)) [
  | inl here ↦ ground (arith, here, e)
  | inr there ↦ ground (arith, there)
]

adopt-running :
    (cur init i : ℕ) (procs : Procs) (j : ℕ)
    → is_running
        (if is_child cur (procs i)
          then (if is_state (procs i).state zombie
              then wakeup1
                  (proc_chan init)
                  (update procs i (record (procs i) { parent = some init }))
              else update procs i (record (procs i) { parent = some init }))
          else procs)
        j
      ≡ is_running procs j
adopt-running cur init i procs j =
    let adopted = update-running procs i (record (procs i) { parent = some init }) refl j in
    elim (Bool-cases (is_child cur (procs i))) [
      | inr other ↦ rw other refl
      | inl child ↦ rw child (elim (Bool-cases (is_state (procs i).state zombie)) [
        | inl dead ↦ rw dead (
            wakeup1-running (proc_chan init)
              (update procs i (record (procs i) { parent = some init })) j
            ∙ adopted)
        | inr live ↦ rw live adopted
      ])
    ]

pub pass_children-running :
    (cur init n i : ℕ) (procs : Procs) (j : ℕ)
    → is_running (pass_children cur init n i procs) j ≡ is_running procs j
unfolding pass_children
pass_children-running cur init zero i procs j = refl
pass_children-running cur init (suc n) i procs j =
    pass_children-running cur init n (i + 1) _ j ∙ adopt-running cur init i procs j

pub exit_table-running :
    (i : ℕ) (t : Table)
    → (is_running (exit_table i t).procs i ≡ false)
      × ((j : ℕ) → j ≢ i → is_running (exit_table i t).procs j ≡ is_running t.procs j)
unfolding exit_table is_state
exit_table-running i t = (
  ground arith,
  λ j other. elim (Option-cases (t.procs i).parent) [
    | inl e ↦ rw e (ground (arith, other, pass_children-running i t.initproc nproc 0 t.procs j))
    | inr (q, e) ↦ rw e (
        ground (
          arith,
          other,
          pass_children-running i t.initproc nproc 0 (wakeup1 (proc_chan q) t.procs) j,
          wakeup1-running (proc_chan q) t.procs j,
        ))
  ],
)
